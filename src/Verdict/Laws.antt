-- ===== src/Verdict/Laws.antt =====
-- When a verdict is a pass.
use cairn_memory.Base.{
  ℕ, ◌≤◌, ◌<◌, ◌≡◌, refl, ◌↔◌, true, false, Option, none, some, List, [], ◌∷◌, arith, any, all,
  length,
}
use cairn_memory.Evidence.{GateEvidenceState, fresh_pass, stale_mutation, stale_digest}
use cairn_memory.Evidence.Classify.{max_safe_integer}
use cairn_memory.Verdict.{
  pass, DegradationReason, FaultCode, PrecedenceInput, is_self_error, is_non_pass, is_stale,
  is_missing, is_fresh_pass, resolve_gates, resolve_capability, resolve_counted, resolve_fault,
  resolve_shadow_precedence,
}

-- What a pass needs: no fault, an applicable rule, no degraded capability, some required gate,
-- and a fresh pass of every one of them.
pub record IsPassing (input : PrecedenceInput) : Type 0 where
  pub no_fault : input.evaluator_fault ≡ none
  pub rules : (0 < input.applicable_rule_count) × (input.applicable_rule_count ≤ max_safe_integer)
  pub gates : (0 < input.required_gate_count) × (input.required_gate_count ≤ max_safe_integer)
  pub capable : input.capability_reasons ≡ []
  pub counted : length input.gate_states ≡ input.required_gate_count
  pub all_fresh : all is_fresh_pass input.gate_states ≡ true

fresh_excludes :
    (states : List GateEvidenceState)
    → all is_fresh_pass states ≡ true
    → (any is_self_error states ≡ false)
      × (any is_non_pass states ≡ false)
      × (any is_stale states ≡ false)
      × (any is_missing states ≡ false)
fresh_excludes [] h = (refl, refl, refl, refl)
fresh_excludes (fresh_pass ∷ states) h = fresh_excludes states h
fresh_excludes (GateEvidenceState.missing ∷ states) h = absurd (cc)
fresh_excludes (GateEvidenceState.non_pass ∷ states) h = absurd (cc)
fresh_excludes (stale_mutation ∷ states) h = absurd (cc)
fresh_excludes (stale_digest ∷ states) h = absurd (cc)
fresh_excludes (GateEvidenceState.self_error ∷ states) h = absurd (cc)

resolve_gates_iff :
    (required : ℕ) (states : List GateEvidenceState)
    → ((resolve_gates required states).result ≡ pass)
      ↔ ((0 < required) × (length states ≡ required) × (all is_fresh_pass states ≡ true))
unfolding resolve_gates
resolve_gates_iff required states = ground (arith, fresh_excludes states)

resolve_capability_iff :
    (reasons : List DegradationReason) (required : ℕ) (states : List GateEvidenceState)
    → ((resolve_capability reasons required states).result ≡ pass)
      ↔ ((reasons ≡ []) × ((resolve_gates required states).result ≡ pass))
unfolding resolve_capability
resolve_capability_iff [] required states = (λ h. (refl, h), λ h. h.1)
resolve_capability_iff (r ∷ reasons) required states = ground arith

resolve_counted_iff :
    (input : PrecedenceInput)
    → ((resolve_counted input).result ≡ pass) ↔ (
        (any is_self_error input.gate_states ≡ false)
        × (0 < input.applicable_rule_count)
        × (input.applicable_rule_count ≤ max_safe_integer)
        × (input.required_gate_count ≤ max_safe_integer)
        × (length input.gate_states ≤ input.required_gate_count)
        × ((resolve_capability input.capability_reasons input.required_gate_count
              input.gate_states).result
            ≡ pass))
unfolding resolve_counted
resolve_counted_iff input = ground arith

resolve_fault_iff :
    (f : Option FaultCode) (input : PrecedenceInput)
    → ((resolve_fault f input).result ≡ pass)
      ↔ ((f ≡ none) × ((resolve_counted input).result ≡ pass))
unfolding resolve_fault
resolve_fault_iff none input = (λ h. (refl, h), λ h. h.1)
resolve_fault_iff (some code) input = ground arith

-- The verdict is a pass exactly when there is no fault, some rule applies, no capability is
-- lacking, some gate is required, every required gate has a state and every state is a fresh pass,
-- with both counts safe integers.
pub precedence_pass_iff :
    (input : PrecedenceInput) → ((resolve_shadow_precedence input).result ≡ pass) ↔ IsPassing input
unfolding resolve_shadow_precedence
precedence_pass_iff input =
    let fault_iff = resolve_fault_iff input.evaluator_fault input in
    let counted_iff = resolve_counted_iff input in
    let capability_iff =
      resolve_capability_iff input.capability_reasons input.required_gate_count input.gate_states in
    let gates_iff = resolve_gates_iff input.required_gate_count input.gate_states in
    (
      λ h.
          let (no_fault, counted) = fault_iff.0 h in
          let (_, rules, rules_safe, gates_safe, _, capability) = counted_iff.0 counted in
          let (capable, gates) = capability_iff.0 capability in
          let (required, counted, fresh) = gates_iff.0 gates in
          record {
            no_fault = no_fault;
            rules = (rules, rules_safe);
            gates = (required, gates_safe);
            capable = capable;
            counted = counted;
            all_fresh = fresh;
          },
      λ p. fault_iff.1 (
        p.no_fault,
        counted_iff.1 (
          (fresh_excludes input.gate_states p.all_fresh).0,
          p.rules.0,
          p.rules.1,
          p.gates.1,
          omega (arith, p.counted),
          capability_iff.1 (p.capable, gates_iff.1 (p.gates.0, p.counted, p.all_fresh)),
        ),
      ),
    )
