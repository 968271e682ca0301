-- ===== src/Shadow/Attempt/Laws.antt =====
-- What a passing attempt has established.
use cairn_memory.Base.{
  ℕ, ◌<◌, ◌≡◌, refl, sym, ap, ◌∙◌, inl, inr, Bool, true, Option, none, some, List, [], ◌∷◌, map,
  ◌==◌, all, length, arith, Memᴰ, Bool-cases, Option-cases, subst, ==_iff, and-eq-true,
}
use cairn_memory.Base.Text.{Text}
use cairn_memory.Evidence.{GateEvidenceState, fresh_pass, Policy, WorktreeDigest, GateRun}
use cairn_memory.Evidence.Classify.{classify_gate_evidence}
use cairn_memory.Evidence.Classify.Fresh.{IsFresh, classify-IsFresh_iff}
use cairn_memory.Evidence.Selection.{Selection}
use cairn_memory.Verdict.{pass, is_fresh_pass}
use cairn_memory.Verdict.Laws.{IsPassing, precedence_pass_iff}
use cairn_memory.Capability.{Instant, resolve_capability_status, CapabilityStatus}
use cairn_memory.Shadow.{
  Stage, digesting, classifying, selecting, checking_capability, resolving_precedence, Snapshot,
  GateConfig, Outcome, failed, resolved, lookup, digest_fault, AuditGate, audit_gate,
  select_shadow_requirements,
}
use cairn_memory.Shadow.Attempt.{
  AttemptContext, Identity, paths_for, run_for, classify_gate, fault_or_classify, evaluate_gate,
  and_gates, evaluate_gates, gates_of, precedence_input, attempt_verdict, conclude,
  evaluate_attempt, is_supported_adapter,
}

is_fresh_pass_sound : (s : GateEvidenceState) → is_fresh_pass s ≡ true → s ≡ fresh_pass
is_fresh_pass_sound s h = ground arith

state_or_fresh : Outcome AuditGate → GateEvidenceState
state_or_fresh (failed fault) = fresh_pass
state_or_fresh (resolved gate) = gate.state

resolved_state : (a b : AuditGate) → Outcome.resolved a ≡ Outcome.resolved b → a.state ≡ b.state
unfolding state_or_fresh
resolved_state a b h = ap state_or_fresh h

abbrev attempt_or : AttemptContext → Outcome AttemptContext → AttemptContext
attempt_or other (failed fault) = other
attempt_or other (resolved attempt) = attempt

module _ (late : Stage → Option Text → Bool) (capture_digest : List Text → WorktreeDigest)
    (snapshot : Snapshot) (config : GateConfig) where
  -- A gate whose policy is configured, and whose latest eligible run is fresh by the digest of its
  -- paths.
  abbrev pub HasFreshRun : Selection → Text → Type 0
  HasFreshRun selection gate_id =
      (policy : Policy) × (run : GateRun) × (lookup gate_id config.gates ≡ some policy)
      × (run_for late capture_digest snapshot config selection gate_id ≡ some run)
      × IsFresh run policy (paths_for late capture_digest snapshot config selection gate_id)
          snapshot.events
          (some (capture_digest (paths_for late capture_digest snapshot config selection gate_id)))

  classified_sound :
      (policy : Policy) (run : Option GateRun) (paths : List Text) (digest : WorktreeDigest)
      → (classify_gate_evidence run policy paths snapshot.events (some digest)).state ≡ fresh_pass
      → (r : GateRun) × (run ≡ some r) × IsFresh r policy paths snapshot.events (some digest)
  unfolding classify_gate_evidence
  classified_sound policy none paths digest h = absurd (cc)
  classified_sound policy (some run) paths digest h =
      (run, refl, (classify-IsFresh_iff run paths snapshot.events (some digest) policy).0 h)

  evaluate_gate_sound :
      (selection : Selection) (gate_id : Text) (found : Option Policy) (gate : AuditGate)
      → lookup gate_id config.gates ≡ found
      → evaluate_gate late capture_digest snapshot config selection gate_id found ≡ resolved gate
      → gate.state ≡ fresh_pass
      → HasFreshRun selection gate_id
  unfolding evaluate_gate fault_or_classify classify_gate audit_gate
  evaluate_gate_sound selection gate_id none gate l h s = absurd (cc)
  evaluate_gate_sound selection gate_id (some policy) gate l h s =
      let paths = paths_for late capture_digest snapshot config selection gate_id in
      let run = run_for late capture_digest snapshot config selection gate_id in
      let digest = capture_digest paths in
      elim (Bool-cases (late digesting (some gate_id))) [
        | inl e ↦ absurd (cc (rw (e, evaluate_gate) at h))
        | inr e ↦ elim (Option-cases (digest_fault digest)) [
          | inr (fault, f) ↦ absurd (cc (rw (e, f, evaluate_gate) at h))
          | inl f ↦ elim (Bool-cases (late classifying (some gate_id))) [
            | inl k ↦ absurd (cc (rw (e, f, k, evaluate_gate) at h))
            | inr k ↦
                let same = resolved_state _ gate (rw (e, f, k, evaluate_gate) at h) in
                let (r, taken, fresh) = classified_sound policy run paths digest (same ∙ s) in
                (policy, r, l, taken, fresh)
          ]
        ]
      ]

  and_gates_inv :
      (a : Outcome AuditGate) (b : Outcome (List AuditGate)) (gates : List AuditGate)
      → and_gates late capture_digest snapshot config a b ≡ resolved gates
      → (gate : AuditGate) × (rest : List AuditGate) × (a ≡ resolved gate)
        × (b ≡ resolved rest)
        × (gates ≡ gate ∷ rest)
  and_gates_inv (failed fault) b gates h = absurd (cc)
  and_gates_inv (resolved gate) (failed fault) gates h = absurd (cc)
  and_gates_inv (resolved gate) (resolved rest) gates h = (gate, rest, refl, refl, cc)

  evaluate_gates_sound :
      (selection : Selection) (gate_ids : List Text) (gates : List AuditGate) (gate_id : Text)
      → evaluate_gates late capture_digest snapshot config selection gate_ids ≡ resolved gates
      → all is_fresh_pass (map AuditGate.state gates) ≡ true
      → Memᴰ gate_id gate_ids
      → HasFreshRun selection gate_id
  unfolding evaluate_gates
  evaluate_gates_sound selection [] gates gate_id h fresh m = elim m [ ]
  evaluate_gates_sound selection (g ∷ gate_ids) gates gate_id h fresh (Memᴰ.head e) =
      let (gate, rest, first, later, listed) = and_gates_inv _ _ gates h in
      let all_fresh = rw listed at fresh in
      subst (HasFreshRun selection) (sym e) (
        evaluate_gate_sound selection g (lookup g config.gates) gate refl first
          (is_fresh_pass_sound gate.state (and-eq-true _ _ all_fresh).0))
  evaluate_gates_sound selection (g ∷ gate_ids) gates gate_id h fresh (Memᴰ.tail m) =
      let (gate, rest, first, later, listed) = and_gates_inv _ _ gates h in
      let all_fresh = rw listed at fresh in
      evaluate_gates_sound selection gate_ids rest gate_id later
        (and-eq-true (is_fresh_pass gate.state) _ all_fresh).1 m

  gates_of_sound :
      (selection : Selection) (gates : List AuditGate) (capability : CapabilityStatus)
      (gate_id : Text)
      → gates_of late capture_digest snapshot config selection ≡ resolved gates
      → IsPassing (precedence_input late capture_digest snapshot config selection gates capability)
      → Memᴰ gate_id selection.required_gate_ids
      → HasFreshRun selection gate_id
  unfolding gates_of precedence_input
  gates_of_sound selection gates capability gate_id h ok m =
      elim (Bool-cases (length selection.applicable_rules == 0)) [
        | inl e ↦
            let applicable : 0 < length selection.applicable_rules = ok.rules.0 in
            absurd (omega (arith, applicable, (==_iff _ _).0 e))
        | inr e ↦
            evaluate_gates_sound selection selection.required_gate_ids gates gate_id (rw e at h)
              ok.all_fresh m
      ]

  conclude_sound :
      (parse_date : Text → Option Instant) (identity : Identity) (now : ℕ) (stop_hook_active : Bool)
      (selection : Selection) (looped : Outcome (List AuditGate)) (attempt : AttemptContext)
      → conclude late capture_digest snapshot config parse_date identity now stop_hook_active
          selection looped
        ≡ resolved attempt
      → (gates : List AuditGate) × (looped ≡ resolved gates)
        × (attempt.selection ≡ selection)
        × (attempt.verdict
            ≡ attempt_verdict late capture_digest snapshot config selection gates
                (resolve_capability_status parse_date snapshot.capability identity.client_name
                  identity.session_id now true)
                stop_hook_active)
  unfolding conclude
  conclude_sound parse_date identity now active selection (failed fault) attempt h = absurd (cc)
  conclude_sound parse_date identity now active selection (resolved gates) attempt h =
      elim (Bool-cases (late checking_capability none)) [
        | inl e ↦ absurd (cc (rw (e, conclude) at h))
        | inr e ↦
            elim (Bool-cases
              (is_supported_adapter late capture_digest snapshot config snapshot.capability)) [
                | inr f ↦ absurd (cc (rw (e, f, conclude) at h))
                | inl f ↦ elim (Bool-cases (late resolving_precedence none)) [
                  | inl k ↦ absurd (cc (rw (e, f, k, conclude) at h))
                  | inr k ↦
                      let same = rw (e, f, k, conclude) at h in
                      (
                        gates,
                        refl,
                        sym (ap (λ o. (attempt_or attempt o).selection) same),
                        sym (ap (λ o. (attempt_or attempt o).verdict) same),
                      )
                ]
              ]
      ]

  -- An attempt whose verdict is a pass has an applicable rule and a required gate, its client
  -- lacks no capability, and every required gate has a configured policy and a latest eligible
  -- run that is fresh by the digest of the gate's paths.
  pub attempt_pass :
      (parse_date : Text → Option Instant) (identity : Identity) (now : ℕ) (stop_hook_active : Bool)
      (attempt : AttemptContext)
      → evaluate_attempt late capture_digest snapshot config parse_date identity now
          stop_hook_active
        ≡ resolved attempt
      → attempt.verdict.precedence.result ≡ pass
      → (0 < length attempt.selection.applicable_rules)
        × (0 < length attempt.selection.required_gate_ids)
        × (attempt.verdict.capability_reasons ≡ [])
        × ((gate_id : Text)
            → Memᴰ gate_id attempt.selection.required_gate_ids
            → HasFreshRun attempt.selection gate_id)
  unfolding evaluate_attempt attempt_verdict precedence_input
  attempt_pass parse_date identity now active attempt h passed =
      elim (Bool-cases (late selecting none)) [
        | inl e ↦ absurd (cc (rw (e, evaluate_attempt) at h))
        | inr e ↦
            let (gates, looped, chosen, verdict) =
              conclude_sound parse_date identity now active _ _ attempt
                (rw (e, evaluate_attempt) at h) in
            let capability =
              resolve_capability_status parse_date snapshot.capability identity.client_name
                identity.session_id now true in
            let selection = select_shadow_requirements snapshot config.path_rules in
            let ok =
              (precedence_pass_iff (
                  precedence_input late capture_digest snapshot config selection gates
                    capability)).0
                (sym (ap (λ v. v.precedence.result) verdict) ∙ passed) in
            (
              rw chosen ok.rules.0,
              rw chosen ok.gates.0,
              ap (λ v. v.capability_reasons) verdict ∙ ok.capable,
              λ gate_id m.
                  subst (λ s. HasFreshRun s gate_id) (sym chosen)
                    (gates_of_sound selection gates capability gate_id looped ok (rw chosen at m)),
            )
      ]
