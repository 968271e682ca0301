-- ===== src/Shadow/Attempt.antt =====
-- `evaluateAttempt` and `faultVerdict` of src/governance/shadow-evaluator.ts.
pub mod Laws
use cairn_memory.Base.{
  ℕ, Bool, true, false, not, Option, none, some, List, [], ◌∷◌, map, ◌==◌, if◌then◌else◌, length,
  or_else,
}
use cairn_memory.Base.Text.{Text, codes}
use cairn_memory.Evidence.{GateEvidenceState, Policy, WorktreeDigest, GateRun}
use cairn_memory.Evidence.Classify.{select_latest_eligible_gate_run, classify_gate_evidence}
use cairn_memory.Evidence.Selection.{Selection}
use cairn_memory.Verdict.{
  FaultCode, config_invalid, deadline_exceeded, unsupported_adapter_version, Intent,
  DegradationReason, ShadowResult, VerdictReason, PrecedenceInput, PrecedenceResult,
  resolve_shadow_precedence,
}
use cairn_memory.Capability.{CapabilityRow, Instant, CapabilityStatus, resolve_capability_status}
use cairn_memory.Mode.{
  EffectiveMode, advisory, EffectiveModeResolution, resolve_effective_mode, is_advise,
}
use cairn_memory.Shadow.{
  Stage, selecting, digesting, classifying, checking_capability, resolving_precedence, Snapshot,
  GateConfig, Outcome, failed, resolved, lookup, digest_fault, select_shadow_requirements,
  resolve_shadow_intent, AuditGate, audit_gate, classified_fault,
}

pub data VerdictMode : Type 0 where
  shadow governed : VerdictMode

-- `mode` is `warn` for `governed`; `effective_mode` is `shadow` for `none`.
pub record ShadowVerdict : Type 0 where
  pub mode : VerdictMode
  pub effective_mode : Option EffectiveMode
  pub intent : Intent
  pub precedence : PrecedenceResult
  pub capability_reasons : List DegradationReason
  pub fault : Option FaultCode
  pub gates : List AuditGate

pub record AttemptContext : Type 0 where
  pub selection : Selection
  pub verdict : ShadowVerdict

pub record Identity : Type 0 where
  pub session_id : Text
  pub client_name : Text

abbrev pub verdict_mode : Intent → VerdictMode
verdict_mode intent = if is_advise intent then shadow else governed

abbrev pub mode_of : Intent → EffectiveMode → Option EffectiveMode
mode_of intent mode = if is_advise intent then none else some mode

unfoldable pub fault_verdict : FaultCode → Intent → ShadowVerdict
fault_verdict fault intent = record {
  mode = verdict_mode intent;
  effective_mode = mode_of intent advisory;
  intent = intent;
  precedence = resolve_shadow_precedence (record {
    applicable_rule_count = 0;
    required_gate_count = 0;
    gate_states = [];
    capability_reasons = [];
    evaluator_fault = some fault;
  });
  capability_reasons = [];
  fault = some fault;
  gates = [];
}

module _ (late : Stage → Option Text → Bool) (capture_digest : List Text → WorktreeDigest)
    (snapshot : Snapshot) (config : GateConfig) where
  -- A gate's relevant paths and watermark in a selection.
  abbrev pub paths_for : Selection → Text → List Text
  paths_for selection gate_id =
      or_else (lookup gate_id selection.relevant_paths_by_gate) (codes "**" ∷ [])

  abbrev pub run_for : Selection → Text → Option GateRun
  run_for selection gate_id =
      select_latest_eligible_gate_run gate_id config.sha256
        (or_else (lookup gate_id selection.watermark_by_gate) 0) snapshot.gate_runs

  -- The rest of a round of the loop, once the digest is there without a fault.
  unfoldable pub classify_gate : Selection → Text → Policy → WorktreeDigest → Outcome AuditGate
  classify_gate selection gate_id policy digest =
      if late classifying (some gate_id)
      then failed deadline_exceeded
      else resolved (
          audit_gate gate_id
            (classify_gate_evidence (run_for selection gate_id) policy (paths_for selection gate_id)
              snapshot.events (some digest))
            (run_for selection gate_id))

  unfoldable pub fault_or_classify :
      Option FaultCode → Selection → Text → Policy → WorktreeDigest → Outcome AuditGate
  unfolding classify_gate
  fault_or_classify (some fault) selection gate_id policy digest = failed fault
  fault_or_classify none selection gate_id policy digest =
      classify_gate selection gate_id policy digest

  -- A round of the loop, with what `gates` has for the gate.
  unfoldable pub evaluate_gate : Selection → Text → Option Policy → Outcome AuditGate
  unfolding fault_or_classify
  evaluate_gate selection gate_id none = failed config_invalid
  evaluate_gate selection gate_id (some policy) =
      let digest = capture_digest (paths_for selection gate_id) in
      if late digesting (some gate_id)
      then failed deadline_exceeded
      else fault_or_classify (digest_fault digest) selection gate_id policy digest

  abbrev pub and_gates : Outcome AuditGate → Outcome (List AuditGate) → Outcome (List AuditGate)
  and_gates (failed fault) rest = failed fault
  and_gates (resolved gate) (failed fault) = failed fault
  and_gates (resolved gate) (resolved gates) = resolved (gate ∷ gates)

  unfoldable pub evaluate_gates : Selection → List Text → Outcome (List AuditGate)
  unfolding evaluate_gate
  evaluate_gates selection [] = resolved []
  evaluate_gates selection (gate_id ∷ gate_ids) =
      and_gates (evaluate_gate selection gate_id (lookup gate_id config.gates))
        (evaluate_gates selection gate_ids)

  -- No gate is looked at where no rule applies.
  unfoldable pub gates_of : Selection → Outcome (List AuditGate)
  unfolding evaluate_gates
  gates_of selection =
      if length selection.applicable_rules == 0
      then resolved []
      else evaluate_gates selection selection.required_gate_ids

  abbrev pub is_supported_adapter : Option CapabilityRow → Bool
  is_supported_adapter none = true
  is_supported_adapter (some row) = row.adapter_version == 1

  unfoldable pub precedence_input : Selection → List AuditGate → CapabilityStatus → PrecedenceInput
  precedence_input selection gates capability = record {
    applicable_rule_count = length selection.applicable_rules;
    required_gate_count = length selection.required_gate_ids;
    gate_states = map AuditGate.state gates;
    capability_reasons = capability.reasons;
    evaluator_fault = none;
  }

  unfoldable pub attempt_verdict :
      Selection → List AuditGate → CapabilityStatus → Bool → ShadowVerdict
  unfolding precedence_input
  attempt_verdict selection gates capability stop_hook_active =
      let intent = resolve_shadow_intent snapshot selection.applicable_rules config.default_level in
      let fault = classified_fault gates in
      record {
        mode = verdict_mode intent;
        effective_mode =
            mode_of intent
              (resolve_effective_mode intent true capability fault stop_hook_active).effective_mode;
        intent = intent;
        precedence = resolve_shadow_precedence (precedence_input selection gates capability);
        capability_reasons = capability.reasons;
        fault = fault;
        gates = gates;
      }

  -- What follows the loop over the gates.
  unfoldable pub conclude :
      (Text → Option Instant)
      → Identity
      → ℕ
      → Bool
      → Selection
      → Outcome (List AuditGate)
      → Outcome AttemptContext
  unfolding attempt_verdict
  conclude parse_date identity now stop_hook_active selection (failed fault) = failed fault
  conclude parse_date identity now stop_hook_active selection (resolved gates) =
      if late checking_capability none
      then failed deadline_exceeded
      else if not (is_supported_adapter snapshot.capability)
      then failed unsupported_adapter_version
      else if late resolving_precedence none
      then failed deadline_exceeded
      else resolved (record {
        selection = selection;
        verdict =
            attempt_verdict selection gates
              (resolve_capability_status parse_date snapshot.capability identity.client_name
                identity.session_id now true)
              stop_hook_active;
      })

  unfoldable pub evaluate_attempt :
      (Text → Option Instant) → Identity → ℕ → Bool → Outcome AttemptContext
  unfolding gates_of conclude
  evaluate_attempt parse_date identity now stop_hook_active =
      if late selecting none
      then failed deadline_exceeded
      else conclude parse_date identity now stop_hook_active
          (select_shadow_requirements snapshot config.path_rules)
          (gates_of (select_shadow_requirements snapshot config.path_rules))
