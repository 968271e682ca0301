-- ===== src/Verdict.antt =====
-- src/governance/verdict-types.ts: the verdict of a Stop evaluation.
pub mod Laws
use cairn_memory.Base.{
  ℕ, Bool, true, false, not, ◌&&◌, ◌||◌, Option, none, some, List, [], ◌∷◌, leb, ltb, ◌==◌,
  if◌then◌else◌, any, all, length,
}
use cairn_memory.Evidence.{GateEvidenceState, fresh_pass, stale_mutation, stale_digest}
use cairn_memory.Evidence.Classify.{max_safe_integer}

pub data ShadowResult : Type 0 where
  pass missing non_pass stale degraded not_applicable self_error : ShadowResult

pub data DegradationReason : Type 0 where
  unsupported_client missing_post_tool_use missing_post_tool_failure : DegradationReason
  missing_file_changed missing_stop async_only_stop blocking_unavailable : DegradationReason
  stale_heartbeat missing_settings_source : DegradationReason

pub data FaultCode : Type 0 where
  invalid_stop_identity invalid_project_root unsupported_client config_missing : FaultCode
  config_invalid config_oversized config_path_escape database_unavailable : FaultCode
  database_busy schema_unavailable rule_malformed evidence_malformed : FaultCode
  unsupported_adapter_version unsupported_parser_version unsupported_digest_version : FaultCode
  unsupported_payload_version impossible_result_counts digest_unavailable : FaultCode
  digest_bound_exceeded digest_race deadline_exceeded concurrent_mutation : FaultCode
  serialization_bound_exceeded audit_write_failed unexpected_error : FaultCode

pub data Intent : Type 0 where
  advise warn block : Intent

pub data VerdictReason : Type 0 where
  fault : FaultCode → VerdictReason
  capability : DegradationReason → VerdictReason
  gate_self_error no_active_pre_exit_rule empty_requirement_set gate_non_pass : VerdictReason
  gate_stale gate_missing all_required_gates_fresh : VerdictReason

pub record PrecedenceInput : Type 0 where
  pub applicable_rule_count : ℕ
  pub required_gate_count : ℕ
  pub gate_states : List GateEvidenceState
  pub capability_reasons : List DegradationReason
  pub evaluator_fault : Option FaultCode

pub record PrecedenceResult : Type 0 where
  pub result : ShadowResult
  pub reason : VerdictReason

abbrev pub is_self_error : GateEvidenceState → Bool
is_self_error GateEvidenceState.self_error = true
is_self_error _ = false

abbrev pub is_non_pass : GateEvidenceState → Bool
is_non_pass GateEvidenceState.non_pass = true
is_non_pass _ = false

abbrev pub is_stale : GateEvidenceState → Bool
is_stale stale_mutation = true
is_stale stale_digest = true
is_stale _ = false

abbrev pub is_missing : GateEvidenceState → Bool
is_missing GateEvidenceState.missing = true
is_missing _ = false

abbrev pub is_fresh_pass : GateEvidenceState → Bool
is_fresh_pass fresh_pass = true
is_fresh_pass _ = false

abbrev verdict : ShadowResult → VerdictReason → PrecedenceResult
verdict result reason = record { result = result; reason = reason }

-- The tests after that of the required gates' number.
unfoldable pub resolve_gates : ℕ → List GateEvidenceState → PrecedenceResult
resolve_gates required states =
    if any is_non_pass states
    then verdict ShadowResult.non_pass gate_non_pass
    else if any is_stale states
    then verdict stale gate_stale
    else if required == 0
    then verdict ShadowResult.missing empty_requirement_set
    else if any is_missing states || ltb (length states) required
    then verdict ShadowResult.missing gate_missing
    else if length states == required && all is_fresh_pass states
    then verdict pass all_required_gates_fresh
    else verdict ShadowResult.self_error (fault evidence_malformed)

unfoldable pub resolve_capability :
    List DegradationReason → ℕ → List GateEvidenceState → PrecedenceResult
unfolding resolve_gates
resolve_capability [] required states = resolve_gates required states
resolve_capability (reason ∷ reasons) required states = verdict degraded (capability reason)

unfoldable pub resolve_counted : PrecedenceInput → PrecedenceResult
unfolding resolve_capability
resolve_counted input =
    if any is_self_error input.gate_states
    then verdict ShadowResult.self_error gate_self_error
    else if not (leb input.applicable_rule_count max_safe_integer)
        || not (leb input.required_gate_count max_safe_integer)
        || ltb input.required_gate_count (length input.gate_states)
    then verdict ShadowResult.self_error (fault evidence_malformed)
    else if input.applicable_rule_count == 0
    then verdict not_applicable no_active_pre_exit_rule
    else resolve_capability input.capability_reasons input.required_gate_count input.gate_states

unfoldable pub resolve_fault : Option FaultCode → PrecedenceInput → PrecedenceResult
unfolding resolve_counted
resolve_fault (some code) input = verdict ShadowResult.self_error (fault code)
resolve_fault none input = resolve_counted input

unfoldable pub resolve_shadow_precedence : PrecedenceInput → PrecedenceResult
unfolding resolve_fault
resolve_shadow_precedence input = resolve_fault input.evaluator_fault input
