-- ===== src/Examples.antt =====
-- Concrete inputs: a gate of a project, an evidence record, a capability row, runs of the stores.
mod Gate
mod Attempt
mod Batch
mod Reminders
mod Retention
mod Events
mod Stops
use cairn_memory.Base.{
  ℕ, ◌≤◌, ◌<◌, ◌≡◌, refl, ◌↔◌, ◌≢◌, ◌⊎◌, inl, inr, Bool, true, false, Option, none, some, List, [],
  ◌∷◌, map, length, arith, Memᴰ, is_some,
}
use cairn_memory.Base.Text.{Text, codes, text_eq, includes}
use cairn_memory.Command.{tokenize_simple_command, TokenizeResult, ok}
use cairn_memory.Warning.{is_safe_char, shell_argument, join_args}
use cairn_memory.Warning.Quoting.{tokenize-join_args}
use cairn_memory.Verdict.{
  ShadowResult, pass, PrecedenceInput, resolve_shadow_precedence, Intent, block, FaultCode, advise,
}
use cairn_memory.Verdict.Laws.{IsPassing, precedence_pass_iff}
use cairn_memory.Evidence.{GateEvidenceState, fresh_pass}
use cairn_memory.Warning.Emission.{
  CommitInput, AuditCall, commits, notes_incident, run_calls, commit, warning_max_per_session,
}
use cairn_memory.Warning.Emission.Laws.{shown, distinct, IsBounded, commit_emits_iff}
use cairn_memory.Warning.Emission.Sessions.{warnings_bounded, run_calls-IsBounded, empty-IsBounded}
use cairn_memory.Capability.{
  CapabilityRow, Instant, after, claude_code, resolve_capability_status, CapabilityStatus,
}
use cairn_memory.Capability.Laws.{SupportsAll, HasHeartbeat, capable_iff}
use cairn_memory.Mode.{resolve_effective_mode, warn}
use cairn_memory.Mode.Laws.{MayWarn, effective_mode_lem}
use cairn_memory.Plan.{PlanStore, in_progress, completed, done}
use cairn_memory.Plan.Calls.{CreatePlanInput}
use cairn_memory.Plan.Steps.{UpdateStepInput, AddNoteInput, update_step, add_note}
use cairn_memory.Plan.Runs.{PlanCall, creates, updates, completes, empty_store}
use cairn_memory.Plan.Runs
use cairn_memory.Plan.Laws.{claim_exclusive, failed_update_keeps}
use cairn_memory.Plan.Laws.Active.{active_count}
use cairn_memory.Plan.{with_id, archive_active, insert_step}
use cairn_memory.Plan.Calls.{create}
use cairn_memory.Validation.{validate_step_count}
use cairn_memory.Plan.Steps.{add_step}
use cairn_memory.Plan.Laws.Numbered.{step_ids, count_from}
use cairn_memory.Plan.Laws.AllNumbered.{steps_numbered, add_step_succeeds}
use cairn_memory.Plan.Laws.OneActive.{one_active}

-- An argv with an argument that needs quotes.
abbrev argv : List Text
argv = codes "it's" ∷ []

tokenize-join_args_example : tokenize_simple_command (join_args (map shell_argument argv)) ≡ ok argv
unfolding shell_argument join_args text_eq is_safe_char
tokenize-join_args_example = tokenize-join_args (codes "it's") [] refl (omega arith)

abbrev one_gate : PrecedenceInput
one_gate = record {
  applicable_rule_count = 1;
  required_gate_count = 1;
  gate_states = fresh_pass ∷ [];
  capability_reasons = [];
  evaluator_fault = none;
}

precedence_pass_iff_example :
    ((resolve_shadow_precedence one_gate).result ≡ pass) ↔ IsPassing one_gate
precedence_pass_iff_example = precedence_pass_iff one_gate

abbrev project : Text
project = codes "p"

abbrev session : Text
session = codes "s"

abbrev warning : Text → CommitInput
warning fingerprint = record { project = project; session_id = session; fingerprint = fingerprint }

abbrev audit_calls : List AuditCall
audit_calls =
    commits (warning (codes "a"))
    ∷ commits (warning (codes "a"))
    ∷ notes_incident project session
    ∷ commits (warning (codes "b"))
    ∷ []

warnings_bounded_example :
    (length (shown project session (run_calls [] audit_calls)) ≤ warning_max_per_session)
    × (distinct (shown project session (run_calls [] audit_calls)) ≡ true)
warnings_bounded_example = warnings_bounded audit_calls project session

commit_emits_iff_example :
    ((commit (warning (codes "c")) (run_calls [] audit_calls)).0.emit ≡ true) ↔ (
      (length (shown project session (run_calls [] audit_calls)) < warning_max_per_session)
      × (includes (codes "c") (shown project session (run_calls [] audit_calls)) ≡ false))
commit_emits_iff_example =
    commit_emits_iff (warning (codes "c")) (run_calls [] audit_calls)
      (run_calls-IsBounded audit_calls [] empty-IsBounded)

abbrev parse_date : Text → Option Instant
parse_date text = some (after 1000)

abbrev row : CapabilityRow
row = record {
  client_name = claude_code;
  supports_post_tool_use = some true;
  supports_post_tool_failure = some true;
  supports_file_changed = some true;
  supports_structured_output = some true;
  supports_stop = some true;
  supports_blocking = some true;
  adapter_version = 1;
  settings_source = some (codes "user");
  last_session_id = some session;
  last_heartbeat_at = some (codes "now");
  last_probe_result = none;
}

abbrev capability : CapabilityStatus
capability = resolve_capability_status parse_date (some row) claude_code session 2000 false

capable_iff_example : (capability.is_degraded ≡ false) ↔ (
    (claude_code ≡ claude_code)
    × ((r : CapabilityRow) × (some row ≡ some r)
        × SupportsAll r
        × ((false ≡ true) ⊎ (r.supports_stop ≡ some true))
        × ((false ≡ true) ⊎ HasHeartbeat parse_date r session 2000)))
capable_iff_example = capable_iff parse_date (some row) claude_code session 2000 false

effective_mode_lem_example :
    let r = resolve_effective_mode block true capability none false in
    let may = MayWarn block true capability none in
    ((r.effective_mode ≡ warn) ↔ may)
    × ((r.clamped_from_block ≡ true) ↔ (may × (block ≡ block)))
    × ((r.is_degraded ≡ true) ↔ (¬ may × (block ≢ advise)))
effective_mode_lem_example = effective_mode_lem block true capability none false

abbrev plan : Text
plan = codes "plan"

abbrev plan_input : CreatePlanInput
plan_input = record {
  project = project;
  name = codes "name";
  steps = record { description = codes "first"; depends_on = none } ∷ [];
}

abbrev plan_calls : List (ℕ × PlanCall)
plan_calls = (1, creates plan plan_input) ∷ (2, creates (codes "other") plan_input) ∷ []

one_active_example : active_count project (Runs.run_calls empty_store plan_calls) ≤ 1
one_active_example = one_active plan_calls project

abbrev plan_store : PlanStore
plan_store = Runs.run_calls empty_store ((1, creates plan plan_input) ∷ [])

abbrev claim : UpdateStepInput
claim = record { step_id = 1; status = some in_progress; outcome = none; blockers = none }

claim_exclusive_example :
    ((update_step 3 plan claim (update_step 2 plan claim plan_store).1).0.ok ≡ false)
    × ((update_step 3 plan claim (update_step 2 plan claim plan_store).1).1
        ≡ (update_step 2 plan claim plan_store).1)
claim_exclusive_example = claim_exclusive 2 3 plan claim claim plan_store refl refl refl

abbrev empty_note : AddNoteInput
empty_note = record { step_id = 1; note = []; replace = false }

failed_update_keeps_example :
    ((update_step 3 plan claim plan_store).0.ok ≡ false
      → (update_step 3 plan claim plan_store).1 ≡ plan_store)
    × ((add_note 3 plan empty_note plan_store).0.ok ≡ false
        → (add_note 3 plan empty_note plan_store).1 ≡ plan_store)
failed_update_keeps_example = failed_update_keeps 3 plan claim empty_note plan_store

steps_numbered_example :
    step_ids plan (Runs.run_calls empty_store plan_calls).steps
    ≡ count_from 1 (length (step_ids plan (Runs.run_calls empty_store plan_calls).steps))
steps_numbered_example = steps_numbered plan_calls plan

add_step_succeeds_example :
    is_some (add_step 3 plan (codes "next") none (Runs.run_calls empty_store plan_calls)).0 ≡ true
unfolding Runs.run_calls create validate_step_count archive_active insert_step text_eq
add_step_succeeds_example = add_step_succeeds plan_calls 3 plan (codes "next") none refl
