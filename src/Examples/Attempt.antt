-- ===== src/Examples/Attempt.antt =====
-- A concrete Stop: one rule that requires one gate, whose run is fresh.
use cairn_memory.Base.{
  ◌<◌, ◌≡◌, refl, Bool, true, false, Option, none, some, List, [], ◌∷◌, length, Memᴰ,
}
use cairn_memory.Base.Text.{Text, codes, text_eq, includes}
use cairn_memory.Evidence.{GateRun, Policy, WorktreeDigest, nat, complete, node_test}
use cairn_memory.Evidence.Classify.{classify_gate_evidence, select_latest_eligible_gate_run}
use cairn_memory.Base.Sorting.{sort_by}
use cairn_memory.Evidence.Selection.{select_evidence_requirements}
use cairn_memory.Verdict.{block, resolve_shadow_precedence}
use cairn_memory.Capability.{
  CapabilityRow, Instant, after, claude_code, resolve_capability_status, collect,
}
use cairn_memory.Shadow.{
  Stage, Snapshot, GateConfig, AuditGate, audit_gate, select_shadow_requirements, lookup,
  digest_fault,
}
use cairn_memory.Shadow.Attempt.{AttemptContext, Identity, evaluate_attempt, attempt_verdict}
use cairn_memory.Shadow.Attempt.Laws.{HasFreshRun, attempt_pass}

abbrev run : GateRun
run = record {
  gate_id = codes "t";
  event_seq = 7;
  mutation_seq = 3;
  config_sha256 = codes "c";
  parser_name = codes "node-test";
  parser_version = 1;
  test_total = some (nat 2);
  test_pass = some (nat 2);
  test_fail = some (nat 0);
  test_skip = some (nat 0);
  skip_reasons_complete = none;
  worktree_digest = some (codes "d");
  digest_version = some 2;
  relevant_paths_sha256 = some (codes "q");
  capture_result = complete;
}

abbrev digest : WorktreeDigest
digest = record {
  is_complete = true;
  digest = some (codes "d");
  version = 2;
  relevant_paths_sha256 = codes "q";
  reason = none;
}

abbrev never : Stage → Option Text → Bool
never stage gate_id = false

abbrev capture : List Text → WorktreeDigest
capture paths = digest

abbrev row : CapabilityRow
row = record {
  client_name = claude_code;
  supports_post_tool_use = some true;
  supports_post_tool_failure = some true;
  supports_file_changed = some true;
  supports_structured_output = some true;
  supports_stop = some true;
  supports_blocking = some true;
  adapter_version = 1;
  settings_source = some (codes "user");
  last_session_id = none;
  last_heartbeat_at = none;
  last_probe_result = none;
}

abbrev snapshot : Snapshot
snapshot = record {
  sequence = record { event_seq = 7; mutation_seq = 3 };
  rules =
      record {
        memory_id = codes "m";
        rule_id = codes "r";
        revision = 1;
        level = block;
        gate_ids = codes "t" ∷ [];
        paths = [];
        watermark = some (record { event_seq = 4; mutation_seq = 1 });
      }
      ∷ [];
  events = [];
  gate_runs = run ∷ [];
  capability = some row;
}

abbrev policy : Policy
policy = record { parser = node_test; max_skips = 0; require_reasons = true }

abbrev config : GateConfig
config = record {
  sha256 = codes "c";
  default_level = block;
  path_rules = [];
  gates = (codes "t", policy) ∷ [];
}

abbrev identity : Identity
identity = record { session_id = codes "s"; client_name = claude_code }

abbrev parse_date : Text → Option Instant
parse_date text = some (after 1000)

abbrev gates : List AuditGate
gates =
    audit_gate (codes "t")
      (classify_gate_evidence (some run) policy (codes "**" ∷ []) [] (some digest)) (some run)
    ∷ []

abbrev attempt : AttemptContext
attempt = record {
  selection = select_shadow_requirements snapshot [];
  verdict =
      attempt_verdict never capture snapshot config (select_shadow_requirements snapshot []) gates
        (resolve_capability_status parse_date (some row) claude_code (codes "s") 5 true) false;
}

attempt_pass_example :
    (0 < length attempt.selection.applicable_rules)
    × (0 < length attempt.selection.required_gate_ids)
    × (attempt.verdict.capability_reasons ≡ [])
    × ((gate_id : Text)
        → Memᴰ gate_id attempt.selection.required_gate_ids
        → HasFreshRun never capture snapshot config attempt.selection gate_id)
unfolding evaluate_attempt attempt_verdict select_shadow_requirements select_evidence_requirements
    sort_by lookup text_eq digest_fault select_latest_eligible_gate_run includes
    resolve_shadow_precedence audit_gate classify_gate_evidence resolve_capability_status collect
attempt_pass_example =
    attempt_pass never capture snapshot config parse_date identity 5 false attempt refl refl
