-- ===== src/Recorder.antt =====
-- src/governance/recorder.ts: the gate runs that are recorded of one observed command.
pub mod Laws
use cairn_memory.Base.{
  ℕ, Bool, true, false, not, ◌&&◌, ◌||◌, Option, none, some, List, [], ◌∷◌, ◌++◌, map, map_option,
  if◌then◌else◌, keep, flat_map,
}
use cairn_memory.Base.Text.{Text, codes, includes}
use cairn_memory.Evidence.{
  CaptureStatus, incomplete, Parser, node_test, exit_only, GateRun, Policy, PathRule, nat,
  WorktreeDigest,
}
use cairn_memory.Evidence.Classify.{parser_text}
use cairn_memory.Evidence.Selection.{distinct, sort_texts}
use cairn_memory.ResultParser.{
  GateKind, test, command, ParseOptions, ParsedGateResult, ResultObservation,
}
use cairn_memory.ResultParser.Summary.{parse_gate_result}

abbrev or_everything : List Text → List Text
or_everything [] = codes "**" ∷ []
or_everything (path ∷ paths) = path ∷ paths

unfoldable pub relevant_paths : List PathRule → Text → List Text
unfolding distinct
relevant_paths path_rules gate_id = or_everything (
    sort_texts (
      distinct (
        flat_map (λ (rule : PathRule). rule.paths)
          (keep (λ (rule : PathRule). includes gate_id rule.require) path_rules))))

abbrev pub kind_of : Parser → GateKind
kind_of node_test = test
kind_of exit_only = command

-- The options of a gate with this policy.
unfoldable pub parse_options : Policy → ParseOptions
parse_options policy = record {
  parser = policy.parser;
  gate_kind = some (kind_of policy.parser);
  skips = some (record { max = policy.max_skips; require_reasons = policy.require_reasons });
}

-- A gate run as it is inserted, under the sequence numbers that the table gives it.
unfoldable pub recorded_run : Text → Text → ℕ → ℕ → WorktreeDigest → ParsedGateResult → GateRun
recorded_run gate_id config_sha256 event_seq mutation_seq digest parsed = record {
  gate_id = gate_id;
  event_seq = event_seq;
  mutation_seq = mutation_seq;
  config_sha256 = config_sha256;
  parser_name = parser_text parsed.parser_name;
  parser_version = parsed.parser_version;
  test_total = map_option nat parsed.counts.total;
  test_pass = map_option nat parsed.counts.passed;
  test_fail = map_option nat parsed.counts.failed;
  test_skip = map_option nat parsed.counts.skipped;
  skip_reasons_complete = parsed.counts.skip_reasons_complete;
  worktree_digest = digest.digest;
  digest_version = some digest.version;
  relevant_paths_sha256 = some digest.relevant_paths_sha256;
  capture_result = if digest.is_complete then parsed.capture_result else incomplete;
}
