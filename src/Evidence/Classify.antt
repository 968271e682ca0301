-- ===== src/Evidence/Classify.antt =====
-- `selectLatestEligibleGateRun`, `parserState` and `classifyGateEvidence` of
-- src/governance/evidence-selector.ts.
pub mod Laws
pub mod Passing
pub mod Fresh
use cairn_memory.Base.{
  ℕ, ◌+◌, Bool, true, false, not, ◌&&◌, ◌||◌, Option, none, some, List, [], ◌∷◌, leb, ltb, ◌==◌,
  if◌then◌else◌, any, keep, find, head?, is_some,
}
use cairn_memory.Base.Text.{Text, codes, text_eq}
use cairn_memory.Base.Sorting.{sort_by}
use cairn_memory.Evidence.{
  CaptureStatus, complete, failed, incomplete, adapter_error, MutationClass, unmutated, scoped,
  unknown, Parser, node_test, exit_only, GateEvidenceState, fresh_pass, missing, non_pass,
  stale_mutation, stale_digest, self_error, EvidenceReason, fresh, no_eligible_run,
  capture_incomplete, recorded_non_pass, unsupported_parser_version, impossible_result_counts,
  digest_version_requires_rerun, digest_unavailable, relevant_paths_mismatch,
  later_unknown_mutation, later_scoped_mutation, worktree_digest_changed, Count, nat, other,
  MutationEvent, GateRun, Policy, WorktreeDigest, Classified,
}
use cairn_memory.Evidence.Glob.{path_matches_patterns}

abbrev pub node_test_parser_version : ℕ
node_test_parser_version = 1

abbrev pub exit_only_parser_version : ℕ
exit_only_parser_version = 1

abbrev pub worktree_digest_v2_version : ℕ
worktree_digest_v2_version = 2

abbrev pub max_safe_integer : ℕ
max_safe_integer = 9007199254740991

unfoldable pub is_eligible : Text → Text → ℕ → GateRun → Bool
is_eligible gate_id config_sha256 watermark run =
    text_eq run.gate_id gate_id
    && text_eq run.config_sha256 config_sha256
    && ltb watermark run.event_seq

unfoldable pub select_latest_eligible_gate_run : Text → Text → ℕ → List GateRun → Option GateRun
unfolding is_eligible
select_latest_eligible_gate_run gate_id config_sha256 watermark runs = head? (
    sort_by (λ left right. ltb right.event_seq left.event_seq)
      (keep (is_eligible gate_id config_sha256 watermark) runs))

unfoldable pub mutation_intersects : MutationEvent → List Text → Bool
mutation_intersects event relevant_paths = elim event.mutation_class [
  | unknown ↦ true
  | unmutated ↦ false
  | scoped ↦ any (λ path. path_matches_patterns path relevant_paths) event.affected_paths
]

-- The count, if `validCount` holds.
unfoldable pub valid_count : Option Count → Option ℕ
valid_count none = none
valid_count (some other) = none
valid_count (some (nat n)) = if leb n max_safe_integer then some n else none

abbrev pub verdict_of : GateEvidenceState → EvidenceReason → GateRun → Option Classified
verdict_of state reason run = some (record {
  state = state;
  reason = reason;
  evidence_event_seq = some run.event_seq;
  invalidating_event_seq = none;
})

abbrev pub is_true : Option Bool → Bool
is_true (some true) = true
is_true _ = false

-- The node-test counts against the policy.
unfoldable pub counts_state : GateRun → Policy → ℕ → ℕ → ℕ → ℕ → Option Classified
counts_state run policy total pass fail skips =
    if ltb total (pass + fail + skips)
    then verdict_of self_error impossible_result_counts run
    else if total == 0
        || not (fail == 0)
        || ltb policy.max_skips skips
        || (policy.require_reasons && ltb 0 skips && not (is_true run.skip_reasons_complete))
    then verdict_of non_pass recorded_non_pass run
    else none

unfoldable pub node_test_state : GateRun → Policy → Option Classified
unfolding counts_state valid_count
node_test_state run policy = elim (valid_count run.test_total) [
  | none ↦ verdict_of self_error impossible_result_counts run
  | some total ↦ elim (valid_count run.test_pass) [
    | none ↦ verdict_of self_error impossible_result_counts run
    | some pass ↦ elim (valid_count run.test_fail) [
      | none ↦ verdict_of self_error impossible_result_counts run
      | some fail ↦ elim (valid_count run.test_skip) [
        | none ↦ verdict_of self_error impossible_result_counts run
        | some skips ↦ counts_state run policy total pass fail skips
      ]
    ]
  ]
]

unfoldable pub exit_only_state : GateRun → Option Classified
exit_only_state run =
    if is_some run.test_total
      || is_some run.test_pass
      || is_some run.test_fail
      || is_some run.test_skip
    then verdict_of self_error impossible_result_counts run
    else none

abbrev pub parser_text : Parser → Text
parser_text node_test = codes "node-test"
parser_text exit_only = codes "exit-only"

abbrev pub parser_version_of : Parser → ℕ
parser_version_of node_test = node_test_parser_version
parser_version_of exit_only = exit_only_parser_version

-- The result counts, once the capture is complete.
unfoldable pub result_state : Parser → GateRun → Policy → Option Classified
unfolding node_test_state exit_only_state
result_state node_test run policy = node_test_state run policy
result_state exit_only run policy = exit_only_state run

unfoldable pub capture_state : CaptureStatus → GateRun → Policy → Option Classified
unfolding result_state
capture_state failed run policy = verdict_of non_pass recorded_non_pass run
capture_state complete run policy = result_state policy.parser run policy
capture_state incomplete run policy = verdict_of missing capture_incomplete run
capture_state adapter_error run policy = verdict_of missing capture_incomplete run

-- `none` where the recorded result passes.
unfoldable pub parser_state : GateRun → Policy → Option Classified
unfolding capture_state
parser_state run policy =
    if not (text_eq run.parser_name (parser_text policy.parser))
      || not (run.parser_version == parser_version_of policy.parser)
    then verdict_of self_error unsupported_parser_version run
    else capture_state run.capture_result run policy

-- The first event after the run, in their order, that touches the paths.
unfoldable pub first_invalidating : GateRun → List Text → List MutationEvent → Option MutationEvent
unfolding mutation_intersects
first_invalidating run relevant_paths events =
    find (λ event. mutation_intersects event relevant_paths)
      (sort_by (λ left right. ltb left.event_seq right.event_seq)
        (keep (λ event. ltb run.event_seq event.event_seq) events))

abbrev pub stale_reason : MutationClass → EvidenceReason
stale_reason unknown = later_unknown_mutation
stale_reason unmutated = later_scoped_mutation
stale_reason scoped = later_scoped_mutation

abbrev pub classified : GateEvidenceState → EvidenceReason → GateRun → Option ℕ → Classified
classified state reason run invalidating = record {
  state = state;
  reason = reason;
  evidence_event_seq = some run.event_seq;
  invalidating_event_seq = invalidating;
}

-- The mutations after the run, then the digest itself; `recorded` and `current` are the digests.
unfoldable pub freshness : GateRun → Option MutationEvent → (recorded current : Text) → Classified
freshness run (some event) recorded current =
    classified stale_mutation (stale_reason event.mutation_class) run (some event.event_seq)
freshness run none recorded current =
    if not (text_eq recorded current)
    then classified stale_digest worktree_digest_changed run none
    else classified fresh_pass fresh run none

abbrev pub version_is_current : Option ℕ → Bool
version_is_current none = false
version_is_current (some v) = v == worktree_digest_v2_version

-- The digest of the worktree, where one was computed.
abbrev pub complete_digest : Option WorktreeDigest → Option (Text × Text)
complete_digest none = none
complete_digest (some d) = elim d.digest [
  | none ↦ none
  | some digest ↦ if d.is_complete then some (digest, d.relevant_paths_sha256) else none
]

abbrev pub same_paths : Option Text → Text → Bool
same_paths none sha = false
same_paths (some recorded) sha = text_eq recorded sha

unfoldable pub classify_run :
    GateRun → List Text → List MutationEvent → Option WorktreeDigest → Classified
unfolding freshness first_invalidating
classify_run run relevant_paths later_events current_digest =
    if not (version_is_current run.digest_version)
    then classified missing digest_version_requires_rerun run none
    else elim run.worktree_digest [
      | none ↦ classified self_error digest_unavailable run none
      | some recorded ↦ elim (complete_digest current_digest) [
        | none ↦ classified self_error digest_unavailable run none
        | some (current, paths_sha) ↦
            if not (same_paths run.relevant_paths_sha256 paths_sha)
            then classified missing relevant_paths_mismatch run none
            else freshness run (first_invalidating run relevant_paths later_events) recorded current
      ]
    ]

unfoldable pub classify_gate_evidence :
    Option GateRun → Policy → List Text → List MutationEvent → Option WorktreeDigest → Classified
unfolding parser_state classify_run
classify_gate_evidence none policy relevant_paths later_events current_digest = record {
  state = missing;
  reason = no_eligible_run;
  evidence_event_seq = none;
  invalidating_event_seq = none;
}
classify_gate_evidence (some run) policy relevant_paths later_events current_digest =
    elim (parser_state run policy) [
      | some parsed ↦ parsed
      | none ↦ classify_run run relevant_paths later_events current_digest
    ]
