-- ===== src/Evidence.antt =====
-- src/governance/evidence-selector.ts: which evidence a Stop needs, which recorded run counts as
-- it, and how that run is classified. Its types come first, with those of verdict-types.ts,
-- types.ts and worktree-digest-shared.ts that it names.
pub mod Glob
pub mod Classify
pub mod Selection
use cairn_memory.Base.{ℕ, Bool, true, false, Option, List}
use cairn_memory.Base.Text.{Text}

pub data CaptureStatus : Type 0 where
  complete failed incomplete adapter_error : CaptureStatus

-- The source's `'none'` is `unmutated`.
pub data MutationClass : Type 0 where
  unmutated scoped unknown : MutationClass

pub data Parser : Type 0 where
  node_test exit_only : Parser

pub data GateEvidenceState : Type 0 where
  fresh_pass missing non_pass stale_mutation stale_digest self_error : GateEvidenceState

-- The `reason` of a classification.
pub data EvidenceReason : Type 0 where
  fresh no_eligible_run capture_incomplete recorded_non_pass : EvidenceReason
  unsupported_parser_version impossible_result_counts : EvidenceReason
  digest_version_requires_rerun digest_unavailable relevant_paths_mismatch : EvidenceReason
  later_unknown_mutation later_scoped_mutation worktree_digest_changed : EvidenceReason

-- A recorded count: a natural number, or a number that is negative, fractional or not finite.
pub data Count : Type 0 where
  nat : ℕ → Count
  other : Count

pub record RuleInput : Type 0 where
  pub rule_id : Text
  pub revision : ℕ
  pub gate_ids : List Text
  pub paths : List Text
  pub watermark_event_seq : ℕ

pub record PathRule : Type 0 where
  pub paths : List Text
  pub require : List Text

pub record MutationEvent : Type 0 where
  pub event_seq : ℕ
  pub mutation_seq : ℕ
  pub mutation_class : MutationClass
  pub affected_paths : List Text

pub record GateRun : Type 0 where
  pub gate_id : Text
  pub event_seq : ℕ
  pub mutation_seq : ℕ
  pub config_sha256 : Text
  pub parser_name : Text
  pub parser_version : ℕ
  pub test_total : Option Count
  pub test_pass : Option Count
  pub test_fail : Option Count
  pub test_skip : Option Count
  pub skip_reasons_complete : Option Bool
  pub worktree_digest : Option Text
  pub digest_version : Option ℕ
  pub relevant_paths_sha256 : Option Text
  pub capture_result : CaptureStatus

pub record Policy : Type 0 where
  pub parser : Parser
  pub max_skips : ℕ
  pub require_reasons : Bool

-- `complete` is `status === 'complete'`.
pub record WorktreeDigest : Type 0 where
  pub is_complete : Bool
  pub digest : Option Text
  pub version : ℕ
  pub relevant_paths_sha256 : Text
  pub reason : Option Text

pub record Classified : Type 0 where
  pub state : GateEvidenceState
  pub reason : EvidenceReason
  pub evidence_event_seq : Option ℕ
  pub invalidating_event_seq : Option ℕ
