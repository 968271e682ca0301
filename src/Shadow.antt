-- ===== src/Shadow.antt =====
-- src/governance/shadow-evaluator.ts with its support and runtime files: one evaluation of a Stop
-- over a snapshot of the store. A deadline check is the argument `late`, which says for a stage,
-- and the gate where it stands in the loop, whether the time is over; the capture of a digest is
-- a function of the paths, as the attempt's cache makes it.
pub mod Attempt
pub mod Stop
use cairn_memory.Base.{
  ℕ, Bool, true, false, not, ◌&&◌, ◌||◌, Option, none, some, List, [], ◌∷◌, ◌++◌, map, ◌==◌,
  if◌then◌else◌, any, all, keep, find, head?, or_else, ltb,
}
use cairn_memory.Base.Text.{Text, text_eq, codes}
use cairn_memory.Base.Sorting.{sort_by}
use cairn_memory.Evidence.{
  GateEvidenceState, EvidenceReason, PathRule, RuleInput, MutationEvent, GateRun, Policy,
  WorktreeDigest, Classified, CaptureStatus,
}
use cairn_memory.Evidence.Classify.{worktree_digest_v2_version}
use cairn_memory.Evidence.Selection.{SelectionInput, Selection, select_evidence_requirements}
use cairn_memory.Verdict.{
  FaultCode, Intent, advise, warn, block, deadline_exceeded, digest_race, digest_bound_exceeded,
  unsupported_digest_version, is_self_error,
}
use cairn_memory.Capability.{CapabilityRow}

pub data Stage : Type 0 where
  selecting digesting classifying checking_capability resolving_precedence : Stage

pub record Sequence : Type 0 where
  pub event_seq : ℕ
  pub mutation_seq : ℕ

pub record ShadowRule : Type 0 where
  pub memory_id : Text
  pub rule_id : Text
  pub revision : ℕ
  pub level : Intent
  pub gate_ids : List Text
  pub paths : List Text
  pub watermark : Option Sequence

pub record Snapshot : Type 0 where
  pub sequence : Sequence
  pub rules : List ShadowRule
  pub events : List MutationEvent
  pub gate_runs : List GateRun
  pub capability : Option CapabilityRow

-- The fields of a loaded configuration that the evaluation reads.
pub record GateConfig : Type 0 where
  pub sha256 : Text
  pub default_level : Intent
  pub path_rules : List PathRule
  pub gates : List (Text × Policy)

-- A value, or the fault of the `ShadowEvaluationError` that is thrown.
pub data Outcome (A : Type 0) : Type 0 where
  failed : FaultCode → Outcome A
  resolved : A → Outcome A

-- A record's entry for a key.
unfoldable pub lookup : {A : Type 0} → Text → List (Text × A) → Option A
lookup key [] = none
lookup key ((k, a) ∷ entries) =
    let rest = lookup key entries in if text_eq k key then some a else rest

unfoldable pub starts_with : Text → Text → Bool
starts_with [] text = true
starts_with (c ∷ cs) [] = false
starts_with (c ∷ cs) (d ∷ ds) = c == d && starts_with cs ds

-- `text.includes(part)`.
unfoldable pub contains : Text → Text → Bool
unfolding starts_with
contains part [] = starts_with part []
contains part (d ∷ ds) = starts_with part (d ∷ ds) || contains part ds

unfoldable pub incomplete_fault : Text → FaultCode
incomplete_fault reason =
    if contains (codes "deadline exceeded") reason
    then deadline_exceeded
    else if contains (codes "changed during both") reason
    then digest_race
    else if contains (codes "bound") reason || contains (codes "exceeds") reason
    then digest_bound_exceeded
    else FaultCode.digest_unavailable

unfoldable pub digest_fault : WorktreeDigest → Option FaultCode
unfolding incomplete_fault
digest_fault digest =
    if digest.is_complete
    then (if digest.version == worktree_digest_v2_version
        then none
        else some unsupported_digest_version)
    else some (incomplete_fault (or_else digest.reason []))

abbrev event_seq_or_zero : Option Sequence → ℕ
event_seq_or_zero none = 0
event_seq_or_zero (some sequence) = sequence.event_seq

unfoldable pub select_shadow_requirements : Snapshot → List PathRule → Selection
select_shadow_requirements snapshot path_rules = select_evidence_requirements (record {
  rules =
      map
        (λ (rule : ShadowRule). record {
          rule_id = rule.rule_id;
          revision = rule.revision;
          gate_ids = rule.gate_ids;
          paths = rule.paths;
          watermark_event_seq = event_seq_or_zero rule.watermark;
        })
        snapshot.rules;
  path_rules = path_rules;
  events = snapshot.events;
})

abbrev pub intent_order : Intent → ℕ
intent_order advise = 0
intent_order warn = 1
intent_order block = 2

-- Whether the rule is among the selection's, by its id and revision.
abbrev pub is_among : List RuleInput → ShadowRule → Bool
is_among applicable rule =
    any (λ (r : RuleInput). text_eq r.rule_id rule.rule_id && r.revision == rule.revision)
      applicable

unfoldable pub strictest_first : Intent → Intent → Bool
strictest_first left right = ltb (intent_order right) (intent_order left)

unfoldable pub resolve_shadow_intent : Snapshot → List RuleInput → Intent → Intent
resolve_shadow_intent snapshot [] default = default
resolve_shadow_intent snapshot (r ∷ applicable) default =
    or_else
      (head? (
        sort_by strictest_first
          (map ShadowRule.level (keep (is_among (r ∷ applicable)) snapshot.rules))))
      default

pub record AuditGate : Type 0 where
  pub gate_id : Text
  pub state : GateEvidenceState
  pub reason : EvidenceReason
  pub evidence_event_seq : Option ℕ
  pub run : Option GateRun

-- The run's own columns are read from `run`.
unfoldable pub audit_gate : Text → Classified → Option GateRun → AuditGate
audit_gate gate_id classified run = record {
  gate_id = gate_id;
  state = classified.state;
  reason = classified.reason;
  evidence_event_seq = classified.evidence_event_seq;
  run = run;
}

-- The fault code that has the reason's name, if there is one.
unfoldable pub fault_of_reason : EvidenceReason → Option FaultCode
fault_of_reason EvidenceReason.unsupported_parser_version =
    some FaultCode.unsupported_parser_version
fault_of_reason EvidenceReason.impossible_result_counts = some FaultCode.impossible_result_counts
fault_of_reason EvidenceReason.digest_unavailable = some FaultCode.digest_unavailable
fault_of_reason _ = none

unfoldable pub classified_fault : List AuditGate → Option FaultCode
unfolding fault_of_reason
classified_fault [] = none
classified_fault (gate ∷ gates) =
    let rest = classified_fault gates in
    let named = fault_of_reason gate.reason in
    if is_self_error gate.state then first_fault named rest else rest
  where
    first_fault : Option FaultCode → Option FaultCode → Option FaultCode
    first_fault none rest = rest
    first_fault (some code) rest = some code
