-- ===== src/Evidence/Selection.antt =====
-- `selectEvidenceRequirements` of src/governance/evidence-selector.ts. The two records keyed by
-- gate are lists of pairs, in the order of `requiredGateIds`.
pub mod Laws
use cairn_memory.Base.{
  ℕ, Bool, true, false, not, ◌&&◌, ◌||◌, Option, none, some, List, [], ◌∷◌, ◌++◌, map, ltb, max,
  if◌then◌else◌, any, keep, flat_map,
}
use cairn_memory.Base.Text.{Text, codes, text_eq, text_lt, includes}
use cairn_memory.Base.Sorting.{sort_by}
use cairn_memory.Evidence.{
  MutationClass, unmutated, scoped, unknown, RuleInput, PathRule, MutationEvent,
}
use cairn_memory.Evidence.Glob.{normalize_pattern, path_matches_patterns}

pub record SelectionInput : Type 0 where
  pub rules : List RuleInput
  pub path_rules : List PathRule
  pub events : List MutationEvent

pub record Selection : Type 0 where
  pub applicable_rules : List RuleInput
  pub required_gate_ids : List Text
  pub relevant_paths_by_gate : List (Text × List Text)
  pub watermark_by_gate : List (Text × ℕ)
  pub changed_paths : List Text
  pub unknown_mutation : Bool

-- `[...new Set(texts)]`: the first of each.
unfoldable pub distinct : List Text → List Text
distinct [] = []
distinct (t ∷ ts) = t ∷ keep (λ s. not (text_eq s t)) (distinct ts)

abbrev pub sort_texts : List Text → List Text
sort_texts = sort_by text_lt

abbrev pub is_scoped : MutationClass → Bool
is_scoped scoped = true
is_scoped _ = false

abbrev pub is_unknown : MutationClass → Bool
is_unknown unknown = true
is_unknown _ = false

unfoldable pub changed_paths_of : List MutationEvent → List Text
unfolding distinct
changed_paths_of events = sort_texts (
    distinct (
      flat_map (λ event. map normalize_pattern event.affected_paths)
        (keep (λ (event : MutationEvent). is_scoped event.mutation_class) events)))

abbrev pub has_unknown : List MutationEvent → Bool
has_unknown events = any (λ (event : MutationEvent). is_unknown event.mutation_class) events

abbrev is_empty : List Text → Bool
is_empty [] = true
is_empty (t ∷ ts) = false

unfoldable pub is_applicable : Bool → List Text → RuleInput → Bool
is_applicable unknown_mutation changed rule =
    unknown_mutation
    || is_empty rule.paths
    || any (λ path. path_matches_patterns path rule.paths) changed

unfoldable pub is_selected : Bool → List Text → PathRule → Bool
is_selected unknown_mutation changed rule =
    if unknown_mutation
    then any (λ path. text_eq (normalize_pattern path) (codes "**")) rule.paths
    else any (λ path. path_matches_patterns path rule.paths) changed

unfoldable pub required_of : List PathRule → List RuleInput → List Text
unfolding distinct
required_of selected applicable = sort_texts (
    distinct (
      flat_map (λ (rule : PathRule). rule.require) selected
      ++ flat_map (λ (rule : RuleInput). rule.gate_ids) applicable))

abbrev or_all : List Text → List Text
or_all [] = codes "**" ∷ []
or_all (t ∷ ts) = t ∷ ts

unfoldable pub relevant_paths_of : List PathRule → List RuleInput → Text → List Text
unfolding distinct
relevant_paths_of path_rules applicable gate_id = sort_texts (
    distinct (
      or_all (
        flat_map (λ (rule : PathRule). map normalize_pattern rule.paths)
          (keep (λ (rule : PathRule). includes gate_id rule.require) path_rules)
        ++ flat_map (λ (rule : RuleInput). or_all (map normalize_pattern rule.paths))
            (keep (λ (rule : RuleInput). includes gate_id rule.gate_ids) applicable))))

-- `reduce((maximum, rule) => Math.max(...), 0)`.
unfoldable pub watermark_from : ℕ → List RuleInput → ℕ
watermark_from maximum [] = maximum
watermark_from maximum (rule ∷ rules) = watermark_from (max maximum rule.watermark_event_seq) rules

abbrev pub rule_before : RuleInput → RuleInput → Bool
rule_before left right =
    text_lt left.rule_id right.rule_id
    || (not (text_lt right.rule_id left.rule_id) && ltb left.revision right.revision)

unfoldable pub select_evidence_requirements : SelectionInput → Selection
unfolding changed_paths_of is_applicable is_selected required_of relevant_paths_of watermark_from
select_evidence_requirements input =
    let changed = changed_paths_of input.events in
    let unknown_mutation = has_unknown input.events in
    let applicable = keep (is_applicable unknown_mutation changed) input.rules in
    let selected = keep (is_selected unknown_mutation changed) input.path_rules in
    let required = required_of selected applicable in
    record {
      applicable_rules = sort_by rule_before applicable;
      required_gate_ids = required;
      relevant_paths_by_gate =
          map (λ gate. (gate, relevant_paths_of input.path_rules applicable gate)) required;
      watermark_by_gate = map (λ gate. (gate, watermark_from 0 applicable)) required;
      changed_paths = changed;
      unknown_mutation = unknown_mutation;
    }
