-- ===== src/ResultParser/Laws.antt =====
-- The counts that lines give.
pub mod Fit
use cairn_memory.Validation.{is_space}
use cairn_memory.Base.{
  ◌>>=◌, ℕ, zero, suc, ◌+◌, ◌≤◌, ◌≡◌, ◌⊎◌, refl, sym, ap, ◌∙◌, subst, inl, inr, Bool, true, false,
  not, ◌&&◌, ◌||◌, Option, none, some, List, [], ◌∷◌, ltb, leb, ◌==◌, if◌then◌else◌, any, all, All,
  length, is_some, or_else, map_option, arith, Bool-cases, Option-cases, and-eq-true, or-eq-false,
}
use cairn_memory.Base.Text.{Text, codes, text_eq, text_eq_refl}
use cairn_memory.Evidence.{
  CaptureStatus, complete, failed, incomplete, adapter_error, Parser, node_test, exit_only, GateRun,
  Policy, Count, nat, Classified, non_pass, recorded_non_pass, capture_incomplete, WorktreeDigest,
}
use cairn_memory.Evidence.Classify.Passing.{NodePass}
use cairn_memory.Evidence.Classify.{
  max_safe_integer, parser_version_of, parser_text, parser_state, capture_state, result_state,
  node_test_state, exit_only_state, counts_state, valid_count, verdict_of, is_true,
}
use cairn_memory.ResultParser.{
  GateKind, test, command, SkipPolicy, ParseOptions, ResultObservation, ResultReason, Counts,
  ParsedGateResult, SummaryKind, whole, partial, zero_kind, NodeSummary, LineCount, counted, unsafe,
  missing, conflict, malformed_test_counts, tap_plan_mismatch, missing_test_summary, no_counts,
  base_result, result_failure_reason, safe_count, digits_from, spaced_number, prepend,
  number_before, label_at, plan_at, line_matches, one_count, unique_line_count, tap_plan,
  take_while, skip_while, is_digit, after_prefix, starts_spaced, at_end, plan_end, is_line_end,
  is_unsafe, same_count,
}
use cairn_memory.ResultParser.Summary.{
  whole_summary, count_summary, total_summary, parse_node_summary, parse_output, parse_gate_result,
  capture_of, partial_summary, zero_summary, is_zero, is_malformed, plan_differs, skip_reason_count,
  normal_lines,
}

abbrev pub IsSafe : LineCount → Type 0
IsSafe (counted n) = leb n max_safe_integer ≡ true
IsSafe _ = Unit

abbrev pub IsSafe? : Option LineCount → Type 0
IsSafe? none = Unit
IsSafe? (some c) = IsSafe c

if-IsSafe? : (b : Bool) (o : Option LineCount) → IsSafe? o → IsSafe? (if b then o else none)
if-IsSafe? true o h = h
if-IsSafe? false o h = tt

bind-IsSafe? :
    {A : Type 0} (o : Option A) (f : A → Option LineCount)
    → ((a : A) → IsSafe? (f a))
    → IsSafe? (o >>= f)
bind-IsSafe? none f h = tt
bind-IsSafe? (some a) f h = h a

safe_count-IsSafe : (digits : Text) → IsSafe (safe_count digits)
unfolding safe_count
safe_count-IsSafe digits = elim (Bool-cases (leb (digits_from 0 digits) max_safe_integer)) [
  | inl e ↦ rw e e
  | inr e ↦ rw e tt
]

number_before-IsSafe : (ends : Text → Bool) (text : Text) → IsSafe? (number_before ends text)
unfolding number_before
number_before-IsSafe ends text =
    if-IsSafe? (ltb 0 (length (take_while is_digit text)) && ends (skip_while is_digit text))
      (some (safe_count (take_while is_digit text))) (safe_count-IsSafe (take_while is_digit text))

spaced_number-IsSafe : (text : Text) → IsSafe? (spaced_number text)
unfolding spaced_number
spaced_number-IsSafe text =
    if-IsSafe? (starts_spaced text) _ (number_before-IsSafe at_end (skip_while is_space text))

label_at-IsSafe : (label text : Text) → IsSafe? (label_at label text)
unfolding label_at
label_at-IsSafe label [] = tt
label_at-IsSafe label (c ∷ cs) =
    if-IsSafe? (c == 8505 || c == 35) _ (
      bind-IsSafe? (after_prefix label (skip_while is_space cs)) spaced_number spaced_number-IsSafe)

prepend-IsSafe :
    (o : Option LineCount) (later : List LineCount)
    → IsSafe? o
    → All IsSafe later
    → All IsSafe (prepend o later)
prepend-IsSafe none later h k = k
prepend-IsSafe (some found) later h k = (h, k)

line_matches-IsSafe :
    (match_at : Text → Option LineCount)
    → ((text : Text) → IsSafe? (match_at text))
    → (starts : Bool) (text : Text) → All IsSafe (line_matches match_at starts text)
unfolding line_matches
line_matches-IsSafe match_at h starts [] = tt
line_matches-IsSafe match_at h starts (c ∷ cs) =
    prepend-IsSafe _ _ (if-IsSafe? starts (match_at (c ∷ cs)) (h (c ∷ cs)))
      (line_matches-IsSafe match_at h (is_line_end c) cs)

one_count-IsSafe : (values : List LineCount) → All IsSafe values → IsSafe (one_count values)
unfolding one_count
one_count-IsSafe [] h = tt
one_count-IsSafe (v ∷ vs) h = elim (Bool-cases (any is_unsafe (v ∷ vs))) [
  | inl e ↦ rw e tt
  | inr e ↦ elim (Bool-cases (all (same_count v) vs)) [
    | inl f ↦ rw (e, f) h.0
    | inr f ↦ rw (e, f) tt
  ]
]

pub unique_line_count-IsSafe : (output label : Text) → IsSafe (unique_line_count output label)
unfolding unique_line_count
unique_line_count-IsSafe output label =
    one_count-IsSafe _ (line_matches-IsSafe (label_at label) (label_at-IsSafe label) true output)
