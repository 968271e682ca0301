-- ===== src/ResultParser/Summary.antt =====
-- src/governance/result-parser.ts: the summary of a node-test output and the parsed result.
use cairn_memory.Base.{
  ℕ, ◌+◌, Bool, true, false, not, ◌&&◌, ◌||◌, Option, none, some, [], ◌∷◌, ltb, leb, ◌==◌,
  if◌then◌else◌, any, count_if, or_else,
}
use cairn_memory.Base.Text.{Text, codes, text_eq}
use cairn_memory.Evidence.{
  CaptureStatus, complete, failed, incomplete, Parser, node_test, exit_only,
}
use cairn_memory.Paths.{split_on}
use cairn_memory.Validation.{is_space}
use cairn_memory.ResultParser.{
  GateKind, test, command, SkipPolicy, ParseOptions, ResultObservation, ResultReason,
  output_digest_mismatch, exit_only_not_test_evidence, malformed_test_counts, zero_tests,
  missing_test_summary, tap_plan_mismatch, reported_test_failures, skip_ceiling_exceeded,
  skip_reasons_missing, ParsedGateResult, SummaryKind, whole, partial, zero_kind, NodeSummary,
  LineCount, counted, unsafe, conflict, no_counts, base_result, result_failure_reason, is_line_end,
  skip_while, after_prefix, unique_line_count, tap_plan,
}

abbrev is_blank : ℕ → Bool
is_blank c = c == 32 || c == 9

-- The text without the blanks at its end.
unfoldable pub trim_blanks : Text → Text
trim_blanks [] = []
trim_blanks (c ∷ cs) =
    let rest = trim_blanks cs in if text_eq rest [] && is_blank c then [] else c ∷ rest

abbrev ends_unspaced : Text → Bool
ends_unspaced [] = false
ends_unspaced (c ∷ []) = not (is_space c)
ends_unspaced (c ∷ d ∷ cs) = ends_unspaced (d ∷ cs)

-- Two code points at least: a surrogate pair is one.
abbrev has_two_points : Text → Bool
has_two_points [] = false
has_two_points (c ∷ []) = false
has_two_points (c ∷ d ∷ []) = not (leb 55296 c && leb c 56319 && leb 56320 d && leb d 57343)
has_two_points (c ∷ d ∷ e ∷ cs) = true

-- `(.+\S)[ \t]*$`.
unfoldable pub is_reason : Text → Bool
unfolding trim_blanks
is_reason text =
    let body = trim_blanks text in
    has_two_points body && ends_unspaced body && not (any is_line_end body)

-- The letters of SKIP in any case, with the two signs that fold to them.
abbrev skip_letter : ℕ → ℕ → Bool
skip_letter letter c =
    c == letter || c == letter + 32 || (letter == b'S' && c == 383) || (letter == b'K' && c == 8490)

abbrev after_letters : Text → Text → Option Text
after_letters [] text = some text
after_letters (l ∷ letters) [] = none
after_letters (l ∷ letters) (c ∷ cs) =
    let rest = after_letters letters cs in if skip_letter l c then rest else none

-- What follows SKIP: a reason, blanks alone, or no match.
unfoldable pub skip_tail : Text → Option Bool
unfolding is_reason trim_blanks
skip_tail [] = some false
skip_tail (c ∷ cs) =
    if is_blank c && is_reason cs
    then some true
    else if text_eq (trim_blanks (c ∷ cs)) []
    then some false
    else none

-- `/#[ \t]*SKIP(?:[ \t]+(.+\S))?[ \t]*$/iu` from here: whether it has a reason.
unfoldable pub skip_at : Text → Option Bool
unfolding skip_tail skip_while
skip_at [] = none
skip_at (c ∷ cs) =
    if c == b'#'
    then elim (after_letters (codes "SKIP") (skip_while is_blank cs)) [
      | none ↦ none
      | some rest ↦ skip_tail rest
    ]
    else none

unfoldable pub tap_skip : Text → Option Bool
unfolding skip_at
tap_skip [] = none
tap_skip (c ∷ cs) =
    let later = tap_skip cs in elim (skip_at (c ∷ cs)) [ none ↦ later | some reason ↦ some reason ]

-- `.*?#[ \t]*(.+\S)[ \t]*$`.
unfoldable pub hash_reason : Text → Bool
unfolding is_reason
hash_reason [] = false
hash_reason (c ∷ cs) = (c == b'#' && is_reason cs) || (not (is_line_end c) && hash_reason cs)

abbrev starts_blank : Text → Bool
starts_blank [] = false
starts_blank (c ∷ cs) = is_blank c

-- `/^[ \t]*﹣[ \t]+.*?#[ \t]*(.+\S)[ \t]*$/u`.
unfoldable pub spec_reason : Text → Bool
unfolding hash_reason skip_while after_prefix
spec_reason line = elim (after_prefix (65123 ∷ []) (skip_while is_blank line)) [
  | none ↦ false
  | some rest ↦ starts_blank rest && hash_reason rest
]

unfoldable pub line_has_reason : Text → Bool
unfolding tap_skip spec_reason
line_has_reason line = elim (tap_skip line) [ some reason ↦ reason | none ↦ spec_reason line ]

unfoldable pub skip_reason_count : Text → ℕ
unfolding line_has_reason split_on
skip_reason_count output = count_if line_has_reason (split_on 10 output)

-- The two replacements of line ends.
unfoldable pub normal_lines : Text → Text
normal_lines [] = []
normal_lines (c ∷ []) = (if c == 13 then 10 else c) ∷ []
normal_lines (c ∷ d ∷ cs) =
    let rest = normal_lines (d ∷ cs) in
    if c == 13 then (if d == 10 then rest else 10 ∷ rest) else c ∷ rest

abbrev pub partial_summary : ResultReason → Option ℕ → NodeSummary
partial_summary reason total = record {
  kind = partial;
  reason = some reason;
  counts = record no_counts { total = total };
}

abbrev pub zero_summary : NodeSummary
zero_summary = record {
  kind = zero_kind;
  reason = some zero_tests;
  counts = record {
    total = some 0;
    passed = some 0;
    failed = some 0;
    skipped = some 0;
    skip_reasons_complete = some true;
  };
}

abbrev pub is_zero : LineCount → Bool
is_zero (counted n) = n == 0
is_zero _ = false

abbrev pub is_malformed : LineCount → Bool
is_malformed unsafe = true
is_malformed conflict = true
is_malformed _ = false

abbrev pub plan_differs : LineCount → ℕ → Bool
plan_differs (counted n) total = not (n == total)
plan_differs _ total = false

-- The whole summary, with what it is refused for.
unfoldable pub whole_summary : SkipPolicy → Bool → ℕ → ℕ → ℕ → ℕ → NodeSummary
whole_summary policy reasons_complete total passed fails skipped = record {
  kind = whole;
  reason =
      if ltb 0 fails
      then some reported_test_failures
      else if ltb policy.max skipped
      then some skip_ceiling_exceeded
      else if policy.require_reasons && not reasons_complete
      then some skip_reasons_missing
      else none;
  counts = record {
    total = some total;
    passed = some passed;
    failed = some fails;
    skipped = some skipped;
    skip_reasons_complete = some reasons_complete;
  };
}

unfoldable pub count_summary :
    Text → SkipPolicy → ℕ → LineCount → LineCount → LineCount → NodeSummary
unfolding whole_summary skip_reason_count
count_summary output policy total (counted passed) (counted fails) (counted skipped) =
    if ltb total passed
      || ltb total fails
      || ltb total skipped
      || ltb total (passed + fails + skipped)
    then partial_summary malformed_test_counts (some total)
    else whole_summary policy (skipped == 0 || leb skipped (skip_reason_count output)) total passed
        fails skipped
count_summary output policy total _ _ _ = partial_summary malformed_test_counts (some total)

-- From the total on, once the plan and the total are no conflict and not zero.
unfoldable pub total_summary : Text → SkipPolicy → LineCount → LineCount → NodeSummary
unfolding count_summary unique_line_count
total_summary output policy plan (counted total) =
    if plan_differs plan total
    then partial_summary tap_plan_mismatch (some total)
    else count_summary output policy total (unique_line_count output (codes "pass"))
        (unique_line_count output (codes "fail")) (unique_line_count output (codes "skipped"))
total_summary output policy plan _ = partial_summary missing_test_summary none

unfoldable pub parse_node_summary : Text → SkipPolicy → NodeSummary
unfolding normal_lines tap_plan unique_line_count total_summary
parse_node_summary output_text policy =
    let output = normal_lines output_text in
    let plan = tap_plan output in
    let total = unique_line_count output (codes "tests") in
    if is_malformed plan || is_malformed total
    then partial_summary malformed_test_counts none
    else if is_zero plan || is_zero total
    then zero_summary
    else total_summary output policy plan total

abbrev pub capture_of : SummaryKind → Option ResultReason → CaptureStatus
capture_of partial reason = incomplete
capture_of whole none = complete
capture_of whole (some reason) = failed
capture_of zero_kind none = complete
capture_of zero_kind (some reason) = failed

abbrev pub no_skips : SkipPolicy
no_skips = record { max = 0; require_reasons = false }

abbrev pub default_kind : Parser → GateKind
default_kind node_test = test
default_kind exit_only = command

abbrev pub is_test : GateKind → Bool
is_test test = true
is_test command = false

-- The result once the transport is known to have worked.
unfoldable pub parse_output : Parser → ResultObservation → ParseOptions → ParsedGateResult
unfolding base_result parse_node_summary
parse_output exit_only observation options =
    if is_test (or_else options.gate_kind (default_kind options.parser))
    then base_result options observation failed (some exit_only_not_test_evidence)
    else base_result options observation complete none
parse_output node_test observation options =
    let summary = parse_node_summary observation.output_text (or_else options.skips no_skips) in
    record (base_result options observation (capture_of summary.kind summary.reason)
      summary.reason) { counts = summary.counts }

unfoldable pub parse_gate_result :
    (Text → Text) → ResultObservation → ParseOptions → ParsedGateResult
unfolding base_result result_failure_reason parse_output
parse_gate_result sha256 observation options =
    if not (text_eq (sha256 observation.output_text) observation.output_sha256)
    then base_result options observation incomplete (some output_digest_mismatch)
    else elim (result_failure_reason observation) [
      | some reason ↦ base_result options observation failed (some reason)
      | none ↦ parse_output options.parser observation options
    ]
