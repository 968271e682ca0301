-- ===== src/ResultParser.antt =====
-- src/governance/result-parser.ts: what a gate's output says of its tests. The multi-line regular
-- expressions are tried at each start of a line; a match holds no other start of one, so every
-- one that matches is found. The hash is a parameter, and texts are read on code units.
pub mod Summary
pub mod Laws
use cairn_memory.Base.{
  ◌>>=◌, ℕ, zero, suc, ◌+◌, ◌-◌, ◌*◌, Bool, true, false, not, ◌&&◌, ◌||◌, Option, none, some, List,
  [], ◌∷◌, ◌++◌, ltb, leb, ◌==◌, if◌then◌else◌, any, all, drop, length, head?, or_else, is_some,
  map_option,
}
use cairn_memory.Base.Text.{Text, codes, text_eq}
use cairn_memory.Evidence.{
  CaptureStatus, complete, failed, incomplete, Parser, node_test, exit_only,
}
use cairn_memory.Evidence.Classify.{max_safe_integer, parser_version_of}
use cairn_memory.Paths.{split_on}
use cairn_memory.Validation.{is_space}

pub data ToolOutcome : Type 0 where
  success failure unknown_failure : ToolOutcome

pub data GateKind : Type 0 where
  test command : GateKind

pub record SkipPolicy : Type 0 where
  pub max : ℕ
  pub require_reasons : Bool

-- The fields of the options and of the observation; an exit code is zero or another number.
pub record ParseOptions : Type 0 where
  pub parser : Parser
  pub gate_kind : Option GateKind
  pub skips : Option SkipPolicy

pub data ExitCode : Type 0 where
  exit_zero exit_other : ExitCode

pub record ResultObservation : Type 0 where
  pub outcome : ToolOutcome
  pub exit_code : Option ExitCode
  pub signal : Option Text
  pub interrupted : Bool
  pub timed_out : Bool
  pub output_sha256 : Text
  pub output_text : Text

pub data ResultReason : Type 0 where
  output_digest_mismatch timed_out interrupted signaled unknown_status : ResultReason
  failure_event nonzero_exit exit_only_not_test_evidence malformed_test_counts : ResultReason
  zero_tests missing_test_summary tap_plan_mismatch reported_test_failures : ResultReason
  skip_ceiling_exceeded skip_reasons_missing : ResultReason

pub record Counts : Type 0 where
  pub total : Option ℕ
  pub passed : Option ℕ
  pub failed : Option ℕ
  pub skipped : Option ℕ
  pub skip_reasons_complete : Option Bool

pub record ParsedGateResult : Type 0 where
  pub parser_name : Parser
  pub parser_version : ℕ
  pub capture_result : CaptureStatus
  pub reason : Option ResultReason
  pub output_sha256 : Text
  pub counts : Counts

pub data SummaryKind : Type 0 where
  whole partial zero_kind : SummaryKind

pub record NodeSummary : Type 0 where
  pub kind : SummaryKind
  pub reason : Option ResultReason
  pub counts : Counts

-- What the lines of a label say: a number, one that is not safe (null), none, or several.
pub data LineCount : Type 0 where
  counted : ℕ → LineCount
  unsafe missing conflict : LineCount

abbrev pub no_counts : Counts
no_counts = record {
  total = none;
  passed = none;
  failed = none;
  skipped = none;
  skip_reasons_complete = none;
}

unfoldable pub base_result :
    ParseOptions → ResultObservation → CaptureStatus → Option ResultReason → ParsedGateResult
base_result options observation capture_result reason = record {
  parser_name = options.parser;
  parser_version = parser_version_of options.parser;
  capture_result = capture_result;
  reason = reason;
  output_sha256 = observation.output_sha256;
  counts = no_counts;
}

abbrev pub is_unknown_failure : ToolOutcome → Bool
is_unknown_failure unknown_failure = true
is_unknown_failure _ = false

abbrev pub is_failure : ToolOutcome → Bool
is_failure failure = true
is_failure _ = false

abbrev pub is_nonzero : Option ExitCode → Bool
is_nonzero (some exit_other) = true
is_nonzero _ = false

unfoldable pub result_failure_reason : ResultObservation → Option ResultReason
result_failure_reason observation =
    if observation.timed_out
    then some timed_out
    else if observation.interrupted
    then some interrupted
    else if is_some observation.signal
    then some signaled
    else if is_unknown_failure observation.outcome || not (is_some observation.exit_code)
    then some unknown_status
    else if is_failure observation.outcome
    then some failure_event
    else if is_nonzero observation.exit_code
    then some nonzero_exit
    else none

abbrev pub is_digit : ℕ → Bool
is_digit c = leb 48 c && leb c 57

abbrev pub is_line_end : ℕ → Bool
is_line_end c = c == 10 || c == 13 || c == 8232 || c == 8233

-- The text without the characters at its start that pass.
unfoldable pub skip_while : (ℕ → Bool) → Text → Text
skip_while p [] = []
skip_while p (c ∷ cs) = let rest = skip_while p cs in if p c then rest else c ∷ cs

-- The characters at its start that pass.
unfoldable pub take_while : (ℕ → Bool) → Text → Text
take_while p [] = []
take_while p (c ∷ cs) = let rest = take_while p cs in if p c then c ∷ rest else []

abbrev pub digits_from : ℕ → Text → ℕ
digits_from n [] = n
digits_from n (c ∷ cs) = digits_from (n * 10 + (c - 48)) cs

unfoldable pub safe_count : Text → LineCount
safe_count digits =
    let n = digits_from 0 digits in if leb n max_safe_integer then counted n else unsafe

-- `\s*$`: the white space ends the text or holds the end of a line.
unfoldable pub at_end : Text → Bool
unfolding skip_while take_while
at_end text = text_eq (skip_while is_space text) [] || any is_line_end (take_while is_space text)

-- The text after a prefix.
unfoldable pub after_prefix : Text → Text → Option Text
after_prefix [] text = some text
after_prefix (p ∷ prefix) [] = none
after_prefix (p ∷ prefix) (c ∷ cs) =
    let rest = after_prefix prefix cs in if c == p then rest else none

abbrev pub starts_spaced : Text → Bool
starts_spaced [] = false
starts_spaced (c ∷ cs) = is_space c

-- The digits at the start, if there are any and what follows them passes.
unfoldable pub number_before : (Text → Bool) → Text → Option LineCount
unfolding skip_while take_while safe_count
number_before ends text =
    let digits = take_while is_digit text in
    if ltb 0 (length digits) && ends (skip_while is_digit text)
    then some (safe_count digits)
    else none

-- `\s+(\d+)\s*$`.
unfoldable pub spaced_number : Text → Option LineCount
unfolding number_before skip_while at_end
spaced_number text =
    if starts_spaced text then number_before at_end (skip_while is_space text) else none

-- `^(?:ℹ|#)\s*label\s+(\d+)\s*$` from here.
unfoldable pub label_at : Text → Text → Option LineCount
unfolding spaced_number skip_while after_prefix
label_at label [] = none
label_at label (c ∷ cs) =
    if c == 8505 || c == b'#'
    then after_prefix label (skip_while is_space cs) >>= spaced_number
    else none

-- `(?:\s+#.*)?\s*$`.
unfoldable pub plan_end : Text → Bool
unfolding skip_while at_end
plan_end text =
    (starts_spaced text && is_some (after_prefix (codes "#") (skip_while is_space text)))
    || at_end text

-- `^1\.\.(\d+)(?:\s+#.*)?\s*$` from here.
unfoldable pub plan_at : Text → Option LineCount
unfolding number_before plan_end after_prefix
plan_at text = after_prefix (codes "1..") text >>= number_before plan_end

abbrev pub prepend : Option LineCount → List LineCount → List LineCount
prepend none later = later
prepend (some found) later = found ∷ later

-- The matches at the starts of lines; the flag says that one is here.
unfoldable pub line_matches : (Text → Option LineCount) → Bool → Text → List LineCount
line_matches match_at starts [] = []
line_matches match_at starts (c ∷ cs) =
    prepend (if starts then match_at (c ∷ cs) else none) (line_matches match_at (is_line_end c) cs)

abbrev pub is_unsafe : LineCount → Bool
is_unsafe unsafe = true
is_unsafe _ = false

abbrev pub same_count : LineCount → LineCount → Bool
same_count (counted n) (counted m) = n == m
same_count _ _ = false

-- The null test, then whether the values are one.
unfoldable pub one_count : List LineCount → LineCount
one_count [] = missing
one_count (value ∷ values) =
    if any is_unsafe (value ∷ values)
    then unsafe
    else if all (same_count value) values
    then value
    else conflict

unfoldable pub unique_line_count : Text → Text → LineCount
unfolding line_matches label_at one_count
unique_line_count output label = one_count (line_matches (label_at label) true output)

unfoldable pub tap_plan : Text → LineCount
unfolding line_matches plan_at one_count
tap_plan output = one_count (line_matches plan_at true output)
