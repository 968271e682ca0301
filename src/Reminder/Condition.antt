-- ===== src/Reminder/Condition.antt =====
-- src/utils/condition-evaluator.ts: the conditions of reminders. The names that are compared are
-- ASCII, so `toLowerCase` and `toUpperCase` are kept for the characters that they map to ASCII.
-- `Number` is a parameter: its number where that is a natural one. `none` is a thrown error.
pub mod Laws
pub mod Meaning
use cairn_memory.Base.{
  map_option, ◌>>=◌, ℕ, zero, suc, ◌+◌, ◌-◌, ◌*◌, Bool, true, false, not, ◌&&◌, ◌||◌, Option, none,
  some, List, [], ◌∷◌, ◌++◌, ltb, leb, ◌==◌, if◌then◌else◌, any, all, drop, take, length, map, find,
  or_else,
}
use cairn_memory.Base.Text.{Text, codes, text_eq}
use cairn_memory.Plan.{StepStatus, is_done, is_in_progress}
use cairn_memory.Validation.{is_space, trim}

-- What the evaluators read of the context.
pub record ConditionContext : Type 0 where
  pub branch : Option Text
  pub tool_name : Option Text
  pub file_path : Option Text
  pub tool_success : Option Bool
  pub tests_pass : Bool
  pub has_recent_errors : Bool
  pub error_count : ℕ
  pub session_type : Option Text
  pub context_mode : Text
  pub plan_active : Bool
  pub plan_complete : Bool
  pub step_statuses : List (ℕ × Text)

abbrev pub max_condition_chars : ℕ
max_condition_chars = 200

-- `toLowerCase` as far as it can give an ASCII name: besides the letters A to Z, only the Kelvin
-- sign becomes an ASCII letter by itself.
unfoldable pub lower : Text → Text
lower text = map (λ c. if leb 65 c && leb c 90 then c + 32 else if c == 8490 then b'k' else c) text

unfoldable pub upper : Text → Text
upper text = map (λ c. if leb 97 c && leb c 122 then c - 32 else c) text

-- The regular expression of a pattern with a star: `?` is not escaped, so it makes the character
-- before it optional, or lazy what already is optional.
pub data GlobPart : Type 0 where
  one : ℕ → GlobPart
  maybe : ℕ → GlobPart
  anything : GlobPart

-- How many question marks follow, up to three.
unfoldable pub question_marks : Text → ℕ
question_marks [] = 0
question_marks (c ∷ cs) = let more = question_marks cs in if c == b'?' then suc more else 0

unfoldable pub glob_part : ℕ → ℕ → Option GlobPart
glob_part c marks =
    if c == b'*'
    then (if leb marks 1 then some anything else none)
    else if marks == 0
    then some (one c)
    else if leb marks 2
    then some (maybe c)
    else none

-- The parts from here on, past the question marks that a part has read; `none` where the regular
-- expression is malformed.
unfoldable pub glob_parts : ℕ → Text → Option (List GlobPart)
unfolding question_marks glob_part
glob_parts skip [] = some []
glob_parts (suc skip) (c ∷ cs) = glob_parts skip cs
glob_parts zero (c ∷ cs) =
    let marks = question_marks cs in
    do
      part ← if c == b'?' then none else glob_part c marks
      parts ← glob_parts marks cs
      some (part ∷ parts)

-- What `.` does not match.
abbrev pub is_line_end : ℕ → Bool
is_line_end c = c == 10 || c == 13 || c == 8232 || c == 8233

unfoldable pub glob_matches : List GlobPart → Text → Bool
glob_matches [] [] = true
glob_matches [] (c ∷ cs) = false
glob_matches (one p ∷ parts) [] = false
glob_matches (one p ∷ parts) (c ∷ cs) = p == c && glob_matches parts cs
glob_matches (maybe p ∷ parts) [] = glob_matches parts []
glob_matches (maybe p ∷ parts) (c ∷ cs) =
    glob_matches parts (c ∷ cs) || (p == c && glob_matches parts cs)
glob_matches (anything ∷ parts) [] = glob_matches parts []
glob_matches (anything ∷ parts) (c ∷ cs) =
    glob_matches parts (c ∷ cs) || (not (is_line_end c) && glob_matches (anything ∷ parts) cs)

-- `input.endsWith(pattern)`, which the two tests before it imply.
unfoldable pub ends_with : Text → Text → Bool
ends_with pattern text =
    leb (length pattern) (length text) && text_eq (drop (length text - length pattern) text) pattern

unfoldable pub match_glob_text : Text → Text → Option Bool
unfolding glob_parts glob_matches ends_with
match_glob_text [] pattern = some false
match_glob_text (c ∷ cs) pattern =
    if any (λ d. d == b'*') pattern
    then (do parts ← glob_parts 0 pattern; some (glob_matches parts (c ∷ cs)))
    else some (ends_with pattern (c ∷ cs))

unfoldable pub match_glob : Option Text → Text → Option Bool
unfolding match_glob_text
match_glob input pattern = match_glob_text (or_else input []) pattern

abbrev is_digit : ℕ → Bool
is_digit c = leb 48 c && leb c 57

abbrev digits_from : ℕ → Text → ℕ
digits_from n [] = n
digits_from n (c ∷ cs) = digits_from (n * 10 + (c - 48)) cs

-- The operator of an `error_count` and what follows it: `>=` and `>` compare alike.
unfoldable pub count_operator : Text → Bool × Text
count_operator text =
    if text_eq (take 2 text) (codes ">=")
    then (true, drop 2 text)
    else if text_eq (take 1 text) (codes ">")
    then (true, drop 1 text)
    else if text_eq (take 2 text) (codes "==")
    then (false, drop 2 text)
    else if text_eq (take 1 text) (codes "=")
    then (false, drop 1 text)
    else (true, text)

unfoldable pub error_count_test : ℕ → Text → Bool
unfolding count_operator
error_count_test count text =
    let (at_least, digits) = count_operator text in
    let threshold = digits_from 0 digits in
    ltb 0 (length digits)
    && all is_digit digits
    && (if at_least then leb threshold count else count == threshold)

unfoldable pub optional_eq : Option Text → Text → Bool
optional_eq none text = false
optional_eq (some found) text = text_eq found text

abbrev has_key : ℕ → ℕ × Text → Bool
has_key n entry = entry.0 == n

-- `ctx.step_statuses[Number(v)] === status`.
unfoldable pub step_is : (Text → Option ℕ) → ConditionContext → Text → Text → Bool
unfolding optional_eq
step_is to_number ctx value status = elim (to_number value) [
  | none ↦ false
  | some n ↦ optional_eq (map_option (λ e. e.1) (find (has_key n) ctx.step_statuses)) status
]

abbrev found_true : Option Bool → Bool
found_true none = false
found_true (some b) = b

-- `SHORTHANDS`, searched with `in`: it has `constructor`, which returns the context, and
-- `__proto__`, which is no function. The first `none` is a name that is not found.
unfoldable pub shorthand : ConditionContext → Text → Option (Option Bool)
shorthand ctx name =
    if text_eq name (codes "tests_pass")
    then some (some ctx.tests_pass)
    else if text_eq name (codes "tests_fail")
    then some (some ctx.has_recent_errors)
    else if text_eq name (codes "build_ok")
    then some (some (found_true ctx.tool_success))
    else if text_eq name (codes "plan_active")
    then some (some ctx.plan_active)
    else if text_eq name (codes "plan_complete")
    then some (some ctx.plan_complete)
    else if text_eq name (codes "constructor")
    then some (some true)
    else if text_eq name (codes "__proto__")
    then some none
    else none

-- `PARAM_EVALUATORS`; an unknown prefix is false.
unfoldable pub parameterized : (Text → Option ℕ) → ConditionContext → Text → Text → Option Bool
unfolding match_glob optional_eq step_is error_count_test
parameterized to_number ctx prefix value =
    if text_eq prefix (codes "tool")
    then some (optional_eq ctx.tool_name value)
    else if text_eq prefix (codes "file")
    then match_glob ctx.file_path value
    else if text_eq prefix (codes "branch")
    then match_glob ctx.branch value
    else if text_eq prefix (codes "step_done")
    then some (step_is to_number ctx value (codes "done"))
    else if text_eq prefix (codes "step_active")
    then some (step_is to_number ctx value (codes "in_progress"))
    else if text_eq prefix (codes "mode")
    then some (text_eq ctx.context_mode value)
    else if text_eq prefix (codes "session")
    then some (optional_eq ctx.session_type value)
    else if text_eq prefix (codes "error_count")
    then some (error_count_test ctx.error_count value)
    else some false

-- The text before the first colon and the text after it.
unfoldable pub at_colon : Text → Option (Text × Text)
at_colon [] = none
at_colon (c ∷ cs) =
    let rest = at_colon cs in
    if c == b':' then some ([], cs) else map_option (λ split. (c ∷ split.0, split.1)) rest

unfoldable pub eval_atom : (Text → Option ℕ) → ConditionContext → Text → Option Bool
unfolding shorthand parameterized at_colon lower
eval_atom to_number ctx token =
    let trimmed = trim token in
    elim (shorthand ctx (lower trimmed)) [
      | some value ↦ value
      | none ↦ elim (at_colon trimmed) [
        | none ↦ some false
        | some (prefix, value) ↦ parameterized to_number ctx (lower prefix) value
      ]
    ]

unfoldable pub space_run : Text → ℕ
space_run [] = 0
space_run (c ∷ cs) = let more = space_run cs in if is_space c then suc more else 0

-- The keyword of a match of `/\s+(AND|OR)\s+/i` that starts here, and the match's length.
unfoldable pub keyword_at : Text → ℕ → Text → Option (Text × ℕ)
unfolding space_run upper
keyword_at word before text =
    let n = length word in
    let after = space_run (drop n text) in
    if text_eq (upper (take n text)) word && ltb 0 after
    then some (take n text, before + n + after)
    else none

unfoldable pub separator_at : Text → Option (Text × ℕ)
unfolding space_run keyword_at
separator_at text =
    let before = space_run text in
    let rest = drop before text in
    let found_or = keyword_at (codes "OR") before rest in
    if before == 0
    then none
    else elim (keyword_at (codes "AND") before rest) [ some found ↦ some found | none ↦ found_or ]

-- `split` by it, the keywords kept, from a part read so far and past the characters of a match.
unfoldable pub split_parts : Text → ℕ → Text → List Text
unfolding separator_at
split_parts part skip [] = part ∷ []
split_parts part (suc skip) (c ∷ cs) = split_parts part skip cs
split_parts part zero (c ∷ cs) = elim (separator_at (c ∷ cs)) [
  | none ↦ split_parts (part ++ c ∷ []) 0 cs
  | some (word, n) ↦ part ∷ word ∷ split_parts [] (n - 1) cs
]

unfoldable pub eval_part : (Text → Option ℕ) → ConditionContext → Text → Option Bool
unfolding eval_atom upper
eval_part to_number ctx part =
    let atom = trim part in
    if text_eq (upper (take 4 atom)) (codes "NOT ")
    then map_option not (eval_atom to_number ctx (trim (drop 4 atom)))
    else eval_atom to_number ctx atom

-- The loop's variables; `conjoin` is `op === 'AND'`.
pub record Fold : Type 0 where
  pub result : Bool
  pub conjoin : Bool
  pub first : Bool

unfoldable pub combine : Fold → Bool → Fold
combine state value =
    if state.first
    then record state { result = value; first = false }
    else if state.conjoin
    then record state { result = state.result && value }
    else record state { result = state.result || value }

unfoldable pub eval_parts : (Text → Option ℕ) → ConditionContext → Fold → List Text → Option Bool
unfolding combine eval_part upper
eval_parts to_number ctx state [] = some state.result
eval_parts to_number ctx state (part ∷ parts) =
    let name = upper (trim part) in
    if text_eq name (codes "AND")
    then eval_parts to_number ctx (record state { conjoin = true }) parts
    else if text_eq name (codes "OR")
    then eval_parts to_number ctx (record state { conjoin = false }) parts
    else (do
      value ← eval_part to_number ctx part
      eval_parts to_number ctx (combine state value) parts)

abbrev pub fold_start : Fold
fold_start = record { result = false; conjoin = false; first = true }

unfoldable pub evaluate_condition : (Text → Option ℕ) → Text → ConditionContext → Option Bool
unfolding split_parts eval_parts
evaluate_condition to_number expr ctx =
    if text_eq expr [] || ltb max_condition_chars (length expr)
    then some false
    else eval_parts to_number ctx fold_start (split_parts [] 0 expr)
