-- ===== src/Validation.antt =====
-- src/utils/validation.ts: the checks and the cleaning of what the plan repository is given.
use cairn_memory.Base.{
  ℕ, Bool, true, false, not, ◌&&◌, ◌||◌, List, [], ◌∷◌, ◌++◌, leb, ltb, ◌==◌, if◌then◌else◌, any,
  all, length, keep,
}
use cairn_memory.Base.Text.{Text}

-- The warnings and errors of the checks, with the numbers that their texts name.
pub data Problem : Type 0 where
  note_empty no_steps : Problem
  note_too_long too_many_steps : ℕ → Problem

pub record ValidationResult : Type 0 where
  pub valid : Bool
  pub warnings : List Problem
  pub errors : List Problem

abbrev pub note_max_chars : ℕ
note_max_chars = 300

abbrev pub max_steps_per_plan : ℕ
max_steps_per_plan = 15

-- A character of `\s`.
unfoldable pub is_space : ℕ → Bool
is_space c =
    (leb 9 c && leb c 13)
    || (leb 8192 c && leb c 8202)
    || any (λ d. c == d) (32 ∷ 160 ∷ 5760 ∷ 8232 ∷ 8233 ∷ 8239 ∷ 8287 ∷ 12288 ∷ 65279 ∷ [])

-- A character of `[\x00-\x08\x0B\x0C\x0E-\x1F\x7F]`.
unfoldable pub is_control : ℕ → Bool
is_control c = leb c 8 || c == 11 || c == 12 || (leb 14 c && leb c 31) || c == 127

-- `replace(/\s+/g, ' ')`, after a space when the flag is set.
unfoldable pub collapse : Bool → Text → Text
collapse after_space [] = []
collapse after_space (c ∷ cs) =
    let later = collapse true cs in
    let rest = collapse false cs in
    if is_space c then (if after_space then later else 32 ∷ later) else c ∷ rest

unfoldable pub trim_start : Text → Text
trim_start [] = []
trim_start (c ∷ cs) = let rest = trim_start cs in if is_space c then rest else c ∷ cs

unfoldable pub trim_end : Text → Text
trim_end [] = []
trim_end (c ∷ cs) = if all is_space (c ∷ cs) then [] else c ∷ trim_end cs

unfoldable pub trim : Text → Text
unfolding trim_start trim_end
trim text = trim_end (trim_start text)

unfoldable pub sanitize : Text → Text
unfolding is_control collapse trim
sanitize input = trim (collapse false (keep (λ c. not (is_control c)) input))

abbrev checked : List Problem → List Problem → ValidationResult
checked warnings [] = record { valid = true; warnings = warnings; errors = [] }
checked warnings (e ∷ errors) = record { valid = false; warnings = warnings; errors = e ∷ errors }

unfoldable pub validate_note_content : Text → ValidationResult
unfolding trim
validate_note_content note = checked [] (
    (if length (trim note) == 0 then note_empty ∷ [] else [])
    ++ (if ltb note_max_chars (length note) then note_too_long (length note) ∷ [] else []))

unfoldable pub validate_step_count : ℕ → ValidationResult
validate_step_count count =
    checked (if ltb max_steps_per_plan count then too_many_steps count ∷ [] else [])
      (if count == 0 then no_steps ∷ [] else [])
