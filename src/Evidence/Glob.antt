-- ===== src/Evidence/Glob.antt =====
-- src/governance/evidence-selector.ts: the path patterns. The regular expression that `globRegex`
-- builds is the list of its parts, and `regex_test` is its match; a character is one code unit.
use cairn_memory.Base.{
  ℕ, zero, suc, Bool, true, false, not, ◌&&◌, ◌||◌, Option, none, some, List, [], ◌∷◌, ◌==◌,
  if◌then◌else◌, any, map, head?,
}
use cairn_memory.Base.Text.{Text, codes}
use cairn_memory.Paths.{normalize}

-- `(?:.*/)?`, `.*`, `[^/]*`, `[^/]` and one escaped character.
pub data Part : Type 0 where
  any_dirs any_text any_name any_char : Part
  char : ℕ → Part

unfoldable pub replace_backslash : Text → Text
replace_backslash [] = []
replace_backslash (c ∷ s) = (if c == 92 then b'/' else c) ∷ replace_backslash s

-- `replace(/^\.\//u, '')`.
unfoldable pub strip_dot_slash : Text → Text
strip_dot_slash (c ∷ d ∷ s) = if c == b'.' && d == b'/' then s else c ∷ d ∷ s
strip_dot_slash s = s

unfoldable pub or_dot : Text → Text
or_dot [] = codes "."
or_dot (c ∷ s) = c ∷ s

unfoldable pub normalize_pattern : Text → Text
unfolding replace_backslash strip_dot_slash or_dot normalize
normalize_pattern path = or_dot (strip_dot_slash (normalize (replace_backslash path)))

abbrev is_char : ℕ → Option ℕ → Bool
is_char c none = false
is_char c (some d) = d == c

-- One round of `globRegex`: the part, and how many further characters the index passes.
unfoldable pub part_at : ℕ → Text → Part × ℕ
part_at c rest =
    if c == b'*'
    then (if is_char b'*' (head? rest)
        then (elim rest [
          | [] ↦ (any_text, 1)
          | d ∷ more ↦ if is_char b'/' (head? more) then (any_dirs, 2) else (any_text, 1)
        ])
        else (any_name, 0))
    else if c == b'?'
    then (any_char, 0)
    else (char c, 0)

unfoldable pub parts_from : ℕ → Text → List Part
unfolding part_at
parts_from k [] = []
parts_from (suc k) (c ∷ s) = parts_from k s
parts_from zero (c ∷ s) = let (part, passed) = part_at c s in part ∷ parts_from passed s

unfoldable pub glob_regex : Text → List Part
unfolding parts_from
glob_regex pattern = parts_from 0 pattern

-- What `.` does not match.
abbrev pub is_line_end : ℕ → Bool
is_line_end c = c == 10 || c == 13 || c == 8232 || c == 8233

-- A repeated class, then the rest of the expression.
unfoldable pub many : (ℕ → Bool) → (Text → Bool) → Text → Bool
many cls after [] = after []
many cls after (c ∷ s) =
    let further = many cls after s in
    if after (c ∷ s) then true else if cls c then further else false

-- `.*/`, then the rest.
unfoldable pub through_slash : (Text → Bool) → Text → Bool
through_slash after [] = false
through_slash after (c ∷ s) =
    let further = through_slash after s in
    if c == b'/' && after s then true else if is_line_end c then false else further

unfoldable pub match_part : Part → (Text → Bool) → Text → Bool
unfolding many through_slash
match_part any_dirs after s = after s || through_slash after s
match_part any_text after s = many (λ c. not (is_line_end c)) after s
match_part any_name after s = many (λ c. not (c == b'/')) after s
match_part any_char after [] = false
match_part any_char after (c ∷ s) = not (c == b'/') && after s
match_part (char d) after [] = false
match_part (char d) after (c ∷ s) = c == d && after s

abbrev at_end : Text → Bool
at_end [] = true
at_end (c ∷ s) = false

unfoldable pub regex_test : List Part → Text → Bool
unfolding match_part
regex_test [] s = at_end s
regex_test (p ∷ ps) s = match_part p (regex_test ps) s

-- `/[\[\]{}]/u.test(pattern)`.
unfoldable pub has_unsupported : Text → Bool
has_unsupported pattern = any (λ c. c == b'[' || c == b']' || c == b'{' || c == b'}') pattern

unfoldable pub path_matches_patterns : Text → List Text → Bool
unfolding normalize_pattern glob_regex regex_test has_unsupported
path_matches_patterns path patterns =
    let normalized = map normalize_pattern patterns in
    if (elim normalized [ [] ↦ true | p ∷ ps ↦ false ]) || any has_unsupported normalized
    then true
    else let candidate = normalize_pattern path in
      any (λ pattern. regex_test (glob_regex pattern) candidate) normalized
