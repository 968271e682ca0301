-- ===== src/Fts.antt =====
-- src/utils/fts.ts: the full-text query of a text, as the memory and the reminder repository ask
-- it. The regular expressions are read on code units.
pub mod Laws
use cairn_memory.Base.{
  ℕ, ◌+◌, Bool, true, false, not, ◌&&◌, ◌||◌, Option, none, some, List, [], ◌∷◌, ◌++◌, map, ltb,
  leb, ◌==◌, if◌then◌else◌, keep, take, length, flat_map,
}
use cairn_memory.Base.Text.{Text, codes, includes}
use cairn_memory.Paths.{split_on, join_with}

-- `FTS_STOPWORDS`.
abbrev pub fts_stopwords : List Text
fts_stopwords = split_on b' ' (
    codes "the and for not with that this from are was were been have has had does "
    ++ codes "did will would could should can may how what why where when which who "
    ++ codes "any all some there their they them you your use using also but other "
    ++ codes "its into than then just only very about more most over such each make "
    ++ codes "like need want work know take come get let now new way our out")

-- A character of `\w`.
unfoldable pub is_word_char : ℕ → Bool
is_word_char c =
    (leb 48 c && leb c 57) || (leb 65 c && leb c 90) || c == 95 || (leb 97 c && leb c 122)

-- `toLowerCase` as far as word characters come of it: the capitals, and the two signs beyond them
-- that it takes to a letter.
unfoldable pub lower_unit : ℕ → Text
lower_unit c =
    if leb 65 c && leb c 90
    then (c + 32) ∷ []
    else if c == 8490
    then 107 ∷ []
    else if c == 304
    then 105 ∷ 775 ∷ []
    else c ∷ []

-- `replace(/[^\w\s]/g, ' ')`; white space is a separator of the words too.
unfoldable pub or_space : ℕ → ℕ
unfolding is_word_char
or_space c = if is_word_char c then c else 32

unfoldable pub is_term : Bool → Text → Bool
is_term filter_stopwords word =
    ltb 2 (length word) && (not filter_stopwords || not (includes word fts_stopwords))

unfoldable pub fts_terms : Text → Bool → ℕ → List Text
unfolding lower_unit or_space is_term split_on
fts_terms text filter_stopwords max_terms =
    take max_terms
      (keep (is_term filter_stopwords) (split_on b' ' (map or_space (flat_map lower_unit text))))

abbrev pub quoted : Text → Text
quoted word = 34 ∷ word ++ 34 ∷ []

abbrev pub query_of : List Text → Option Text
query_of [] = none
query_of (word ∷ words) = some (join_with (codes " OR ") (map quoted (word ∷ words)))

unfoldable pub build_fts_query : Text → Bool → ℕ → Option Text
unfolding fts_terms
build_fts_query text filter_stopwords max_terms =
    query_of (fts_terms text filter_stopwords max_terms)
