-- ===== src/Fts/Laws.antt =====
-- The terms of a full-text query.
use cairn_memory.Base.{
  ℕ, zero, suc, ◌≤◌, ◌<◌, ◌≡◌, refl, inl, inr, Bool, true, not, ◌∙◌, sym, ◌||◌, some, List, [], ◌∷◌,
  map, Memᴰ, all, keep, take, length, flat_map, ltb, ◌==◌, if◌then◌else◌, arith, Bool-cases,
  and-eq-true, mem_of_keep, ltb→lt, or_else, ap,
}
use cairn_memory.Base.Text.{Text, codes, includes}
use cairn_memory.Paths.{split_on, join_with}
use cairn_memory.Fts.{
  is_word_char, or_space, lower_unit, is_term, fts_terms, build_fts_query, quoted, query_of,
  fts_stopwords,
}

abbrev word_or_space : ℕ → Bool
word_or_space c = is_word_char c || c == 32

or_space_word : (c : ℕ) → word_or_space (or_space c) ≡ true
unfolding or_space
or_space_word c = elim (Bool-cases (is_word_char c)) [ inl e ↦ rw (e, e) refl | inr e ↦ rw e refl ]

spaced_words : (text : Text) → all word_or_space (map or_space text) ≡ true
spaced_words [] = refl
spaced_words (c ∷ cs) = ground (arith, or_space_word c, spaced_words cs)

split_word_step :
    (c : ℕ) (parts : List Text) (word : Text)
    → ((w : Text) → Memᴰ w parts → all is_word_char w ≡ true)
    → word_or_space c ≡ true
    → Memᴰ word (elim parts [
      | [] ↦ [] ∷ []
      | part ∷ rest ↦ if c == 32 then [] ∷ part ∷ rest else (c ∷ part) ∷ rest
    ])
    → all is_word_char word ≡ true
split_word_step c [] word k h (Memᴰ.head e) = ap (all is_word_char) e
split_word_step c [] word k h (Memᴰ.tail m) = elim m [ ]
split_word_step c (part ∷ rest) word k h m = elim (Bool-cases (c == 32)) [
  | inl e ↦ blank (rw e at m)
  | inr e ↦ grown (ground (arith, e)) (rw e at m)
]
  where
    blank : Memᴰ word ([] ∷ part ∷ rest) → all is_word_char word ≡ true
    blank (Memᴰ.head q) = ap (all is_word_char) q
    blank (Memᴰ.tail n) = k word n

    grown : is_word_char c ≡ true → Memᴰ word ((c ∷ part) ∷ rest) → all is_word_char word ≡ true
    grown w (Memᴰ.head q) = ap (all is_word_char) q ∙ ground (arith, w, k part (Memᴰ.head refl))
    grown w (Memᴰ.tail n) = k word (Memᴰ.tail n)

split_words :
    (text word : Text)
    → all word_or_space text ≡ true
    → Memᴰ word (split_on 32 text)
    → all is_word_char word ≡ true
unfolding split_on
split_words [] word h (Memᴰ.head e) = ap (all is_word_char) e
split_words [] word h (Memᴰ.tail m) = elim m [ ]
split_words (c ∷ cs) word h m =
    let (here, later) = and-eq-true _ _ h in
    split_word_step c (split_on 32 cs) word (λ w. split_words cs w later) here m

take-mem : {A : Type 0} (n : ℕ) (xs : List A) (a : A) → Memᴰ a (take n xs) → Memᴰ a xs
take-mem zero xs a m = elim m [ ]
take-mem (suc n) [] a m = elim m [ ]
take-mem (suc n) (x ∷ xs) a (Memᴰ.head e) = Memᴰ.head e
take-mem (suc n) (x ∷ xs) a (Memᴰ.tail m) = Memᴰ.tail (take-mem n xs a m)

length-take_le : {A : Type 0} (n : ℕ) (xs : List A) → length (take n xs) ≤ n
length-take_le zero xs = omega arith
length-take_le (suc n) [] = omega arith
length-take_le (suc n) (x ∷ xs) = omega (arith, length-take_le n xs)

fts_terms_word :
    (text : Text) (filtered : Bool) (n : ℕ) (word : Text)
    → Memᴰ word (fts_terms text filtered n)
    → (all is_word_char word ≡ true) × (2 < length word)
unfolding fts_terms is_term
fts_terms_word text filtered n word m =
    let words = split_on 32 (map or_space (flat_map lower_unit text)) in
    let (k, e) =
      mem_of_keep (is_term filtered) words word
        (take-mem n (keep (is_term filtered) words) word m) in
    (
      split_words (map or_space (flat_map lower_unit text)) word
          (spaced_words (flat_map lower_unit text)) k,
      ltb→lt 2 (length word)
          (and-eq-true (ltb 2 (length word)) (not filtered || not (includes word fts_stopwords))
            e).0,
    )

fts_terms_few : (text : Text) (filtered : Bool) (n : ℕ) → length (fts_terms text filtered n) ≤ n
unfolding fts_terms
fts_terms_few text filtered n = length-take_le n _

query_of_terms :
    (terms : List Text) (query : Text)
    → query_of terms ≡ some query
    → query ≡ join_with (codes " OR ") (map quoted terms)
query_of_terms [] query h = absurd (cc)
query_of_terms (word ∷ words) query h = ap (λ o. or_else o []) (sym h)

-- A query that is built is a disjunction of quoted terms, at most as many as the limit, each of
-- more than two characters and of word characters alone, so no term closes its quotation.
pub build_fts_query-IsQuoted :
    (text : Text) (filtered : Bool) (n : ℕ) (query : Text)
    → build_fts_query text filtered n ≡ some query
    → (terms : List Text) × (query ≡ join_with (codes " OR ") (map quoted terms))
      × (length terms ≤ n)
      × ((word : Text) → Memᴰ word terms → (all is_word_char word ≡ true) × (2 < length word))
unfolding build_fts_query
build_fts_query-IsQuoted text filtered n query h =
    let terms = fts_terms text filtered n in
    (
      terms,
      query_of_terms terms query h,
      fts_terms_few text filtered n,
      fts_terms_word text filtered n,
    )
