-- ===== src/Override/Laws.antt =====
-- When an override holds.
pub mod Holds
pub mod Latest
use cairn_memory.Base.{
  ℕ, zero, suc, ◌+◌, ◌-◌, ◌≤◌, ◌<◌, ◌≡◌, refl, sym, ap, ◌∙◌, subst, ◌↔◌, inl, inr, Bool, true,
  false, not, ◌&&◌, ◌||◌, Option, none, some, List, [], ◌∷◌, ◌++◌, map, Memᴰ, any, all, keep,
  length, ltb, leb, ◌==◌, if◌then◌else◌, arith, Bool-cases, Option-cases, and-eq-true, ==_iff,
  ==_refl, length-keep-le, ltb→lt, leb→le, not_ltb,
}
use cairn_memory.Base.Text.{
  Text, text_eq, text_eq_sound, text_eq_refl, text_eq_sym, text_lt, text_eq_iff,
}
use cairn_memory.Base.Sorting.{sort_by, mem-sort_by, length-sort_by}
use cairn_memory.Base.Sets.{is_once, sort-IsRising, rising_unique}
use cairn_memory.Command.Match.{exact_argv}
use cairn_memory.Command.Match.Laws.{exact_argv_sound}
use cairn_memory.Evidence.{Count}
use cairn_memory.Evidence.Selection.{distinct, sort_texts}
use cairn_memory.Evidence.Selection.Laws.{any-distinct}
use cairn_memory.Override.{
  RuleBinding, Candidate, Context, Validation, valid, invalid, exact_strings, rule_keys,
  well_formed, validate_times, validate_bindings, validate_governance_override,
  override_max_duration_ms, dated,
}

keep_full :
    {A : Type 0} (p : A → Bool) (xs : List A) → length (keep p xs) ≡ length xs → all p xs ≡ true
keep_full p [] h = refl
keep_full p (x ∷ xs) h = ground (arith, keep_full p xs, length-keep-le p xs)

keep-keep : {A : Type 0} (p : A → Bool) (xs : List A) → all p xs ≡ true → keep p xs ≡ xs
keep-keep p [] h = refl
keep-keep p (x ∷ xs) h =
    let (here, later) = and-eq-true (p x) (all p xs) h in
    rw here (ap (λ l. x ∷ l) (keep-keep p xs later))

length-distinct_le : (l : List Text) → length (distinct l) ≤ length l
unfolding distinct
length-distinct_le [] = omega arith
length-distinct_le (t ∷ ts) =
    omega (arith, length-keep-le (λ s. not (text_eq s t)) (distinct ts), length-distinct_le ts)

none_equal :
    (t : Text) (l : List Text)
    → all (λ s. not (text_eq s t)) l ≡ true
    → any (λ b. text_eq t b) l ≡ false
none_equal t [] h = refl
none_equal t (s ∷ l) h = ground (arith, none_equal t l, text_eq_sym s t)

all_other :
    (t : Text) (l : List Text)
    → any (λ b. text_eq t b) l ≡ false
    → all (λ s. not (text_eq s t)) l ≡ true
all_other t [] h = refl
all_other t (s ∷ l) h = ground (arith, all_other t l, text_eq_sym s t)

once_of_length : (l : List Text) → length (distinct l) ≡ length l → is_once l ≡ true
unfolding distinct
once_of_length [] h = refl
once_of_length (t ∷ ts) h =
    let others = λ (s : Text). not (text_eq s t) in
    let bound = length-distinct_le ts in
    let kept = length-keep-le others (distinct ts) in
    let full : length (keep others (distinct ts)) ≡ length (distinct ts) =
      omega (arith, h, bound, kept) in
    let whole : length (distinct ts) ≡ length ts = omega (arith, h, bound, kept) in
    let other = none_equal t (distinct ts) (keep_full others (distinct ts) full) in
    ground (arith, once_of_length ts whole, any-distinct (λ b. text_eq t b) ts, other)

pub distinct_once : (l : List Text) → is_once l ≡ true → distinct l ≡ l
unfolding distinct
distinct_once [] h = refl
distinct_once (t ∷ ts) h =
    let (other, once) = and-eq-true (not (any (λ b. text_eq t b) ts)) (is_once ts) h in
    rw (distinct_once ts once)
      (ap (λ l. t ∷ l) (keep-keep (λ s. not (text_eq s t)) ts (all_other t ts (ground arith))))

-- Two lists of the same texts, each once.
abbrev pub SameTexts : List Text → List Text → Type 0
SameTexts left right =
    (is_once left ≡ true) × (is_once right ≡ true) × ((t : Text) → Memᴰ t left ↔ Memᴰ t right)

exact_argv_refl : (a : List Text) → exact_argv a a ≡ true
unfolding exact_argv
exact_argv_refl [] = refl
exact_argv_refl (a ∷ left) = rw (text_eq_refl a) (exact_argv_refl left)

exact_strings_sound :
    (left right : List Text) → exact_strings left right ≡ true → SameTexts left right
unfolding exact_strings
exact_strings_sound left right h =
    let a = sort_texts (distinct left) in
    let b = sort_texts (distinct right) in
    let (lengths, same) =
      and-eq-true (length a == length left && length b == length right) (exact_argv a b) h in
    let (of_left, of_right) =
      and-eq-true (length a == length left) (length b == length right) lengths in
    let once_left = once_of_length left (
      sym (length-sort_by text_lt (distinct left)) ∙ (==_iff (length a) (length left)).0 of_left) in
    let once_right = once_of_length right (
      sym (length-sort_by text_lt (distinct right))
      ∙ (==_iff (length b) (length right)).0 of_right) in
    let equal : sort_texts left ≡ sort_texts right =
      rw (sym (distinct_once left once_left), sym (distinct_once right once_right))
        (exact_argv_sound a b same) in
    (
      once_left,
      once_right,
      λ t. (
        λ m.
            (mem-sort_by text_lt t right).0
              (subst (Memᴰ t) equal ((mem-sort_by text_lt t left).1 m)),
        λ m.
            (mem-sort_by text_lt t left).0
              (subst (Memᴰ t) (sym equal) ((mem-sort_by text_lt t right).1 m)),
      ),
    )

exact_strings_complete :
    (left right : List Text) → SameTexts left right → exact_strings left right ≡ true
unfolding exact_strings
exact_strings_complete left right (once_left, once_right, same) =
    let equal : sort_texts left ≡ sort_texts right =
      rising_unique (sort_texts left) (sort_texts right) (sort-IsRising left once_left)
        (sort-IsRising right once_right)
        (λ t. (
          λ m. (mem-sort_by text_lt t right).1 ((same t).0 ((mem-sort_by text_lt t left).0 m)),
          λ m. (mem-sort_by text_lt t left).1 ((same t).1 ((mem-sort_by text_lt t right).0 m)),
        )) in
    rw
      (
        distinct_once left once_left,
        distinct_once right once_right,
        length-sort_by text_lt left,
        length-sort_by text_lt right,
        ==_refl (length left),
        ==_refl (length right),
        equal,
      )
      (exact_argv_refl (sort_texts right))

-- The comparison of two lists is that of sets, and refuses a list that holds a text twice.
pub exact_strings_iff :
    (left right : List Text) → (exact_strings left right ≡ true) ↔ SameTexts left right
exact_strings_iff left right = (exact_strings_sound left right, exact_strings_complete left right)
