-- ===== src/Base/Sets.antt =====
-- Lists of texts as sets: the order on texts, and lists that are sorted and hold each text once.
use mathlib.Core.Path.{◌≡◌, refl, sym, subst}
use mathlib.Core.Logic.{inl, inr, ◌↔◌, ◌≢◌}
use mathlib.Core.Bool.{Bool, true, false, ◌&&◌, not}
use mathlib.Core.List.{List, [], ◌∷◌, Memᴰ}
use native.Mathlib.Omega.{arith}
use cairn_memory.Base.Tests.{Bool-cases}
use cairn_memory.Base.Lists.{any, All}
use cairn_memory.Base.Text.{Text, text_eq, text_lt, text_lt_irrefl}
use cairn_memory.Base.Sorting.{insert_by, sort_by, any-sort_by}

pub text_lt_total : (a b : Text) → text_lt b a ≡ false → text_eq a b ≡ false → text_lt a b ≡ true
unfolding text_lt text_eq
text_lt_total [] [] h k = absurd (cc)
text_lt_total [] (b ∷ t) h k = refl
text_lt_total (a ∷ s) [] h k = absurd (cc)
text_lt_total (a ∷ s) (b ∷ t) h k = ground (arith, text_lt_total s t)

pub text_lt_trans : (a b c : Text) → text_lt a b ≡ true → text_lt b c ≡ true → text_lt a c ≡ true
unfolding text_lt
text_lt_trans [] [] c h k = absurd (cc)
text_lt_trans (a ∷ s) [] c h k = absurd (cc)
text_lt_trans [] (b ∷ t) [] h k = absurd (cc)
text_lt_trans [] (b ∷ t) (c ∷ u) h k = refl
text_lt_trans (a ∷ s) (b ∷ t) [] h k = absurd (cc)
text_lt_trans (a ∷ s) (b ∷ t) (c ∷ u) h k = ground (arith, text_lt_trans s t u)

-- Each text is below those after it.
abbrev pub IsRising : List Text → Type 0
IsRising [] = Unit
IsRising (a ∷ l) = All (λ b. text_lt a b ≡ true) l × IsRising l

above_trans_each :
    (a b : Text) (l : List Text)
    → text_lt a b ≡ true
    → All (λ c. text_lt b c ≡ true) l
    → All (λ c. text_lt a c ≡ true) l
above_trans_each a b [] h k = tt
above_trans_each a b (c ∷ l) h k = (text_lt_trans a b c h k.0, above_trans_each a b l h k.1)

above_member :
    (a b : Text) (l : List Text) → All (λ c. text_lt a c ≡ true) l → Memᴰ b l → text_lt a b ≡ true
above_member a b [] h m = elim m [ ]
above_member a b (c ∷ l) h (Memᴰ.head e) = rw e h.0
above_member a b (c ∷ l) h (Memᴰ.tail m) = above_member a b l h.1 m

below_insert :
    (a b : Text) (l : List Text)
    → text_lt b a ≡ true
    → All (λ c. text_lt b c ≡ true) l
    → All (λ c. text_lt b c ≡ true) (insert_by text_lt a l)
unfolding insert_by
below_insert a b [] h k = (h, tt)
below_insert a b (c ∷ l) h k = elim (Bool-cases (text_lt c a)) [
  | inl e ↦ rw e (k.0, below_insert a b l h k.1)
  | inr e ↦ rw e (h, k)
]

insert-IsRising :
    (a : Text) (l : List Text)
    → any (λ b. text_eq a b) l ≡ false
    → IsRising l
    → IsRising (insert_by text_lt a l)
unfolding insert_by
insert-IsRising a [] other h = (tt, tt)
insert-IsRising a (b ∷ l) other h = elim (Bool-cases (text_lt b a)) [
  | inl e ↦ rw e (below_insert a b l e h.0, insert-IsRising a l (ground arith) h.1)
  | inr e ↦
      let before = text_lt_total a b e (ground arith) in
      rw e ((before, above_trans_each a b l before h.0), h)
]

not_below_itself : (a : Text) → text_lt a a ≢ true
not_below_itself a h = absurd (cc (text_lt_irrefl a, h))

-- The first of two rising lists with the same members is one text.
same_first :
    (a b : Text) (l k : List Text)
    → IsRising (a ∷ l)
    → IsRising (b ∷ k)
    → Memᴰ a (b ∷ k)
    → Memᴰ b (a ∷ l)
    → a ≡ b
same_first a b l k f g (Memᴰ.head e) n = e
same_first a b l k f g (Memᴰ.tail m) (Memᴰ.head e) = sym e
same_first a b l k f g (Memᴰ.tail m) (Memᴰ.tail n) =
    absurd (
      not_below_itself a
        (text_lt_trans a b a (above_member a b l f.0 n) (above_member b a k g.0 m)))

tail_member :
    (a x : Text) (l k : List Text) → IsRising (a ∷ l) → Memᴰ x l → Memᴰ x (a ∷ k) → Memᴰ x k
tail_member a x l k f m (Memᴰ.head e) =
    absurd (not_below_itself x (subst (λ b. text_lt b x ≡ true) (sym e) (above_member a x l f.0 m)))
tail_member a x l k f m (Memᴰ.tail n) = n

pub rising_unique :
    (l k : List Text) → IsRising l → IsRising k → ((x : Text) → Memᴰ x l ↔ Memᴰ x k) → l ≡ k
rising_unique [] [] f g same = refl
rising_unique [] (b ∷ k) f g same = elim ((same b).1 (Memᴰ.head refl)) [ ]
rising_unique (a ∷ l) [] f g same = elim ((same a).0 (Memᴰ.head refl)) [ ]
rising_unique (a ∷ l) (b ∷ k) f g same =
    let first =
      same_first a b l k f g ((same a).0 (Memᴰ.head refl)) ((same b).1 (Memᴰ.head refl)) in
    let rest = rising_unique l k f.1 g.1 (λ x. (
      λ m. tail_member a x l k f m (rw first ((same x).0 (Memᴰ.tail m))),
      λ m. tail_member b x k l g m (rw (sym first) ((same x).1 (Memᴰ.tail m))),
    )) in
    cc (first, rest)

-- A list that holds each text once.
abbrev pub is_once : List Text → Bool
is_once [] = true
is_once (a ∷ l) = not (any (λ b. text_eq a b) l) && is_once l

any_sorted :
    (a : Text) (l : List Text)
    → any (λ b. text_eq a b) l ≡ false
    → any (λ b. text_eq a b) (sort_by text_lt l) ≡ false
any_sorted a l h = rw (any-sort_by text_lt (λ b. text_eq a b) l) h

pub sort-IsRising : (l : List Text) → is_once l ≡ true → IsRising (sort_by text_lt l)
unfolding sort_by
sort-IsRising [] h = tt
sort-IsRising (a ∷ l) h =
    insert-IsRising a (sort_by text_lt l) (any_sorted a l (ground arith))
      (sort-IsRising l (ground arith))
