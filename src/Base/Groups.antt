-- ===== src/Base/Groups.antt =====
-- Rows of several groups, sorted by their group first.
use mathlib.Core.Path.{◌≡◌, refl, sym, ap, ◌∙◌, subst}
use mathlib.Core.Logic.{inl, inr}
use mathlib.Core.Bool.{Bool, true, false, ◌&&◌, ◌||◌}
use mathlib.Core.List.{List, [], ◌∷◌}
use native.Mathlib.Omega.{arith}
use cairn_memory.Base.Tests.{Bool-cases}
use cairn_memory.Base.Lists.{keep, All}
use cairn_memory.Base.Text.{
  Text, text_eq, text_lt, text_lt_irrefl, text_eq_sound, text_eq_refl, text_eq_sym,
}
use cairn_memory.Base.Sorting.{insert_by, sort_by}
use cairn_memory.Base.Sets.{text_lt_total, text_lt_trans}

text_lt_asym : (a b : Text) → text_lt a b ≡ true → text_lt b a ≡ false
text_lt_asym a b h = elim (Bool-cases (text_lt b a)) [
  | inl e ↦ absurd (cc (text_lt_trans a b a h e, text_lt_irrefl a))
  | inr e ↦ e
]

-- What is not below b, which is not below a, is not below a.
not_below_trans : (a b c : Text) → text_lt b a ≡ false → text_lt c b ≡ false → text_lt c a ≡ false
not_below_trans a b c h k = elim (Bool-cases (text_lt c a)) [
  | inr e ↦ e
  | inl e ↦ elim (Bool-cases (text_eq a b)) [
    | inl q ↦ absurd (cc (subst (λ t. text_lt c t ≡ true) (text_eq_sound a b q) e, k))
    | inr q ↦ absurd (cc (text_lt_trans c a b e (text_lt_total a b h q), k))
  ]
]

module _ {A : Type 0} (group : A → Text) (before : A → A → Bool) where
  -- `ORDER BY` the group and then what `before` compares.
  abbrev pub in_groups : A → A → Bool
  in_groups a b = text_lt (group a) (group b) || text_eq (group a) (group b) && before a b

  abbrev IsGrouped : List A → Type 0
  IsGrouped [] = Unit
  IsGrouped (a ∷ l) = All (λ c. text_lt (group c) (group a) ≡ false) l × IsGrouped l

  above_each :
      (a b : A) (l : List A)
      → text_lt (group b) (group a) ≡ false
      → All (λ c. text_lt (group c) (group b) ≡ false) l
      → All (λ c. text_lt (group c) (group a) ≡ false) l
  above_each a b [] h k = tt
  above_each a b (c ∷ l) h k =
      (not_below_trans (group a) (group b) (group c) h k.0, above_each a b l h k.1)

  above_insert :
      (a b : A) (l : List A)
      → text_lt (group a) (group b) ≡ false
      → All (λ c. text_lt (group c) (group b) ≡ false) l
      → All (λ c. text_lt (group c) (group b) ≡ false) (insert_by in_groups a l)
  unfolding insert_by
  above_insert a b [] h k = (h, tt)
  above_insert a b (c ∷ l) h k = elim (Bool-cases (in_groups c a)) [
    | inl e ↦ rw e (k.0, above_insert a b l h k.1)
    | inr e ↦ rw e (h, k)
  ]

  in_groups_above : (a b : A) → in_groups b a ≡ true → text_lt (group a) (group b) ≡ false
  in_groups_above a b h = elim (Bool-cases (text_lt (group b) (group a))) [
    | inl e ↦ text_lt_asym (group b) (group a) e
    | inr e ↦
        let same : group b ≡ group a = text_eq_sound (group b) (group a) (ground (arith, e)) in
        subst (λ t. text_lt (group a) t ≡ false) (sym same) (text_lt_irrefl (group a))
  ]

  insert-IsGrouped : (a : A) (l : List A) → IsGrouped l → IsGrouped (insert_by in_groups a l)
  unfolding insert_by
  insert-IsGrouped a [] g = (tt, tt)
  insert-IsGrouped a (b ∷ l) g = elim (Bool-cases (in_groups b a)) [
    | inl e ↦ rw e (above_insert a b l (in_groups_above a b e) g.0, insert-IsGrouped a l g.1)
    | inr e ↦
        let low : text_lt (group b) (group a) ≡ false = ground (arith, e) in
        rw e ((low, above_each a b l low g.0), g)
  ]

  sort-IsGrouped : (l : List A) → IsGrouped (sort_by in_groups l)
  unfolding sort_by
  sort-IsGrouped [] = tt
  sort-IsGrouped (a ∷ l) = insert-IsGrouped a (sort_by in_groups l) (sort-IsGrouped l)

  module _ (id : Text) where
    abbrev pub of_group : A → Bool
    of_group a = text_eq (group a) id

    -- Above a group there is nothing of it.
    none_above :
        (b : A) (l : List A)
        → text_lt id (group b) ≡ true
        → All (λ c. text_lt (group c) (group b) ≡ false) l
        → keep of_group l ≡ []
    none_above b [] h k = refl
    none_above b (c ∷ l) h k = elim (Bool-cases (of_group c)) [
      | inl e ↦
          absurd (
            cc
              (subst (λ t. text_lt t (group b) ≡ true) (sym (text_eq_sound (group c) id e)) h, k.0))
      | inr e ↦ rw e (none_above b l h k.1)
    ]

    keep-insert_other :
        (a : A) (l : List A)
        → of_group a ≡ false
        → keep of_group (insert_by in_groups a l) ≡ keep of_group l
    unfolding insert_by
    keep-insert_other a [] h = rw h refl
    keep-insert_other a (b ∷ l) h = elim (Bool-cases (in_groups b a)) [
      | inl e ↦ rw e (ground (arith, keep-insert_other a l h))
      | inr e ↦ rw (e, h) refl
    ]

    in_groups_same : (a b : A) → of_group a ≡ true → of_group b ≡ true → in_groups b a ≡ before b a
    in_groups_same a b h k =
        let same : group b ≡ group a =
          text_eq_sound (group b) id k ∙ sym (text_eq_sound (group a) id h) in
        rw (same, text_lt_irrefl (group a), text_eq_refl (group a)) refl

    keep-insert :
        (a : A) (l : List A)
        → of_group a ≡ true
        → IsGrouped l
        → keep of_group (insert_by in_groups a l) ≡ insert_by before a (keep of_group l)
    unfolding insert_by
    keep-insert a [] h g = rw h refl
    keep-insert a (b ∷ l) h g = elim (Bool-cases (of_group b)) [
      | inl k ↦ elim (Bool-cases (before b a)) [
        | inl e ↦ rw (in_groups_same a b h k ∙ e, k, e) (ap (λ t. b ∷ t) (keep-insert a l h g.1))
        | inr e ↦ rw (in_groups_same a b h k ∙ e, h, k, e) refl
      ]
      | inr k ↦ elim (Bool-cases (in_groups b a)) [
        | inl e ↦ rw (e, k) (keep-insert a l h g.1)
        | inr e ↦
            let low : text_lt (group b) (group a) ≡ false = ground (arith, e) in
            let apart : text_eq id (group b) ≡ false = text_eq_sym id (group b) ∙ k in
            let above =
              text_lt_total id (group b)
                (subst (λ t. text_lt (group b) t ≡ false) (text_eq_sound (group a) id h) low)
                apart in
            rw (e, h, k, none_above b l above g.0) refl
      ]
    ]

    -- Of the rows sorted by their group first, those of one group are sorted as they are alone.
    pub keep-sort_by :
        (l : List A) → keep of_group (sort_by in_groups l) ≡ sort_by before (keep of_group l)
    unfolding sort_by
    keep-sort_by [] = refl
    keep-sort_by (a ∷ l) = elim (Bool-cases (of_group a)) [
      | inl h ↦ rw h (
          keep-insert a (sort_by in_groups l) h (sort-IsGrouped l)
          ∙ ap (insert_by before a) (keep-sort_by l))
      | inr h ↦ rw h (keep-insert_other a (sort_by in_groups l) h ∙ keep-sort_by l)
    ]
