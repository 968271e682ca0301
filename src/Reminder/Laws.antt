-- ===== src/Reminder/Laws.antt =====
-- Tables whose ids are distinct, and what updates and selections keep of their rows.
pub mod Fires
pub mod Reached
pub mod Limit
use cairn_memory.Base.{
  ℕ, zero, suc, ◌≡◌, refl, sym, ap, ◌∙◌, inl, inr, Bool, true, false, not, ◌&&◌, ◌||◌, List, [],
  ◌∷◌, ◌++◌, map, Memᴰ, any, all, keep, take, if◌then◌else◌, arith, Bool-cases, any_of_mem,
  any-append, and-eq-true, mem_of_keep, mem_of_any,
}
use cairn_memory.Base.Text.{Text, text_eq, text_eq_sound, text_eq_refl, text_eq_sym}
use cairn_memory.Plan.{update_where}
use cairn_memory.Reminder.{ReminderRow, Table, row_with_id}

abbrev pub distinct_ids : Table → Bool
distinct_ids [] = true
distinct_ids (row ∷ rows) = not (any (row_with_id row.id) rows) && distinct_ids rows

abbrev pub KeepsId : (ReminderRow → ReminderRow) → Type 0
KeepsId f = (x : ReminderRow) → (f x).id ≡ x.id

with_id-update :
    (id : Text) (w : ReminderRow → Bool) (f : ReminderRow → ReminderRow) (xs : Table)
    → KeepsId f
    → any (row_with_id id) (update_where w f xs) ≡ any (row_with_id id) xs
with_id-update id w f [] same = refl
with_id-update id w f (x ∷ xs) same =
    ground (arith, with_id-update id w f xs same, ap (λ i. text_eq i id) (same x))

pub distinct-update :
    (w : ReminderRow → Bool) (f : ReminderRow → ReminderRow) (xs : Table)
    → KeepsId f
    → distinct_ids (update_where w f xs) ≡ distinct_ids xs
distinct-update w f [] same = refl
distinct-update w f (x ∷ xs) same = elim (Bool-cases (w x)) [
  | inl e ↦ rw (e, distinct-update w f xs same, same x, with_id-update x.id w f xs same) refl
  | inr e ↦ rw (e, distinct-update w f xs same, with_id-update x.id w f xs same) refl
]

any-keep-false :
    (p q : ReminderRow → Bool) (xs : Table) → any p xs ≡ false → any p (keep q xs) ≡ false
any-keep-false p q [] h = refl
any-keep-false p q (x ∷ xs) h = ground (arith, any-keep-false p q xs)

pub distinct-keep :
    (q : ReminderRow → Bool) (xs : Table) → distinct_ids xs ≡ true → distinct_ids (keep q xs) ≡ true
distinct-keep q [] h = refl
distinct-keep q (x ∷ xs) h =
    ground (arith, distinct-keep q xs, any-keep-false (row_with_id x.id) q xs)

any-take-false :
    (p : ReminderRow → Bool) (n : ℕ) (xs : Table) → any p xs ≡ false → any p (take n xs) ≡ false
any-take-false p zero xs h = refl
any-take-false p (suc n) [] h = refl
any-take-false p (suc n) (x ∷ xs) h = ground (arith, any-take-false p n xs)

pub distinct-take : (n : ℕ) (xs : Table) → distinct_ids xs ≡ true → distinct_ids (take n xs) ≡ true
distinct-take zero xs h = refl
distinct-take (suc n) [] h = refl
distinct-take (suc n) (x ∷ xs) h =
    ground (arith, distinct-take n xs, any-take-false (row_with_id x.id) n xs)

pub distinct-snoc :
    (xs : Table) (row : ReminderRow)
    → distinct_ids xs ≡ true
    → any (row_with_id row.id) xs ≡ false
    → distinct_ids (xs ++ row ∷ []) ≡ true
distinct-snoc [] row h free = refl
distinct-snoc (x ∷ xs) row h free = ground (
  arith,
  distinct-snoc xs row,
  any-append (row_with_id x.id) xs (row ∷ []),
  text_eq_sym row.id x.id,
)

pub mem_of_take : (n : ℕ) (xs : Table) (a : ReminderRow) → Memᴰ a (take n xs) → Memᴰ a xs
mem_of_take zero xs a m = elim m [ ]
mem_of_take (suc n) [] a m = elim m [ ]
mem_of_take (suc n) (x ∷ xs) a (Memᴰ.head e) = Memᴰ.head e
mem_of_take (suc n) (x ∷ xs) a (Memᴰ.tail m) = Memᴰ.tail (mem_of_take n xs a m)

-- Two rows of the table with one id are one row.
pub same_row :
    (xs : Table) (a b : ReminderRow)
    → distinct_ids xs ≡ true
    → Memᴰ a xs
    → Memᴰ b xs
    → text_eq a.id b.id ≡ true
    → a ≡ b
same_row [] a b h m n e = elim m [ ]
same_row (x ∷ xs) a b h (Memᴰ.head p) (Memᴰ.head q) e = p ∙ sym q
same_row (x ∷ xs) a b h (Memᴰ.head p) (Memᴰ.tail n) e =
    let same : text_eq b.id x.id ≡ true = rw (sym p) (text_eq_sym b.id a.id ∙ e) in
    absurd (ground (arith, any_of_mem (row_with_id x.id) xs b n same))
same_row (x ∷ xs) a b h (Memᴰ.tail m) (Memᴰ.head q) e =
    let same : text_eq a.id x.id ≡ true = rw (sym q) e in
    absurd (ground (arith, any_of_mem (row_with_id x.id) xs a m same))
same_row (x ∷ xs) a b h (Memᴰ.tail m) (Memᴰ.tail n) e = same_row xs a b (ground arith) m n e

-- What an update does to a row of the table.
pub mem-update :
    (w : ReminderRow → Bool) (f : ReminderRow → ReminderRow) (xs : Table) (a : ReminderRow)
    → Memᴰ a xs
    → Memᴰ (if w a then f a else a) (update_where w f xs)
mem-update w f [] a m = elim m [ ]
mem-update w f (x ∷ xs) a (Memᴰ.head e) = Memᴰ.head (ap (λ y. if w y then f y else y) e)
mem-update w f (x ∷ xs) a (Memᴰ.tail m) = Memᴰ.tail (mem-update w f xs a m)

pub all-update :
    (p w : ReminderRow → Bool) (f : ReminderRow → ReminderRow) (xs : Table)
    → all p xs ≡ true
    → ((x : ReminderRow) → Memᴰ x xs → w x ≡ true → p x ≡ true → p (f x) ≡ true)
    → all p (update_where w f xs) ≡ true
all-update p w f [] h k = refl
all-update p w f (x ∷ xs) h k =
    let here = k x (Memᴰ.head refl) in
    ground (arith, all-update p w f xs (ground arith) (λ y m. k y (Memᴰ.tail m)), here)

pub all-keep : (p q : ReminderRow → Bool) (xs : Table) → all p xs ≡ true → all p (keep q xs) ≡ true
all-keep p q [] h = refl
all-keep p q (x ∷ xs) h = ground (arith, all-keep p q xs)

pub all-snoc :
    (p : ReminderRow → Bool) (xs : Table) (row : ReminderRow)
    → all p xs ≡ true
    → p row ≡ true
    → all p (xs ++ row ∷ []) ≡ true
all-snoc p [] row h k = ground arith
all-snoc p (x ∷ xs) row h k = ground (arith, all-snoc p xs row)
