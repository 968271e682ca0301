-- ===== src/Reminder/Laws/Fires.antt =====
-- How often a reminder fires, and the rows that a check returns and leaves.
use cairn_memory.Base.{
  ◌≡◌, refl, sym, ◌∙◌, subst, inl, inr, Bool, true, false, not, ◌&&◌, ◌||◌, Option, List, [], ◌∷◌,
  map, Memᴰ, All, any, all, keep, take, if◌then◌else◌, ltb, leb, ◌==◌, arith, Bool-cases,
  any_of_mem, and-eq-true, mem_of_keep, all_mem,
}
use cairn_memory.Base.Text.{Text, text_eq, text_eq_refl, text_eq_sym}
use cairn_memory.Plan.{update_where}
use cairn_memory.Reminder.{
  ReminderRow, Table, row_with_id, exhausts, bump, stop, mirrored, fire_row, fire_rows, is_live,
  max_fired_per_prompt,
}
use cairn_memory.Reminder.Laws.{
  distinct_ids, KeepsId, distinct-update, distinct-keep, distinct-take, mem_of_take, same_row,
  mem-update, all-update,
}

-- A row within its limit, and below it while it is active.
abbrev pub within : ReminderRow → Bool
within row =
    row.max_fires == 0
    || (leb row.fire_count row.max_fires && (not row.active || ltb row.fire_count row.max_fires))

pub record IsSound (table : Table) : Type 0 where
  pub distinct : distinct_ids table ≡ true
  pub all_within : all within table ≡ true

-- Distinct active rows of a table, as a check selects them.
pub record IsPicked (rows : List ReminderRow) (table : Table) : Type 0 where
  pub each : (row : ReminderRow) → Memᴰ row rows → Memᴰ row table × (row.active ≡ true)
  pub once : distinct_ids rows ≡ true

abbrev fired : ReminderRow → ReminderRow → ReminderRow
fired row x = if exhausts row then stop (bump x) else bump x

update-update :
    (id : Text) (xs : Table)
    → update_where (row_with_id id) stop (update_where (row_with_id id) bump xs)
      ≡ update_where (row_with_id id) (λ x. stop (bump x)) xs
update-update id [] = refl
update-update id (x ∷ xs) = elim (Bool-cases (text_eq x.id id)) [
  | inl e ↦ rw (e, e, update-update id xs) refl
  | inr e ↦ rw (e, e, update-update id xs) refl
]

update_by :
    (b : Bool) (id : Text) (xs : Table)
    → (if b
        then update_where (row_with_id id) stop (update_where (row_with_id id) bump xs)
        else update_where (row_with_id id) bump xs)
      ≡ update_where (row_with_id id) (λ x. if b then stop (bump x) else bump x) xs
update_by true id xs = update-update id xs
update_by false id xs = refl

fire_row_lem :
    (row : ReminderRow) (table : Table)
    → fire_row row table ≡ update_where (row_with_id row.id) (fired row) table
unfolding fire_row
fire_row_lem row table = update_by (exhausts row) row.id table

fired-KeepsId : (row : ReminderRow) → KeepsId (fired row)
fired-KeepsId row x = elim (Bool-cases (exhausts row)) [ inl e ↦ rw e refl | inr e ↦ rw e refl ]

fired-within :
    (row : ReminderRow) → row.active ≡ true → within row ≡ true → within (fired row row) ≡ true
unfolding exhausts
fired-within row a h = ground arith

fired_self : (row : ReminderRow) → fired row row ≡ mirrored row
unfolding mirrored
fired_self row = refl

fire_row-IsSound :
    (row : ReminderRow) (table : Table)
    → IsSound table
    → Memᴰ row table
    → row.active ≡ true
    → IsSound (fire_row row table)
fire_row-IsSound row table ok m a = rw (fire_row_lem row table) (record {
  distinct = distinct-update _ (fired row) table (fired-KeepsId row) ∙ ok.distinct;
  all_within = all-update within (row_with_id row.id) (fired row) table ok.all_within (λ x n e w.
      let same : row ≡ x = same_row table row x ok.distinct m n (text_eq_sym row.id x.id ∙ e) in
      rw (sym same) (fired-within row a (all_mem within table row ok.all_within m)));
})

-- The rows of another id stay.
kept_row :
    (row x : ReminderRow) (table : Table)
    → Memᴰ x table
    → text_eq x.id row.id ≡ false
    → Memᴰ x (fire_row row table)
kept_row row x table m e = rw (fire_row_lem row table) (
    subst (λ y. Memᴰ y (update_where (row_with_id row.id) (fired row) table)) (rw e refl)
      (mem-update (row_with_id row.id) (fired row) table x m))

other_id :
    (row x : ReminderRow) (rows : List ReminderRow)
    → distinct_ids (row ∷ rows) ≡ true
    → Memᴰ x rows
    → text_eq x.id row.id ≡ false
other_id row x rows h m = elim (Bool-cases (text_eq x.id row.id)) [
  | inl e ↦ absurd (ground (arith, any_of_mem (row_with_id row.id) rows x m e))
  | inr e ↦ e
]

rest-IsPicked :
    (row : ReminderRow) (rows : List ReminderRow) (table : Table)
    → IsPicked (row ∷ rows) table
    → IsPicked rows (fire_row row table)
rest-IsPicked row rows table picked = record {
  each = λ x m.
      let (n, a) = picked.each x (Memᴰ.tail m) in
      (kept_row row x table n (other_id row x rows picked.once m), a);
  once = (and-eq-true _ _ picked.once).1;
}

pub fire_rows-IsSound :
    (rows : List ReminderRow) (table : Table)
    → IsSound table
    → IsPicked rows table
    → IsSound (fire_rows rows table)
unfolding fire_rows
fire_rows-IsSound [] table ok picked = ok
fire_rows-IsSound (row ∷ rows) table ok picked =
    let (m, a) = picked.each row (Memᴰ.head refl) in
    fire_rows-IsSound rows (fire_row row table) (fire_row-IsSound row table ok m a)
      (rest-IsPicked row rows table picked)

kept_rows :
    (x : ReminderRow) (rows : List ReminderRow) (table : Table)
    → Memᴰ x table
    → any (row_with_id x.id) rows ≡ false
    → Memᴰ x (fire_rows rows table)
unfolding fire_rows
kept_rows x [] table m h = m
kept_rows x (row ∷ rows) table m h =
    kept_rows x rows (fire_row row table)
      (kept_row row x table m (text_eq_sym x.id row.id ∙ ground arith)) (ground arith)

mirrored_id : (row : ReminderRow) → (mirrored row).id ≡ row.id
unfolding mirrored
mirrored_id row = elim (Bool-cases (exhausts row)) [ inl e ↦ rw e refl | inr e ↦ rw e refl ]

fired_row :
    (row : ReminderRow) (table : Table) → Memᴰ row table → Memᴰ (mirrored row) (fire_row row table)
fired_row row table m = rw (fire_row_lem row table) (
    subst (λ y. Memᴰ y (update_where (row_with_id row.id) (fired row) table))
      (rw (text_eq_refl row.id) (fired_self row))
      (mem-update (row_with_id row.id) (fired row) table row m))

pub fire_rows-mirrored :
    (rows : List ReminderRow) (table : Table)
    → IsPicked rows table
    → All (λ r. Memᴰ r (fire_rows rows table)) (map mirrored rows)
unfolding fire_rows
fire_rows-mirrored [] table picked = tt
fire_rows-mirrored (row ∷ rows) table picked =
    let (m, a) = picked.each row (Memᴰ.head refl) in
    let free : any (row_with_id (mirrored row).id) rows ≡ false =
      rw (mirrored_id row) (ground (arith, picked.once)) in
    (
      kept_rows (mirrored row) rows (fire_row row table) (fired_row row table m) free,
      fire_rows-mirrored rows (fire_row row table) (rest-IsPicked row rows table picked),
    )

pub live_active :
    (project : Option Text) (row : ReminderRow) → is_live project row ≡ true → row.active ≡ true
unfolding is_live
live_active project row h = (and-eq-true _ _ h).0

-- What a test that implies activity selects.
pub kept-IsPicked :
    (p : ReminderRow → Bool) (table : Table)
    → ((row : ReminderRow) → p row ≡ true → row.active ≡ true)
    → distinct_ids table ≡ true
    → IsPicked (take max_fired_per_prompt (keep p table)) table
kept-IsPicked p table h distinct = record {
  each = λ row m.
      let (n, e) =
        mem_of_keep p table row (mem_of_take max_fired_per_prompt (keep p table) row m) in
      (n, h row e);
  once = distinct-take max_fired_per_prompt (keep p table) (distinct-keep p table distinct);
}

pub part-IsPicked :
    (q : ReminderRow → Bool) (rows : List ReminderRow) (table : Table)
    → IsPicked rows table
    → IsPicked (keep q rows) table
part-IsPicked q rows table picked = record {
  each = λ row m. picked.each row (mem_of_keep q rows row m).0;
  once = distinct-keep q rows picked.once;
}

pub none-IsPicked : (table : Table) → IsPicked [] table
none-IsPicked table = record { each = λ row m. elim m [ ]; once = refl }
