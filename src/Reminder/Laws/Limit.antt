-- ===== src/Reminder/Laws/Limit.antt =====
-- How many reminders of a project, or of none, are active.
use cairn_memory.Base.{
  ℕ, ◌≤◌, ◌≡◌, refl, sym, inl, inr, Bool, true, false, not, ◌&&◌, Option, none, some, List, [], ◌∷◌,
  ◌++◌, any, keep, count_if, take, leb, arith, Bool-cases, is_some,
}
use cairn_memory.Base.Text.{Text, text_eq, text_eq_sound}
use cairn_memory.Plan.{update_where}
use cairn_memory.Plan.Laws.{count-update_where_le}
use cairn_memory.Validation.{sanitize, trim}
use cairn_memory.Reminder.{
  ReminderRow, Table, CreateReminderInput, row_with_id, bump, stop, exhausts, fire_row, fire_rows,
  is_live, same_project, create, deactivate, delete, new_row, active_count, max_active,
  max_action_chars, max_trigger_chars, active_with_id, check_and_fire, check_file_reminders,
  check_time_reminders, check_conditional_reminders, fire_mirrored, prompt_rows, file_rows,
  time_rows, conditional_rows,
}
use cairn_memory.Reminder.Runs.{
  Engine, ReminderCall, creates, checks_prompt, checks_file, checks_time, checks_condition,
  deactivates, deletes, run_call, run_calls,
}

-- An active reminder of the project, or of none.
abbrev pub is_own : Option Text → ReminderRow → Bool
is_own none row = row.active && not (is_some row.project)
is_own (some p) row = row.active && same_project row.project (some p)

abbrev pub own_count : Option Text → Table → ℕ
own_count project table = count_if (is_own project) table

own_active : (q : Option Text) (row : ReminderRow) → is_own q (stop row) ≡ false
own_active none row = refl
own_active (some p) row = refl

own_bump : (q : Option Text) (row : ReminderRow) → is_own q (bump row) ≡ is_own q row
own_bump none row = refl
own_bump (some p) row = refl

stop_le :
    (q : Option Text) (w : ReminderRow → Bool) (table : Table)
    → own_count q (update_where w stop table) ≤ own_count q table
stop_le q w table =
    count-update_where_le (is_own q) w stop table (λ x h. absurd (cc (own_active q x)))

bump_le :
    (q : Option Text) (w : ReminderRow → Bool) (table : Table)
    → own_count q (update_where w bump table) ≤ own_count q table
bump_le q w table = count-update_where_le (is_own q) w bump table (λ x h. cc (own_bump q x))

fire_row_le :
    (q : Option Text) (row : ReminderRow) (table : Table)
    → own_count q (fire_row row table) ≤ own_count q table
unfolding fire_row
fire_row_le q row table =
    let bumped = update_where (row_with_id row.id) bump table in
    let few = bump_le q (row_with_id row.id) table in
    elim (Bool-cases (exhausts row)) [
      | inl e ↦ rw e (omega (arith, few, stop_le q (row_with_id row.id) bumped))
      | inr e ↦ rw e few
    ]

fire_rows_le :
    (q : Option Text) (rows : List ReminderRow) (table : Table)
    → own_count q (fire_rows rows table) ≤ own_count q table
unfolding fire_rows
fire_rows_le q [] table = omega arith
fire_rows_le q (row ∷ rows) table =
    omega (arith, fire_rows_le q rows (fire_row row table), fire_row_le q row table)

count-keep_le : {A : Type 0} (p k : A → Bool) (xs : List A) → count_if p (keep k xs) ≤ count_if p xs
count-keep_le p k [] = omega arith
count-keep_le p k (x ∷ xs) = ground (arith, count-keep_le p k xs)

count-snoc :
    {A : Type 0} (p : A → Bool) (xs : List A) (x : A)
    → count_if p (xs ++ x ∷ []) ≡ count_if p (x ∷ xs)
count-snoc p [] x = refl
count-snoc p (y ∷ xs) x = ground (arith, count-snoc p xs x)

count_mono :
    {A : Type 0} (p k : A → Bool) (xs : List A)
    → ((x : A) → p x ≡ true → k x ≡ true)
    → count_if p xs ≤ count_if k xs
count_mono p k [] h = omega arith
count_mono p k (x ∷ xs) h = let here = h x in ground (arith, count_mono p k xs h, here)

own_live : (q : Option Text) (row : ReminderRow) → is_own q row ≡ true → is_live q row ≡ true
unfolding is_live
own_live none row h = ground arith
own_live (some p) row h = ground arith

-- The project of a new row decides whose it is.
own_project : (q : Option Text) (row : ReminderRow) → is_own q row ≡ true → row.project ≡ q
unfolding same_project
own_project q row h = go q row.project row.active h
  where
    go :
        (q project : Option Text) (active : Bool)
        → is_own q (record row { project = project; active = active }) ≡ true
        → project ≡ q
    go none none active h = refl
    go none (some p) active h = absurd (ground arith)
    go (some q) none active h = absurd (ground arith)
    go (some q) (some p) active h = rw (text_eq_sound p q (ground arith)) refl

added_bound :
    (q : Option Text) (row : ReminderRow) (table : Table)
    → own_count q table ≤ max_active
    → leb max_active (active_count row.project table) ≡ false
    → own_count q (table ++ row ∷ []) ≤ max_active
unfolding active_count
added_bound q row table few room =
    rw (count-snoc (is_own q) table row) (elim (Bool-cases (is_own q row)) [
      | inl e ↦
          let under : leb max_active (active_count q table) ≡ false =
            rw (sym (own_project q row e)) room in
          rw e (ground (arith, under, count_mono (is_own q) (is_live q) table (own_live q)))
      | inr e ↦ rw e few
    ])

create_bound :
    (q : Option Text) (id : Text) (now : ℕ) (input : CreateReminderInput) (table : Table)
    → own_count q table ≤ max_active
    → own_count q (create id now input table).1 ≤ max_active
unfolding create
create_bound q id now input table few =
    let trigger = take max_trigger_chars (sanitize input.trigger) in
    let action = take max_action_chars (sanitize input.action) in
    elim (Bool-cases (text_eq (trim trigger) [])) [
      | inl e ↦ rw e few
      | inr e ↦ elim (Bool-cases (text_eq (trim action) [])) [
        | inl f ↦ rw (e, f) few
        | inr f ↦ elim (Bool-cases (leb max_active (active_count input.project table))) [
          | inl g ↦ rw (e, f, g) few
          | inr g ↦ elim (Bool-cases (any (row_with_id id) table)) [
            | inl h ↦ rw (e, f, g, h) few
            | inr h ↦
                rw (e, f, g, h) (added_bound q (new_row id now trigger action input) table few g)
          ]
        ]
      ]
    ]

within_bound : {a b : ℕ} → a ≤ b → b ≤ max_active → a ≤ max_active
within_bound le few = omega (arith, le, few)

run_call_bound :
    (engine : Engine) (q : Option Text) (call : ReminderCall) (table : Table)
    → own_count q table ≤ max_active
    → own_count q (run_call engine table call) ≤ max_active
unfolding run_call check_and_fire check_file_reminders check_time_reminders
    check_conditional_reminders fire_mirrored deactivate delete
run_call_bound engine q (creates id now input) table few = create_bound q id now input table few
run_call_bound engine q (checks_prompt text project) table few =
    within_bound (fire_rows_le q (prompt_rows engine.fts_match text project table) table) few
run_call_bound engine q (checks_file path project) table few =
    within_bound (fire_rows_le q (file_rows engine.stringify engine.like path project table) table)
      few
run_call_bound engine q (checks_time now_iso project) table few =
    within_bound (fire_rows_le q (time_rows now_iso project table) table) few
run_call_bound engine q (checks_condition ctx project) table few =
    within_bound (fire_rows_le q (conditional_rows engine.to_number ctx project table) table) few
run_call_bound engine q (deactivates id) table few =
    within_bound (stop_le q (active_with_id id) table) few
run_call_bound engine q (deletes id) table few = within_bound (count-keep_le _ _ table) few

run_calls_bound :
    (engine : Engine) (q : Option Text) (calls : List ReminderCall) (table : Table)
    → own_count q table ≤ max_active
    → own_count q (run_calls engine table calls) ≤ max_active
unfolding run_calls
run_calls_bound engine q [] table few = few
run_calls_bound engine q (call ∷ calls) table few =
    run_calls_bound engine q calls (run_call engine table call)
      (run_call_bound engine q call table few)

-- After any run from an empty table, every project has at most twenty active reminders of its own,
-- and so has the absence of a project.
pub active_bounded :
    (engine : Engine) (calls : List ReminderCall) (project : Option Text)
    → own_count project (run_calls engine [] calls) ≤ max_active
active_bounded engine calls project = run_calls_bound engine project calls [] (omega arith)
