-- ===== src/Reminder/Laws/Reached.antt =====
-- What holds of the reminders after any run of the repository's operations.
use cairn_memory.Base.{
  ℕ, ◌≤◌, ◌<◌, ◌≡◌, refl, ◌∙◌, inl, inr, Bool, true, Option, none, some, List, [], ◌∷◌, Memᴰ, All,
  any, take, leb, arith, Bool-cases, and-eq-true, all_mem,
}
use cairn_memory.Base.Text.{Text, text_eq}
use cairn_memory.Validation.{sanitize, trim}
use cairn_memory.Reminder.{
  ReminderRow, Table, CreateReminderInput, row_with_id, stop, prompt_rows, matching_rows, file_rows,
  time_rows, conditional_rows, create, deactivate, delete, check_and_fire, check_file_reminders,
  check_time_reminders, check_conditional_reminders, fire_mirrored, new_row, active_count,
  max_active, max_action_chars, max_trigger_chars, active_with_id,
}
use cairn_memory.Reminder.Condition.{ConditionContext}
use cairn_memory.Reminder.Runs.{
  Engine, ReminderCall, creates, checks_prompt, checks_file, checks_time, checks_condition,
  deactivates, deletes, run_call, run_calls,
}
use cairn_memory.Reminder.Laws.{
  distinct-update, distinct-keep, distinct-snoc, all-update, all-keep, all-snoc,
}
use cairn_memory.Reminder.Laws.Fires.{
  within, IsSound, IsPicked, fire_rows-IsSound, fire_rows-mirrored, live_active, kept-IsPicked,
  part-IsPicked, none-IsPicked,
}

module _ (engine : Engine) (project : Option Text) (table : Table) (ok : IsSound table) where
  matching_rows-IsPicked :
      (found : Option (Text → Bool)) → IsPicked (matching_rows project table found) table
  unfolding matching_rows
  matching_rows-IsPicked none = none-IsPicked table
  matching_rows-IsPicked (some matches) =
      kept-IsPicked _ table (λ row h. live_active project row (and-eq-true _ _ h).1) ok.distinct

  prompt_rows-IsPicked :
      (text : Text) → IsPicked (prompt_rows engine.fts_match text project table) table
  unfolding prompt_rows
  prompt_rows-IsPicked text = matching_rows-IsPicked _

  file_rows-IsPicked :
      (path : Text) → IsPicked (file_rows engine.stringify engine.like path project table) table
  unfolding file_rows
  file_rows-IsPicked path =
      kept-IsPicked _ table
        (λ row h. live_active project row (and-eq-true _ _ (and-eq-true _ _ h).0).0) ok.distinct

  time_rows-IsPicked : (now_iso : Text) → IsPicked (time_rows now_iso project table) table
  unfolding time_rows
  time_rows-IsPicked now_iso = part-IsPicked _ _ table (
      kept-IsPicked _ table
        (λ row h. live_active project row (and-eq-true _ _ (and-eq-true _ _ h).0).0) ok.distinct)

  conditional_rows-IsPicked :
      (ctx : ConditionContext)
      → IsPicked (conditional_rows engine.to_number ctx project table) table
  unfolding conditional_rows
  conditional_rows-IsPicked ctx = part-IsPicked _ _ table (
      kept-IsPicked _ table
        (λ row h. live_active project row (and-eq-true _ _ (and-eq-true _ _ h).0).0) ok.distinct)

create-IsSound :
    (id : Text) (now : ℕ) (input : CreateReminderInput) (table : Table)
    → IsSound table
    → IsSound (create id now input table).1
unfolding create
create-IsSound id now input table ok =
    let trigger = take max_trigger_chars (sanitize input.trigger) in
    let action = take max_action_chars (sanitize input.action) in
    elim (Bool-cases (text_eq (trim trigger) [])) [
      | inl e ↦ rw e ok
      | inr e ↦ elim (Bool-cases (text_eq (trim action) [])) [
        | inl f ↦ rw (e, f) ok
        | inr f ↦ elim (Bool-cases (leb max_active (active_count input.project table))) [
          | inl g ↦ rw (e, f, g) ok
          | inr g ↦ elim (Bool-cases (any (row_with_id id) table)) [
            | inl h ↦ rw (e, f, g, h) ok
            | inr h ↦
                rw (e, f, g, h)
                  (record {
                    distinct =
                        distinct-snoc table (new_row id now trigger action input) ok.distinct h;
                    all_within =
                        all-snoc within table (new_row id now trigger action input) ok.all_within
                          (ground arith);
                  })
          ]
        ]
      ]
    ]

deactivate-IsSound : (id : Text) (table : Table) → IsSound table → IsSound (deactivate id table).1
unfolding deactivate
deactivate-IsSound id table ok = record {
  distinct = distinct-update (active_with_id id) stop table (λ x. refl) ∙ ok.distinct;
  all_within =
      all-update within (active_with_id id) stop table ok.all_within (λ x m e w. ground arith);
}

delete-IsSound : (id : Text) (table : Table) → IsSound table → IsSound (delete id table).1
unfolding delete
delete-IsSound id table ok = record {
  distinct = distinct-keep _ table ok.distinct;
  all_within = all-keep within _ table ok.all_within;
}

run_call-IsSound :
    (engine : Engine) (call : ReminderCall) (table : Table)
    → IsSound table
    → IsSound (run_call engine table call)
unfolding run_call check_and_fire check_file_reminders check_time_reminders
    check_conditional_reminders fire_mirrored
run_call-IsSound engine (creates id now input) table ok = create-IsSound id now input table ok
run_call-IsSound engine (checks_prompt text project) table ok =
    fire_rows-IsSound _ table ok (prompt_rows-IsPicked engine project table ok text)
run_call-IsSound engine (checks_file path project) table ok =
    fire_rows-IsSound _ table ok (file_rows-IsPicked engine project table ok path)
run_call-IsSound engine (checks_time now_iso project) table ok =
    fire_rows-IsSound _ table ok (time_rows-IsPicked engine project table ok now_iso)
run_call-IsSound engine (checks_condition ctx project) table ok =
    fire_rows-IsSound _ table ok (conditional_rows-IsPicked engine project table ok ctx)
run_call-IsSound engine (deactivates id) table ok = deactivate-IsSound id table ok
run_call-IsSound engine (deletes id) table ok = delete-IsSound id table ok

run_calls-IsSound :
    (engine : Engine) (calls : List ReminderCall) (table : Table)
    → IsSound table
    → IsSound (run_calls engine table calls)
unfolding run_calls
run_calls-IsSound engine [] table ok = ok
run_calls-IsSound engine (call ∷ calls) table ok =
    run_calls-IsSound engine calls (run_call engine table call)
      (run_call-IsSound engine call table ok)

reached : (engine : Engine) (calls : List ReminderCall) → IsSound (run_calls engine [] calls)
reached engine calls =
    run_calls-IsSound engine calls [] (record { distinct = refl; all_within = refl })

within_sound :
    (row : ReminderRow)
    → within row ≡ true
    → 0 < row.max_fires
    → (row.fire_count ≤ row.max_fires) × (row.active ≡ true → row.fire_count < row.max_fires)
within_sound row h limited = (ground arith, λ a. ground arith)

-- After any run from an empty table, a reminder with a limit of fires has fired no more often than
-- that, and one that is still active has fires left.
pub fires_bounded :
    (engine : Engine) (calls : List ReminderCall) (row : ReminderRow)
    → Memᴰ row (run_calls engine [] calls)
    → 0 < row.max_fires
    → (row.fire_count ≤ row.max_fires) × (row.active ≡ true → row.fire_count < row.max_fires)
fires_bounded engine calls row m limited =
    within_sound row (all_mem within _ row (reached engine calls).all_within m) limited

-- In a table that a run reached from an empty one, the reminders that a check of a prompt, a path
-- or the time returns are rows of the table that it leaves.
pub returned_are_stored :
    (engine : Engine) (calls : List ReminderCall) (project : Option Text) (text : Text)
    → let table = run_calls engine [] calls in
      let on_prompt = check_and_fire engine.fts_match text project table in
      let on_file = check_file_reminders engine.stringify engine.like text project table in
      let on_time = check_time_reminders text project table in
      All (λ row. Memᴰ row on_prompt.1) on_prompt.0
      × All (λ row. Memᴰ row on_file.1) on_file.0
      × All (λ row. Memᴰ row on_time.1) on_time.0
unfolding check_and_fire check_file_reminders check_time_reminders fire_mirrored
returned_are_stored engine calls project text =
    let table = run_calls engine [] calls in
    let ok = reached engine calls in
    (
      fire_rows-mirrored _ table (prompt_rows-IsPicked engine project table ok text),
      fire_rows-mirrored _ table (file_rows-IsPicked engine project table ok text),
      fire_rows-mirrored _ table (time_rows-IsPicked engine project table ok text),
    )
