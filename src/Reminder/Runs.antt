-- ===== src/Reminder/Runs.antt =====
-- src/db/reminder-repository.ts: runs of the repository's operations.
use cairn_memory.Base.{ℕ, Bool, Option, List, [], ◌∷◌}
use cairn_memory.Base.Text.{Text}
use cairn_memory.Reminder.{
  Table, ReminderTriggerConfig, CreateReminderInput, create, check_and_fire, check_file_reminders,
  check_time_reminders, check_conditional_reminders, deactivate, delete,
}
use cairn_memory.Reminder.Condition.{ConditionContext}

-- What the repository asks of SQLite and of the language.
pub record Engine : Type 0 where
  pub fts_match : Text → Option (Text → Bool)
  pub stringify : ReminderTriggerConfig → Text
  pub like : Text → Text → Bool
  pub to_number : Text → Option ℕ

-- A call of an operation that writes; a create takes its new id and the time.
pub data ReminderCall : Type 0 where
  creates : Text → ℕ → CreateReminderInput → ReminderCall
  checks_prompt : Text → Option Text → ReminderCall
  checks_file : Text → Option Text → ReminderCall
  checks_time : Text → Option Text → ReminderCall
  checks_condition : ConditionContext → Option Text → ReminderCall
  deactivates deletes : Text → ReminderCall

module _ (engine : Engine) where
  unfoldable pub run_call : Table → ReminderCall → Table
  run_call table (creates id now input) = (create id now input table).1
  run_call table (checks_prompt text project) =
      (check_and_fire engine.fts_match text project table).1
  run_call table (checks_file path project) =
      (check_file_reminders engine.stringify engine.like path project table).1
  run_call table (checks_time now_iso project) = (check_time_reminders now_iso project table).1
  run_call table (checks_condition ctx project) =
      (check_conditional_reminders engine.to_number ctx project table).1
  run_call table (deactivates id) = (deactivate id table).1
  run_call table (deletes id) = (delete id table).1

  unfoldable pub run_calls : Table → List ReminderCall → Table
  unfolding run_call
  run_calls table [] = table
  run_calls table (call ∷ calls) = run_calls (run_call table call) calls
