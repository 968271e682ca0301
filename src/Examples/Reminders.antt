-- ===== src/Examples/Reminders.antt =====
-- Concrete inputs of the reminders, their conditions and queries, and of the warning budget.
use cairn_memory.Reminder.{create}
use cairn_memory.Validation.{trim}
use cairn_memory.Validation.{sanitize}
use cairn_memory.Validation.{is_space}
use cairn_memory.Reminder.Condition.{upper}
use cairn_memory.Base.{
  ◌≤◌, ◌<◌, ◌≡◌, refl, Bool, true, false, none, some, List, [], ◌∷◌, map, Memᴰ, All, all, length,
  ◌>>=◌, arith,
}
use cairn_memory.Base.Text.{Text, codes, text_eq}
use cairn_memory.Paths.{join_with}
use cairn_memory.Fts.{build_fts_query, quoted, is_word_char}
use cairn_memory.Fts.Laws.{build_fts_query-IsQuoted}
use cairn_memory.Reminder.{
  ReminderRow, CreateReminderInput, check_and_fire, check_file_reminders, check_time_reminders,
  prompt, max_active,
}
use cairn_memory.Reminder.Condition.{ConditionContext, evaluate_condition, eval_atom}
use cairn_memory.Reminder.Condition.Laws.{meaning}
use cairn_memory.Reminder.Condition.Meaning.{evaluate_condition-render}
use cairn_memory.Reminder.Runs.{Engine, ReminderCall, creates, checks_prompt, run_calls}
use cairn_memory.Reminder.Laws.Reached.{fires_bounded, returned_are_stored}
use cairn_memory.Reminder.Laws.Limit.{own_count, active_bounded}
use cairn_memory.Budget.{Tracker, max_warnings_per_turn}
use cairn_memory.Budget.Laws.{given_in_turn, turn_bounded}

-- A full-text search that finds every pattern.
abbrev engine : Engine
engine = record {
  fts_match = λ query. some (λ pattern. true);
  stringify = λ config. [];
  like = λ pattern text. false;
  to_number = λ text. none;
}

abbrev once_only : CreateReminderInput
once_only = record {
  trigger = codes "deploy";
  action = codes "run the smoke tests";
  project = some (codes "cairn");
  max_fires = some 1;
  trigger_type = none;
  trigger_config = none;
}

abbrev fired_once : List ReminderCall
fired_once =
    creates (codes "r1") 7 once_only ∷ checks_prompt (codes "deploy it") (some (codes "cairn")) ∷ []

abbrev spent_row : ReminderRow
spent_row = record {
  id = codes "r1";
  trigger_pattern = codes "deploy";
  action = codes "run the smoke tests";
  project = some (codes "cairn");
  fire_count = 1;
  max_fires = 1;
  active = false;
  created_at = 7;
  trigger_type = prompt;
  trigger_config = none;
}

fires_bounded_example : (1 ≤ 1) × (false ≡ true → 1 < 1)
unfolding run_calls check_and_fire build_fts_query create text_eq trim sanitize is_space
fires_bounded_example = fires_bounded engine fired_once spent_row (Memᴰ.head refl) (omega arith)

active_bounded_example :
    own_count (some (codes "cairn")) (run_calls engine [] fired_once) ≤ max_active
active_bounded_example = active_bounded engine fired_once (some (codes "cairn"))

abbrev created_once : List ReminderCall
created_once = creates (codes "r1") 7 once_only ∷ []

returned_are_stored_example :
    let table = run_calls engine [] created_once in
    let text = codes "deploy it" in
    let project = some (codes "cairn") in
    let on_prompt = check_and_fire engine.fts_match text project table in
    let on_file = check_file_reminders engine.stringify engine.like text project table in
    let on_time = check_time_reminders text project table in
    All (λ row. Memᴰ row on_prompt.1) on_prompt.0
    × All (λ row. Memᴰ row on_file.1) on_file.0
    × All (λ row. Memᴰ row on_time.1) on_time.0
returned_are_stored_example =
    returned_are_stored engine created_once (some (codes "cairn")) (codes "deploy it")

abbrev ctx : ConditionContext
ctx = record {
  branch = some (codes "main");
  tool_name = some (codes "Bash");
  file_path = none;
  tool_success = some true;
  tests_pass = true;
  has_recent_errors = false;
  error_count = 0;
  session_type = none;
  context_mode = codes "normal";
  plan_active = false;
  plan_complete = false;
  step_statuses = [];
}

abbrev after_first : List (Bool × Text)
after_first = (true, codes "plan_active") ∷ (false, codes "branch:main") ∷ []

evaluate_condition-render_example :
    evaluate_condition (λ text. none) (codes "tests_pass AND plan_active OR branch:main") ctx ≡ (
      eval_atom (λ text. none) ctx (codes "tests_pass")
      >>= (λ value. meaning (λ text. none) ctx value after_first))
unfolding is_space text_eq upper
evaluate_condition-render_example =
    evaluate_condition-render (λ text. none) ctx (codes "tests_pass") after_first refl refl
      (omega arith)

build_fts_query-IsQuoted_example :
    (terms : List Text) × (codes "\"deploy\" OR \"the\""
      ≡ join_with (codes " OR ") (map quoted terms))
    × (length terms ≤ 10)
    × ((word : Text) → Memᴰ word terms → (all is_word_char word ≡ true) × (2 < length word))
unfolding build_fts_query join_with
build_fts_query-IsQuoted_example =
    build_fts_query-IsQuoted (codes "Deploy: the") false 10 (codes "\"deploy\" OR \"the\"") refl

abbrev fresh_tracker : Tracker
fresh_tracker = record { sequence = none; turn_key = none; tokens = none; count = none }

turn_bounded_example :
    given_in_turn
      (λ n. [])
      (codes "turn-1")
      ((none, some 40) ∷ (some (codes "use-2"), some 30) ∷ [])
      fresh_tracker
    ≤ max_warnings_per_turn
unfolding text_eq
turn_bounded_example =
    turn_bounded (λ n. []) (codes "turn-1") ((none, some 40) ∷ (some (codes "use-2"), some 30) ∷ [])
      fresh_tracker refl
