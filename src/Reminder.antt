-- ===== src/Reminder.antt =====
-- src/db/reminder-repository.ts: reminders, their triggers and how often they fire. The table is
-- the list of its rows in the order of insertion, which is the order an unsorted SELECT reads. The
-- column that holds a trigger's configuration as JSON text holds the value; `JSON.stringify`,
-- which LIKE searches the text of, and LIKE and the full-text MATCH of SQLite are parameters.
pub mod Condition
pub mod Runs
pub mod Laws
use cairn_memory.Base.{
  ◌>>=◌, ℕ, zero, suc, ◌+◌, Bool, true, false, not, ◌&&◌, ◌||◌, Option, none, some, List, [], ◌∷◌,
  ◌++◌, map, ltb, leb, ◌==◌, if◌then◌else◌, any, keep, find, take, length, count_if, or_else,
  is_some,
}
use cairn_memory.Base.Text.{Text, codes, text_eq, text_lt}
use cairn_memory.Base.Sorting.{sort_by}
use cairn_memory.Paths.{split_on}
use cairn_memory.Plan.{update_where}
use cairn_memory.Validation.{sanitize, trim}
use cairn_memory.Reminder.Condition.{ConditionContext, evaluate_condition}
use cairn_memory.Fts.{build_fts_query}

pub data ReminderTriggerType : Type 0 where
  prompt file time conditional : ReminderTriggerType

pub record ReminderTriggerConfig : Type 0 where
  pub file_paths : Option (List Text)
  pub next_due : Option Text
  pub condition : Option Text

pub record ReminderRow : Type 0 where
  pub id : Text
  pub trigger_pattern : Text
  pub action : Text
  pub project : Option Text
  pub fire_count : ℕ
  pub max_fires : ℕ
  pub active : Bool
  pub created_at : ℕ
  pub trigger_type : ReminderTriggerType
  pub trigger_config : Option ReminderTriggerConfig

pub record CreateReminderInput : Type 0 where
  pub trigger : Text
  pub action : Text
  pub project : Option Text
  pub max_fires : Option ℕ
  pub trigger_type : Option ReminderTriggerType
  pub trigger_config : Option ReminderTriggerConfig

abbrev pub Table : Type 0
Table = List ReminderRow

-- `REMINDERS` and `LIMITS.REMINDERS_MAX_FIRE_PER_PROMPT`.
abbrev pub max_active : ℕ
max_active = 20

abbrev pub max_action_chars : ℕ
max_action_chars = 200

abbrev pub max_trigger_chars : ℕ
max_trigger_chars = 200

abbrev pub max_fired_per_prompt : ℕ
max_fired_per_prompt = 3

abbrev pub is_file : ReminderTriggerType → Bool
is_file file = true
is_file _ = false

abbrev pub is_time : ReminderTriggerType → Bool
is_time time = true
is_time _ = false

abbrev pub is_conditional : ReminderTriggerType → Bool
is_conditional conditional = true
is_conditional _ = false

-- `project = ?` of a column and a parameter that may both be NULL.
unfoldable pub same_project : Option Text → Option Text → Bool
same_project none q = false
same_project (some p) none = false
same_project (some p) (some q) = text_eq p q

-- `active = 1 AND (project = ? OR project IS NULL)`.
unfoldable pub is_live : Option Text → ReminderRow → Bool
unfolding same_project
is_live project row = row.active && (same_project row.project project || not (is_some row.project))

abbrev pub row_with_id : Text → ReminderRow → Bool
row_with_id id row = text_eq row.id id

unfoldable pub active_count : Option Text → Table → ℕ
unfolding is_live
active_count project table = count_if (is_live project) table

pub data Creation : Type 0 where
  created : Text → Creation
  trigger_is_empty action_is_empty limit_reached id_taken : Creation

abbrev pub new_row : Text → ℕ → Text → Text → CreateReminderInput → ReminderRow
new_row id now trigger action input = record {
  id = id;
  trigger_pattern = trigger;
  action = action;
  project = input.project;
  fire_count = 0;
  max_fires = or_else input.max_fires 0;
  active = true;
  created_at = now;
  trigger_type = or_else input.trigger_type prompt;
  trigger_config = input.trigger_config;
}

-- `id_taken` is the exception of a primary key that exists.
unfoldable pub create : Text → ℕ → CreateReminderInput → Table → Creation × Table
unfolding active_count
create id now input table =
    let trigger = take max_trigger_chars (sanitize input.trigger) in
    let action = take max_action_chars (sanitize input.action) in
    if text_eq (trim trigger) []
    then (trigger_is_empty, table)
    else if text_eq (trim action) []
    then (action_is_empty, table)
    else if leb max_active (active_count input.project table)
    then (limit_reached, table)
    else if any (row_with_id id) table
    then (id_taken, table)
    else (created id, table ++ new_row id now trigger action input ∷ [])

-- `row.max_fires > 0 && row.fire_count + 1 >= row.max_fires`.
unfoldable pub exhausts : ReminderRow → Bool
exhausts row = ltb 0 row.max_fires && leb row.max_fires (row.fire_count + 1)

abbrev pub bump : ReminderRow → ReminderRow
bump row = record row { fire_count = row.fire_count + 1 }

abbrev pub stop : ReminderRow → ReminderRow
stop row = record row { active = false }

-- One round of the transaction's loop: the statements run by the row's id.
unfoldable pub fire_row : ReminderRow → Table → Table
unfolding exhausts
fire_row row table =
    let bumped = update_where (row_with_id row.id) bump table in
    if exhausts row then update_where (row_with_id row.id) stop bumped else bumped

unfoldable pub fire_rows : List ReminderRow → Table → Table
unfolding fire_row
fire_rows [] table = table
fire_rows (row ∷ rows) table = fire_rows rows (fire_row row table)

-- The update mirrored in the row that is returned.
unfoldable pub mirrored : ReminderRow → ReminderRow
unfolding exhausts
mirrored row = if exhausts row then stop (bump row) else bump row

unfoldable pub fire_mirrored : List ReminderRow → Table → List ReminderRow × Table
unfolding fire_rows mirrored
fire_mirrored rows table = (map mirrored rows, fire_rows rows table)

-- No rows where the query is refused.
unfoldable pub matching_rows : Option Text → Table → Option (Text → Bool) → List ReminderRow
unfolding is_live
matching_rows project table none = []
matching_rows project table (some matches) =
    take max_fired_per_prompt
      (keep (λ row. matches row.trigger_pattern && is_live project row) table)

-- What a check of the prompt selects; `fts_match` gives no test for a query that it refuses.
unfoldable pub prompt_rows :
    (Text → Option (Text → Bool)) → Text → Option Text → Table → List ReminderRow
unfolding matching_rows
prompt_rows fts_match text project table =
    matching_rows project table (build_fts_query text false 10 >>= fts_match)

unfoldable pub check_and_fire :
    (Text → Option (Text → Bool)) → Text → Option Text → Table → List ReminderRow × Table
unfolding prompt_rows fire_mirrored
check_and_fire fts_match text project table =
    fire_mirrored (prompt_rows fts_match text project table) table

-- `filePath.split('/').pop()`.
unfoldable pub last_of : Text → List Text → Text
last_of found [] = found
last_of found (part ∷ parts) = last_of part parts

unfoldable pub path_basename : Text → Text
unfolding last_of split_on
path_basename path = last_of path (split_on b'/' path)

-- `trigger_config LIKE pattern`; NULL is no match.
unfoldable pub config_like :
    (ReminderTriggerConfig → Text)
    → (Text → Text → Bool)
    → Text
    → Option ReminderTriggerConfig
    → Bool
config_like stringify like part none = false
config_like stringify like part (some config) = like (b'%' ∷ part ++ b'%' ∷ []) (stringify config)

unfoldable pub file_rows :
    (ReminderTriggerConfig → Text)
    → (Text → Text → Bool)
    → Text
    → Option Text
    → Table
    → List ReminderRow
unfolding is_live config_like path_basename
file_rows stringify like path project table = take max_fired_per_prompt (
    keep
      (λ row.
        is_live project row
        && is_file row.trigger_type
        && (config_like stringify like (path_basename path) row.trigger_config
            || config_like stringify like path row.trigger_config))
      table)

unfoldable pub check_file_reminders :
    (ReminderTriggerConfig → Text)
    → (Text → Text → Bool)
    → Text
    → Option Text
    → Table
    → List ReminderRow × Table
unfolding file_rows fire_mirrored
check_file_reminders stringify like path project table =
    fire_mirrored (file_rows stringify like path project table) table

-- `config.nextDue && config.nextDue <= nowIso`, of the parsed text.
unfoldable pub is_due : Text → Option ReminderTriggerConfig → Bool
is_due now_iso none = false
is_due now_iso (some config) = elim config.next_due [
  | none ↦ false
  | some due ↦ not (text_eq due []) && not (text_lt now_iso due)
]

-- The limit is taken before the rows are filtered by their time.
unfoldable pub time_rows : Text → Option Text → Table → List ReminderRow
unfolding is_live is_due
time_rows now_iso project table =
    keep (λ row. is_due now_iso row.trigger_config)
      (take max_fired_per_prompt (
        keep (λ row. is_live project row && is_time row.trigger_type && is_some row.trigger_config)
          table))

unfoldable pub check_time_reminders : Text → Option Text → Table → List ReminderRow × Table
unfolding time_rows fire_mirrored
check_time_reminders now_iso project table = fire_mirrored (time_rows now_iso project table) table

-- `config.condition && evaluateCondition(config.condition, ctx)`, false where it throws.
unfoldable pub holds : (Text → Option ℕ) → ConditionContext → Option ReminderTriggerConfig → Bool
holds to_number ctx none = false
holds to_number ctx (some config) = elim config.condition [
  | none ↦ false
  | some condition ↦ or_else (evaluate_condition to_number condition ctx) false
]

unfoldable pub conditional_rows :
    (Text → Option ℕ) → ConditionContext → Option Text → Table → List ReminderRow
unfolding is_live holds
conditional_rows to_number ctx project table =
    keep (λ row. holds to_number ctx row.trigger_config)
      (take max_fired_per_prompt (
        keep
          (λ row.
            is_live project row && is_conditional row.trigger_type && is_some row.trigger_config)
          table))

-- Here the rows are returned as they were read.
unfoldable pub check_conditional_reminders :
    (Text → Option ℕ) → ConditionContext → Option Text → Table → List ReminderRow × Table
unfolding conditional_rows fire_rows
check_conditional_reminders to_number ctx project table =
    let rows = conditional_rows to_number ctx project table in (rows, fire_rows rows table)

abbrev newest : ReminderRow → ReminderRow → Bool
newest a b = ltb b.created_at a.created_at

-- `none` is a project that is not given, `some none` the project null.
unfoldable pub list_active : Option (Option Text) → Table → List ReminderRow
unfolding is_live
list_active none table = sort_by newest (keep (λ row. row.active) table)
list_active (some project) table = sort_by newest (keep (is_live project) table)

unfoldable pub find_by_id : Text → Table → Option ReminderRow
find_by_id id table = find (row_with_id id) table

abbrev pub active_with_id : Text → ReminderRow → Bool
active_with_id id row = text_eq row.id id && row.active

unfoldable pub deactivate : Text → Table → Bool × Table
deactivate id table =
    (ltb 0 (count_if (active_with_id id) table), update_where (active_with_id id) stop table)

unfoldable pub delete : Text → Table → Bool × Table
delete id table =
    (ltb 0 (count_if (row_with_id id) table), keep (λ row. not (row_with_id id row)) table)
