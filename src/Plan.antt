-- ===== src/Plan.antt =====
-- src/db/plan-repository.ts: plans, their steps and their decisions. A table is the list of its
-- rows, a statement a function of it; a column that holds JSON text holds the value. A timestamp
-- is a number with the order of the texts that the clock gives; the clock's reading and a new id
-- are arguments.
pub mod Batch
pub mod Calls
pub mod Query
pub mod Steps
pub mod Runs
pub mod Laws
use cairn_memory.Base.{
  ℕ, zero, suc, ◌+◌, Bool, true, false, not, ◌&&◌, ◌||◌, Option, none, some, List, [], ◌∷◌, ◌++◌,
  map, ltb, ◌==◌, if◌then◌else◌, any, all, keep, find, length, count_if, or_else, is_some,
}
use cairn_memory.Base.Text.{Text, text_eq}

pub data PlanStatus : Type 0 where
  active completed abandoned : PlanStatus

pub data StepStatus : Type 0 where
  done in_progress pending blocked : StepStatus

pub record PlanRow : Type 0 where
  pub id : Text
  pub project : Text
  pub name : Text
  pub status : PlanStatus
  pub created_at : ℕ
  pub updated_at : ℕ

pub record Note : Type 0 where
  pub note : Text
  pub at : ℕ

pub record StepRow : Type 0 where
  pub plan_id : Text
  pub step_id : ℕ
  pub description : Text
  pub status : StepStatus
  pub depends_on : Option (List ℕ)
  pub outcome : Option Text
  pub blockers : Option Text
  pub notes : Option (List Note)

pub record DecisionRow : Type 0 where
  pub id : Text
  pub plan_id : Text
  pub step_id : Option ℕ
  pub chose : Text
  pub why : Text
  pub alternatives : Option (List Text)
  pub permanent : Bool
  pub decided_at : ℕ

pub record PlanStore : Type 0 where
  pub plans : List PlanRow
  pub steps : List StepRow
  pub decisions : List DecisionRow

abbrev pub is_active : PlanStatus → Bool
is_active active = true
is_active _ = false

abbrev pub is_done : StepStatus → Bool
is_done done = true
is_done _ = false

abbrev pub is_pending : StepStatus → Bool
is_pending pending = true
is_pending _ = false

abbrev pub is_in_progress : StepStatus → Bool
is_in_progress in_progress = true
is_in_progress _ = false

-- An UPDATE with its WHERE; `count_if` is its number of changes.
abbrev pub update_where : {A : Type 0} → (A → Bool) → (A → A) → List A → List A
update_where p f [] = []
update_where p f (x ∷ xs) = (if p x then f x else x) ∷ update_where p f xs

abbrev pub of_plan : Text → StepRow → Bool
of_plan plan step = text_eq step.plan_id plan

abbrev pub at_step : Text → ℕ → StepRow → Bool
at_step plan n step = text_eq step.plan_id plan && step.step_id == n

abbrev pub active_of : Text → PlanRow → Bool
active_of project plan = text_eq plan.project project && is_active plan.status

abbrev pub set_status : PlanStatus → ℕ → PlanRow → PlanRow
set_status status now plan = record {
  id = plan.id;
  project = plan.project;
  name = plan.name;
  status = status;
  created_at = plan.created_at;
  updated_at = now;
}

abbrev pub touched : ℕ → PlanRow → PlanRow
touched now plan = set_status plan.status now plan

abbrev pub with_id : Text → PlanRow → Bool
with_id id plan = text_eq plan.id id

abbrev pub with_plans : PlanStore → List PlanRow → PlanStore
with_plans store plans = record { plans = plans; steps = store.steps; decisions = store.decisions }

abbrev pub with_steps : PlanStore → List StepRow → PlanStore
with_steps store steps = record { plans = store.plans; steps = steps; decisions = store.decisions }

unfoldable pub archive_active : ℕ → Text → PlanStore → PlanStore
archive_active now project store =
    with_plans store (update_where (active_of project) (set_status abandoned now) store.plans)

unfoldable pub touch_plan : ℕ → Text → PlanStore → PlanStore
touch_plan now plan store = with_plans store (update_where (with_id plan) (touched now) store.plans)

unfoldable pub abandon : ℕ → Text → PlanStore → PlanStore
abandon now plan store =
    with_plans store (update_where (with_id plan) (set_status abandoned now) store.plans)

-- INSERT INTO plan_steps: `none` where the row's plan is missing or its key is taken.
unfoldable pub insert_step : Text → ℕ → Text → Option (List ℕ) → PlanStore → Option PlanStore
insert_step plan n description depends_on store =
    if not (any (with_id plan) store.plans) || any (at_step plan n) store.steps
    then none
    else some (
        with_steps store (
          store.steps
          ++ record {
            plan_id = plan;
            step_id = n;
            description = description;
            status = pending;
            depends_on = depends_on;
            outcome = none;
            blockers = none;
            notes = none;
          }
            ∷ []))
