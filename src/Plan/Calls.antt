-- ===== src/Plan/Calls.antt =====
-- src/db/plan-repository.ts: creation, completion and decisions.
use cairn_memory.Base.{
  map_option, ℕ, suc, Bool, false, not, ◌||◌, Option, none, some, List, [], ◌∷◌, ◌++◌, map,
  if◌then◌else◌, any, keep, length, or_else,
}
use cairn_memory.Base.Text.{Text, text_eq}
use cairn_memory.Validation.{Problem, sanitize, validate_step_count}
use cairn_memory.Plan.{
  active, completed, PlanStore, with_plans, with_id, update_where, set_status, archive_active,
  touch_plan, insert_step,
}
use cairn_memory.Plan.Query.{PlanDecision, and_then, get_decisions}

pub record StepInput : Type 0 where
  pub description : Text
  pub depends_on : Option (List ℕ)

pub record CreatePlanInput : Type 0 where
  pub project : Text
  pub name : Text
  pub steps : List StepInput

-- What `create` returns, or why it throws.
pub data Creation : Type 0 where
  created : List Problem → Creation
  refused : List Problem → Creation
  constraint_failed : Creation

unfoldable pub insert_plan : ℕ → Text → CreatePlanInput → PlanStore → Option PlanStore
insert_plan now id input store =
    if any (λ row. text_eq row.id id) store.plans
    then none
    else some (
        with_plans store (
          store.plans
          ++ record {
            id = id;
            project = input.project;
            name = sanitize input.name;
            status = active;
            created_at = now;
            updated_at = now;
          }
            ∷ []))

-- The loop of `create`, from the step numbered `n`.
unfoldable pub insert_steps : Text → ℕ → List StepInput → PlanStore → Option PlanStore
insert_steps id n [] store = some store
insert_steps id n (step ∷ steps) store =
    and_then (insert_step id n (sanitize step.description) step.depends_on store)
      (insert_steps id (suc n) steps)

-- The outcome of the transaction, over the store that it started from.
abbrev commit_or : PlanStore → List Problem → Option PlanStore → Creation × PlanStore
commit_or before warnings none = (constraint_failed, before)
commit_or before warnings (some after) = (created warnings, after)

unfoldable pub create : ℕ → Text → CreatePlanInput → PlanStore → Creation × PlanStore
unfolding insert_plan insert_steps
create now id input store =
    let checked = validate_step_count (length input.steps) in
    let archived = archive_active now input.project store in
    if checked.valid
    then commit_or archived checked.warnings
        (and_then (insert_plan now id input archived) (insert_steps id 1 input.steps))
    else (refused checked.errors, store)

pub record AddDecisionInput : Type 0 where
  pub step_id : Option ℕ
  pub chose : Text
  pub why : Text
  pub alternatives : Option (List Text)
  pub permanent : Option Bool

-- The decision answered with holds the texts as they were given; the row holds them cleaned.
-- `none` where the INSERT throws: no such plan, or the id is taken.
unfoldable pub add_decision :
    ℕ → Text → Text → AddDecisionInput → PlanStore → Option PlanDecision × PlanStore
add_decision now id plan input store =
    if not (any (λ row. text_eq row.id plan) store.plans)
      || any (λ d. text_eq d.id id) store.decisions
    then (none, store)
    else (
      some (record {
        id = id;
        plan_id = plan;
        step_id = input.step_id;
        chose = input.chose;
        why = input.why;
        alternatives = or_else input.alternatives [];
        permanent = or_else input.permanent false;
        decided_at = now;
      }),
      touch_plan now plan (record {
        plans = store.plans;
        steps = store.steps;
        decisions =
            store.decisions
            ++ record {
              id = id;
              plan_id = plan;
              step_id = input.step_id;
              chose = sanitize input.chose;
              why = sanitize input.why;
              alternatives = map_option (map sanitize) input.alternatives;
              permanent = or_else input.permanent false;
              decided_at = now;
            }
              ∷ [];
      }),
    )

-- The permanent decisions, in the order in which they are read.
unfoldable pub complete : ℕ → Text → PlanStore → List PlanDecision × PlanStore
unfolding get_decisions
complete now plan store =
    let after =
      with_plans store (update_where (with_id plan) (set_status completed now) store.plans) in
    (keep (λ (d : PlanDecision). d.permanent) (get_decisions plan after), after)
