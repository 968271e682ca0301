-- ===== src/Plan/Query.antt =====
-- src/db/plan-repository.ts: what the repository reads.
use cairn_memory.Base.{
  map_option, ℕ, ◌-◌, Bool, not, Option, none, some, List, [], ◌∷◌, ◌++◌, map, ltb, keep, find,
  head?, drop, length, or_else,
}
use cairn_memory.Base.Text.{Text, text_eq}
use cairn_memory.Base.Sorting.{sort_by}
use cairn_memory.Plan.{
  PlanStatus, StepStatus, PlanRow, Note, StepRow, DecisionRow, PlanStore, is_done, is_pending,
  is_in_progress, of_plan, at_step, active_of,
}

pub record PlanStep : Type 0 where
  pub plan_id : Text
  pub step_id : ℕ
  pub description : Text
  pub status : StepStatus
  pub depends_on : List ℕ
  pub outcome : Option Text
  pub blockers : Option Text
  pub notes : List Note

pub record PlanDecision : Type 0 where
  pub id : Text
  pub plan_id : Text
  pub step_id : Option ℕ
  pub chose : Text
  pub why : Text
  pub alternatives : List Text
  pub permanent : Bool
  pub decided_at : ℕ

pub record Plan : Type 0 where
  pub id : Text
  pub project : Text
  pub name : Text
  pub status : PlanStatus
  pub created_at : ℕ
  pub updated_at : ℕ
  pub steps : List PlanStep
  pub decisions : List PlanDecision

pub data PlanFilter : Type 0 where
  full only_active current decisions_only : PlanFilter

unfoldable pub row_to_step : StepRow → PlanStep
row_to_step row = record {
  plan_id = row.plan_id;
  step_id = row.step_id;
  description = row.description;
  status = row.status;
  depends_on = or_else row.depends_on [];
  outcome = row.outcome;
  blockers = row.blockers;
  notes = or_else row.notes [];
}

unfoldable pub row_to_decision : DecisionRow → PlanDecision
row_to_decision row = record {
  id = row.id;
  plan_id = row.plan_id;
  step_id = row.step_id;
  chose = row.chose;
  why = row.why;
  alternatives = or_else row.alternatives [];
  permanent = row.permanent;
  decided_at = row.decided_at;
}

abbrev pub and_then : {A B : Type 0} → Option A → (A → Option B) → Option B
and_then none f = none
and_then (some a) f = f a

-- `ORDER BY step_id`, `ORDER BY decided_at` and `ORDER BY updated_at DESC`.
unfoldable pub by_step_id : StepRow → StepRow → Bool
by_step_id a b = ltb a.step_id b.step_id

unfoldable pub by_decided_at : DecisionRow → DecisionRow → Bool
by_decided_at a b = ltb a.decided_at b.decided_at

unfoldable pub latest_updated : PlanRow → PlanRow → Bool
latest_updated a b = ltb b.updated_at a.updated_at

unfoldable pub get_step : Text → ℕ → PlanStore → Option PlanStep
unfolding row_to_step
get_step plan n store = map_option row_to_step (find (at_step plan n) store.steps)

unfoldable pub get_steps : Text → PlanStore → List PlanStep
unfolding row_to_step
get_steps plan store = map row_to_step (sort_by by_step_id (keep (of_plan plan) store.steps))

unfoldable pub get_decisions : Text → PlanStore → List PlanDecision
unfolding row_to_decision
get_decisions plan store =
    map row_to_decision (sort_by by_decided_at (keep (λ d. text_eq d.plan_id plan) store.decisions))

unfoldable pub build_plan : PlanStore → PlanRow → Plan
unfolding get_steps get_decisions
build_plan store row = record {
  id = row.id;
  project = row.project;
  name = row.name;
  status = row.status;
  created_at = row.created_at;
  updated_at = row.updated_at;
  steps = get_steps row.id store;
  decisions = get_decisions row.id store;
}

unfoldable pub get_by_id : Text → PlanStore → Option Plan
unfolding build_plan
get_by_id plan store = map_option (build_plan store) (find (λ row. text_eq row.id plan) store.plans)

unfoldable pub active_row : Text → PlanStore → Option PlanRow
active_row project store = head? (sort_by latest_updated (keep (active_of project) store.plans))

unfoldable pub get_active : Text → PlanStore → Option Plan
unfolding build_plan active_row
get_active project store = map_option (build_plan store) (active_row project store)

abbrev to_list : {A : Type 0} → Option A → List A
to_list none = []
to_list (some a) = a ∷ []

abbrev with_content : Plan → List PlanStep → List PlanDecision → Plan
with_content plan steps decisions = record {
  id = plan.id;
  project = plan.project;
  name = plan.name;
  status = plan.status;
  created_at = plan.created_at;
  updated_at = plan.updated_at;
  steps = steps;
  decisions = decisions;
}

unfoldable pub filter_plan : PlanFilter → Plan → Plan
filter_plan full plan = plan
filter_plan only_active plan =
    with_content plan (keep (λ s. not (is_done s.status)) plan.steps) plan.decisions
filter_plan current plan =
    with_content plan
      (to_list (find (λ s. is_in_progress s.status) plan.steps)
        ++ to_list (find (λ s. is_pending s.status) plan.steps))
      (drop (length plan.decisions - 3) plan.decisions)
filter_plan decisions_only plan = with_content plan [] plan.decisions

unfoldable pub get_filtered : Text → PlanFilter → PlanStore → Option Plan
unfolding get_active filter_plan
get_filtered project filter store = map_option (filter_plan filter) (get_active project store)
