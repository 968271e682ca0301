-- ===== src/Examples/Batch.antt =====
-- Two plans of a project, whose steps stand mixed in the table.
use cairn_memory.Base.{ℕ, ◌≡◌, refl, none, List, [], ◌∷◌, map}
use cairn_memory.Base.Text.{Text, codes, text_eq}
use cairn_memory.Plan.{PlanStatus, active, completed, StepRow, PlanRow, PlanStore, pending}
use cairn_memory.Plan.Query.{build_plan}
use cairn_memory.Plan.Batch.{listed_rows, list_by_project}
use cairn_memory.Plan.Batch.Laws.{list_by_project-build_plan}

abbrev row : Text → PlanStatus → PlanRow
row id status = record {
  id = id;
  project = codes "cairn";
  name = codes "plan";
  status = status;
  created_at = 1;
  updated_at = 1;
}

abbrev step : Text → ℕ → StepRow
step id n = record {
  plan_id = id;
  step_id = n;
  description = codes "write";
  status = pending;
  depends_on = none;
  outcome = none;
  blockers = none;
  notes = none;
}

abbrev store : PlanStore
store = record {
  plans = row (codes "a") completed ∷ row (codes "b") active ∷ [];
  steps = step (codes "b") 2 ∷ step (codes "a") 1 ∷ step (codes "b") 1 ∷ step (codes "a") 2 ∷ [];
  decisions = [];
}

active_first :
    listed_rows (codes "cairn") store ≡ row (codes "b") active ∷ row (codes "a") completed ∷ []
unfolding listed_rows text_eq cairn_memory.Base.Sorting.sort_by
active_first = refl

list_by_project-build_plan_example :
    list_by_project (codes "cairn") store
    ≡ map (build_plan store) (listed_rows (codes "cairn") store)
list_by_project-build_plan_example = list_by_project-build_plan (codes "cairn") store
