-- ===== src/Plan/Batch.antt =====
-- src/db/plan-repository.ts: `listByProject`, which reads the steps and decisions of all its plans
-- by two queries and groups them in maps. A `Map` is the list of its entries.
pub mod Laws
use cairn_memory.Base.{
  ℕ, Bool, ◌&&◌, Option, List, [], ◌∷◌, ◌++◌, map, ltb, if◌then◌else◌, keep, find, map_option,
  or_else, take,
}
use cairn_memory.Base.Text.{Text, text_eq, includes}
use cairn_memory.Base.Sorting.{sort_by}
use cairn_memory.Base.Groups.{in_groups}
use cairn_memory.Plan.{is_active, PlanRow, StepRow, DecisionRow, PlanStore}
use cairn_memory.Plan.Query.{Plan, row_to_step, row_to_decision, by_step_id, by_decided_at}

abbrev pub max_plans : ℕ
max_plans = 50

-- `CASE status WHEN 'active' THEN 0 ELSE 1 END, updated_at DESC`.
unfoldable pub listed_before : PlanRow → PlanRow → Bool
listed_before a b =
    if is_active a.status
    then (if is_active b.status then ltb b.updated_at a.updated_at else Bool.true)
    else if is_active b.status
    then Bool.false
    else ltb b.updated_at a.updated_at

module _ {A : Type 0} where
  -- `map.get(id) ?? []`.
  unfoldable pub entry : Text → List (Text × List A) → List A
  entry id [] = []
  entry id ((key, list) ∷ rest) = if text_eq key id then list else entry id rest

  -- The row at the end of its entry's list, which is set when there is none.
  unfoldable pub push_row : Text → A → List (Text × List A) → List (Text × List A)
  push_row id a [] = (id, a ∷ []) ∷ []
  push_row id a ((key, list) ∷ rest) =
      let later = (key, list) ∷ push_row id a rest in
      if text_eq key id then (key, list ++ a ∷ []) ∷ rest else later

  unfoldable pub group_rows : (A → Text) → List A → List (Text × List A) → List (Text × List A)
  unfolding push_row
  group_rows group [] groups = groups
  group_rows group (a ∷ l) groups = group_rows group l (push_row (group a) a groups)

unfoldable pub steps_by_plan : List Text → PlanStore → List (Text × List StepRow)
unfolding group_rows
steps_by_plan ids store =
    group_rows (λ s. s.plan_id)
      (sort_by (in_groups (λ (s : StepRow). s.plan_id) by_step_id)
        (keep (λ s. includes s.plan_id ids) store.steps))
      []

unfoldable pub decisions_by_plan : List Text → PlanStore → List (Text × List DecisionRow)
unfolding group_rows
decisions_by_plan ids store =
    group_rows (λ d. d.plan_id)
      (sort_by (in_groups (λ (d : DecisionRow). d.plan_id) by_decided_at)
        (keep (λ d. includes d.plan_id ids) store.decisions))
      []

unfoldable pub grouped_plan :
    List (Text × List StepRow) → List (Text × List DecisionRow) → PlanRow → Plan
unfolding entry row_to_step row_to_decision
grouped_plan steps decisions row = record {
  id = row.id;
  project = row.project;
  name = row.name;
  status = row.status;
  created_at = row.created_at;
  updated_at = row.updated_at;
  steps = map row_to_step (entry row.id steps);
  decisions = map row_to_decision (entry row.id decisions);
}

abbrev pub ids_of : List PlanRow → List Text
ids_of rows = map (λ row. row.id) rows

unfoldable pub build_plans : PlanStore → List PlanRow → List Plan
unfolding steps_by_plan decisions_by_plan grouped_plan
build_plans store [] = []
build_plans store (first ∷ rest) =
    let ids = ids_of (first ∷ rest) in
    map (grouped_plan (steps_by_plan ids store) (decisions_by_plan ids store)) (first ∷ rest)

unfoldable pub listed_rows : Text → PlanStore → List PlanRow
unfolding listed_before
listed_rows project store =
    take max_plans
      (sort_by listed_before (keep (λ (row : PlanRow). text_eq row.project project) store.plans))

unfoldable pub list_by_project : Text → PlanStore → List Plan
unfolding build_plans listed_rows
list_by_project project store = build_plans store (listed_rows project store)
