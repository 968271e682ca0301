-- ===== src/Plan/Steps.antt =====
-- src/db/plan-repository.ts: what the repository writes of steps.
use cairn_memory.Base.{
  map_option, ℕ, ◌+◌, Bool, true, false, not, ◌&&◌, ◌||◌, Option, none, some, List, [], ◌∷◌, ◌++◌,
  map, ◌==◌, if◌then◌else◌, keep, find, length, count_if, or_else, is_some,
}
use cairn_memory.Base.Text.{Text, text_eq}
use cairn_memory.Validation.{Problem, sanitize, validate_note_content, validate_step_count}
use cairn_memory.Plan.{
  StepStatus, blocked, PlanRow, Note, StepRow, PlanStore, is_done, is_pending, is_in_progress,
  at_step, update_where, with_steps, touch_plan, insert_step,
}
use cairn_memory.Plan.Query.{PlanStep, get_step, get_steps, active_row}

pub record UpdateStepInput : Type 0 where
  pub step_id : ℕ
  pub status : Option StepStatus
  pub outcome : Option Text
  pub blockers : Option Text

pub record AddNoteInput : Type 0 where
  pub step_id : ℕ
  pub note : Text
  pub replace : Bool

-- The warnings that the operations answer with.
pub data PlanWarning : Type 0 where
  check : Problem → PlanWarning
  unmet_dependencies : ℕ → List ℕ → PlanWarning
  already_claimed : ℕ → PlanWarning
  nothing_to_update step_not_found : PlanWarning

pub record Answer : Type 0 where
  pub ok : Bool
  pub warnings : List PlanWarning

abbrev answer : Bool → List PlanWarning → Answer
answer ok warnings = record { ok = ok; warnings = warnings }

-- The dependencies of a step that a step row exists for and is not done.
unfoldable pub unmet_dependencies_of : List PlanStep → List ℕ → List ℕ
unmet_dependencies_of steps deps = keep (λ d. is_unmet (find (λ s. s.step_id == d) steps)) deps
  where
    is_unmet : Option PlanStep → Bool
    is_unmet none = false
    is_unmet (some step) = not (is_done step.status)

abbrev dependency_warning : ℕ → List ℕ → List PlanWarning
dependency_warning n [] = []
dependency_warning n (d ∷ unmet) = unmet_dependencies n (d ∷ unmet) ∷ []

abbrev warn_of_step : ℕ → List PlanStep → Option PlanStep → List PlanWarning
warn_of_step n steps none = []
warn_of_step n steps (some step) =
    dependency_warning n (unmet_dependencies_of steps step.depends_on)

unfoldable pub dependency_warnings : Text → ℕ → PlanStore → List PlanWarning
dependency_warnings plan n store = warn_of_step n (get_steps plan store) (get_step plan n store)

-- The SET clauses of an update.
unfoldable pub set_columns : UpdateStepInput → StepRow → StepRow
set_columns input row = record {
  plan_id = row.plan_id;
  step_id = row.step_id;
  description = row.description;
  status = or_else input.status row.status;
  depends_on = row.depends_on;
  outcome = if is_some input.outcome then map_option sanitize input.outcome else row.outcome;
  blockers = if is_some input.blockers then map_option sanitize input.blockers else row.blockers;
  notes = row.notes;
}

abbrev pub asks_claim : Option StepStatus → Bool
asks_claim none = false
asks_claim (some status) = is_in_progress status

-- UPDATE plan_steps, with the error of no change and the touch of the plan.
unfoldable pub run_update :
    ℕ
    → Text
    → (StepRow → Bool)
    → UpdateStepInput
    → List PlanWarning
    → List PlanWarning
    → PlanStore
    → Answer × PlanStore
unfolding set_columns
run_update now plan where_row input warnings refusal store =
    if count_if where_row store.steps == 0 then (answer false refusal, store) else (
      answer true warnings,
      touch_plan now plan
          (with_steps store (update_where where_row (set_columns input) store.steps)),
    )

-- A claim takes effect only on a pending step.
unfoldable pub claim_step :
    ℕ → Text → UpdateStepInput → List PlanWarning → PlanStore → Answer × PlanStore
unfolding run_update
claim_step now plan input warnings store =
    run_update now plan (λ row. at_step plan input.step_id row && is_pending row.status) input
      warnings (warnings ++ already_claimed input.step_id ∷ []) store

unfoldable pub update_step : ℕ → Text → UpdateStepInput → PlanStore → Answer × PlanStore
unfolding run_update claim_step dependency_warnings
update_step now plan input store =
    let n = input.step_id in
    if not (is_some input.status || is_some input.outcome || is_some input.blockers)
    then (answer false (nothing_to_update ∷ []), store)
    else if asks_claim input.status
    then claim_step now plan input (dependency_warnings plan n store) store
    else run_update now plan (at_step plan n) input [] (step_not_found ∷ []) store

unfoldable pub set_notes : List Note → StepRow → StepRow
set_notes notes row = record {
  plan_id = row.plan_id;
  step_id = row.step_id;
  description = row.description;
  status = row.status;
  depends_on = row.depends_on;
  outcome = row.outcome;
  blockers = row.blockers;
  notes = some notes;
}

abbrev pub write_note :
    ℕ → Text → AddNoteInput → List Problem → PlanStore → Option PlanStep → Answer × PlanStore
write_note now plan input warnings store none = (answer false (step_not_found ∷ []), store)
write_note now plan input warnings store (some step) =
    let entry : Note = record { note = sanitize input.note; at = now } in
    let notes = if input.replace then entry ∷ [] else step.notes ++ entry ∷ [] in
    (
      answer true (map check warnings),
      touch_plan now plan (
          with_steps store
            (update_where (at_step plan input.step_id) (set_notes notes) store.steps)),
    )

unfoldable pub add_note : ℕ → Text → AddNoteInput → PlanStore → Answer × PlanStore
add_note now plan input store =
    let checked = validate_note_content input.note in
    if checked.valid
    then write_note now plan input checked.warnings store (get_step plan input.step_id store)
    else (answer false (map check checked.errors), store)

-- The number of the step, with the warnings; `none` where the INSERT throws.
unfoldable pub add_step :
    ℕ → Text → Text → Option (List ℕ) → PlanStore → Option (ℕ × List Problem) × PlanStore
add_step now plan description depends_on store =
    let n = length (get_steps plan store) + 1 in
    touch_added (insert_step plan n (sanitize description) depends_on store)
  where
    touch_added : Option PlanStore → Option (ℕ × List Problem) × PlanStore
    touch_added none = (none, store)
    touch_added (some inserted) =
        let n = length (get_steps plan store) + 1 in
        (some (n, (validate_step_count n).warnings), touch_plan now plan inserted)

unfoldable pub block_step : Text → StepRow → StepRow
block_step reason row = record {
  plan_id = row.plan_id;
  step_id = row.step_id;
  description = row.description;
  status = blocked;
  depends_on = row.depends_on;
  outcome = row.outcome;
  blockers = some (sanitize reason);
  notes = row.notes;
}

abbrev pub running_of : Text → StepRow → Bool
running_of plan row = text_eq row.plan_id plan && is_in_progress row.status

abbrev pub block_steps_of : ℕ → Text → PlanStore → Option PlanRow → ℕ × PlanStore
block_steps_of now reason store none = (0, store)
block_steps_of now reason store (some plan) =
    let changes = count_if (running_of plan.id) store.steps in
    let blocked_steps =
      with_steps store (update_where (running_of plan.id) (block_step reason) store.steps) in
    (changes, if changes == 0 then blocked_steps else touch_plan now plan.id blocked_steps)

unfoldable pub block_in_progress_steps : ℕ → Text → Text → PlanStore → ℕ × PlanStore
block_in_progress_steps now project reason store =
    block_steps_of now reason store (active_row project store)
