-- ===== src/Plan/Laws/Active.antt =====
-- How many plans of a project are active.
use cairn_memory.Base.{
  ℕ, suc, ◌≤◌, ◌≡◌, sym, ap, ◌∙◌, inl, inr, Bool, not, ◌||◌, Option, none, some, List, [], ◌∷◌,
  ◌==◌, any, count_if, is_some, or_else, arith, Bool-cases, Option-cases,
}
use cairn_memory.Base.Text.{Text, text_eq}
use cairn_memory.Validation.{Problem, sanitize, validate_note_content}
use cairn_memory.Plan.{
  PlanRow, completed, abandoned, set_status, touched, with_id, StepRow, PlanStore, active_of,
  touch_plan, abandon, archive_active, insert_step, at_step,
}
use cairn_memory.Plan.Query.{PlanStep}
use cairn_memory.Plan.Calls.{StepInput, insert_steps, AddDecisionInput, add_decision, complete}
use cairn_memory.Plan.Steps.{
  UpdateStepInput, AddNoteInput, PlanWarning, run_update, claim_step, update_step, add_note,
  write_note, block_steps_of, asks_claim, running_of,
}
use cairn_memory.Plan.Laws.{count-update_where_le, count-update_where_zero}

-- How many of a project's plans are active.
abbrev pub active_count : Text → PlanStore → ℕ
active_count project store = count_if (active_of project) store.plans

-- A store with no more active plans in any project.
abbrev pub NoMore : PlanStore → PlanStore → Type 0
NoMore after before = (q : Text) → active_count q after ≤ active_count q before

pub touch_plan-NoMore :
    (now : ℕ) (plan : Text) (store : PlanStore) → NoMore (touch_plan now plan store) store
unfolding touch_plan
touch_plan-NoMore now plan store q =
    count-update_where_le (active_of q) (with_id plan) (touched now) store.plans (λ x h. h)

pub complete-NoMore :
    (now : ℕ) (plan : Text) (store : PlanStore) → NoMore (complete now plan store).1 store
unfolding complete
complete-NoMore now plan store q =
    count-update_where_le (active_of q) (with_id plan) (set_status completed now) store.plans
      (λ x h. absurd (ground arith))

pub abandon-NoMore :
    (now : ℕ) (plan : Text) (store : PlanStore) → NoMore (abandon now plan store) store
unfolding abandon
abandon-NoMore now plan store q =
    count-update_where_le (active_of q) (with_id plan) (set_status abandoned now) store.plans
      (λ x h. absurd (ground arith))

pub archive-NoMore :
    (now : ℕ) (project : Text) (store : PlanStore) → NoMore (archive_active now project store) store
unfolding archive_active
archive-NoMore now project store q =
    count-update_where_le (active_of q) (active_of project) (set_status abandoned now) store.plans
      (λ x h. absurd (ground arith))

pub archive_none :
    (now : ℕ) (project : Text) (store : PlanStore)
    → active_count project (archive_active now project store) ≡ 0
unfolding archive_active
archive_none now project store =
    count-update_where_zero (active_of project) (set_status abandoned now) store.plans
      (λ x. ground arith)

pub run_update-NoMore :
    (now : ℕ) (plan : Text) (w : StepRow → Bool) (input : UpdateStepInput)
    (warnings refusal : List PlanWarning) (store : PlanStore)
    → NoMore (run_update now plan w input warnings refusal store).1 store
unfolding run_update
run_update-NoMore now plan w input warnings refusal store q =
    elim (Bool-cases (count_if w store.steps == 0)) [
      | inl e ↦ rw e (omega arith)
      | inr e ↦ rw e (touch_plan-NoMore now plan _ q)
    ]

pub update_step-NoMore :
    (now : ℕ) (plan : Text) (input : UpdateStepInput) (store : PlanStore)
    → NoMore (update_step now plan input store).1 store
unfolding update_step claim_step
update_step-NoMore now plan input store q =
    elim (Bool-cases
      (not (is_some input.status || is_some input.outcome || is_some input.blockers))) [
        | inl e ↦ rw e (omega arith)
        | inr e ↦ elim (Bool-cases (asks_claim input.status)) [
          | inl c ↦ rw (e, c) (run_update-NoMore now plan _ input _ _ store q)
          | inr c ↦ rw (e, c) (run_update-NoMore now plan _ input _ _ store q)
        ]
      ]

pub write_note-NoMore :
    (now : ℕ) (plan : Text) (input : AddNoteInput) (w : List Problem) (store : PlanStore)
    (step : Option PlanStep)
    → NoMore (write_note now plan input w store step).1 store
write_note-NoMore now plan input w store none q = omega arith
write_note-NoMore now plan input w store (some step) q = touch_plan-NoMore now plan _ q

pub add_note-NoMore :
    (now : ℕ) (plan : Text) (input : AddNoteInput) (store : PlanStore)
    → NoMore (add_note now plan input store).1 store
unfolding add_note
add_note-NoMore now plan input store q =
    elim (Bool-cases (validate_note_content input.note).valid) [
      | inl e ↦ rw e (write_note-NoMore now plan input _ store _ q)
      | inr e ↦ rw e (omega arith)
    ]

pub add_decision-NoMore :
    (now : ℕ) (id plan : Text) (input : AddDecisionInput) (store : PlanStore)
    → NoMore (add_decision now id plan input store).1 store
unfolding add_decision
add_decision-NoMore now id plan input store q =
    elim (Bool-cases (
      not (any (λ row. text_eq row.id plan) store.plans)
      || any (λ d. text_eq d.id id) store.decisions)) [
        | inl e ↦ rw e (omega arith)
        | inr e ↦ rw e (touch_plan-NoMore now plan _ q)
      ]

pub block-NoMore :
    (now : ℕ) (reason : Text) (store : PlanStore) (row : Option PlanRow)
    → NoMore (block_steps_of now reason store row).1 store
block-NoMore now reason store none q = omega arith
block-NoMore now reason store (some row) q =
    elim (Bool-cases (count_if (running_of row.id) store.steps == 0)) [
      | inl e ↦ rw e (omega arith)
      | inr e ↦ rw e (touch_plan-NoMore now row.id _ q)
    ]

pub insert_step-plans :
    (id : Text) (n : ℕ) (d : Text) (deps : Option (List ℕ)) (store after : PlanStore)
    → insert_step id n d deps store ≡ some after
    → after.plans ≡ store.plans
unfolding insert_step
insert_step-plans id n d deps store after h =
    elim (Bool-cases (not (any (with_id id) store.plans) || any (at_step id n) store.steps)) [
      | inl e ↦ absurd (cc (rw e at h))
      | inr e ↦ let got = rw e at h in sym (ap (λ o. (or_else o store).plans) got)
    ]

pub insert_steps-plans :
    (id : Text) (n : ℕ) (steps : List StepInput) (store after : PlanStore)
    → insert_steps id n steps store ≡ some after
    → after.plans ≡ store.plans
unfolding insert_steps
insert_steps-plans id n [] store after h = ap (λ o. (or_else o store).plans) (sym h)
insert_steps-plans id n (step ∷ steps) store after h =
    elim (Option-cases (insert_step id n (sanitize step.description) step.depends_on store)) [
      | inl e ↦ absurd (cc (rw e at h))
      | inr (next, e) ↦
          insert_steps-plans id (suc n) steps next after (rw e at h)
          ∙ insert_step-plans id n _ step.depends_on store next e
    ]
