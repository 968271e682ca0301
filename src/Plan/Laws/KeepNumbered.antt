-- ===== src/Plan/Laws/KeepNumbered.antt =====
-- The operations on a plan's steps and the numbers of the steps.
use cairn_memory.Base.{
  ℕ, suc, ◌+◌, ◌≡◌, refl, sym, ap, ◌∙◌, subst, inl, inr, Bool, not, ◌||◌, Option, none, some, List,
  ◌==◌, any, keep, length, or_else, arith, Bool-cases, length-map, is_some, count_if,
}
use cairn_memory.Base.Text.{Text}
use cairn_memory.Base.Sorting.{sort_by, length-sort_by}
use cairn_memory.Validation.{Problem, validate_note_content}
use cairn_memory.Plan.{
  PlanRow, StepRow, PlanStore, of_plan, at_step, update_where, insert_step, with_id, touch_plan,
}
use cairn_memory.Plan.Query.{get_steps, by_step_id, PlanStep, row_to_step}
use cairn_memory.Plan.Steps.{
  UpdateStepInput, AddNoteInput, PlanWarning, set_columns, set_notes, block_step, run_update,
  claim_step, update_step, add_note, write_note, block_steps_of, running_of, asks_claim,
}
use cairn_memory.Plan.Laws.Numbered.{
  step_ids, count_from, IsNumbered, step_ids-update_where, append-IsNumbered,
}

updated-IsNumbered :
    (w : StepRow → Bool) (f : StepRow → StepRow) (steps : List StepRow)
    → ((x : StepRow) → (f x).plan_id ≡ x.plan_id)
    → ((x : StepRow) → (f x).step_id ≡ x.step_id)
    → IsNumbered steps
    → IsNumbered (update_where w f steps)
updated-IsNumbered w f steps p n numbered plan =
    let same = step_ids-update_where plan w f steps p n in
    same ∙ numbered plan ∙ ap (λ l. count_from 1 (length l)) (sym same)

run_update-IsNumbered :
    (now : ℕ) (plan : Text) (w : StepRow → Bool) (input : UpdateStepInput)
    (warnings refusal : List PlanWarning) (store : PlanStore)
    → IsNumbered store.steps
    → IsNumbered (run_update now plan w input warnings refusal store).1.steps
unfolding run_update touch_plan
run_update-IsNumbered now plan w input warnings refusal store numbered =
    elim (Bool-cases (count_if w store.steps == 0)) [
      | inl e ↦ rw e numbered
      | inr e ↦
          rw e
            (updated-IsNumbered w (set_columns input) store.steps (λ x. refl) (λ x. refl) numbered)
    ]

pub update_step-IsNumbered :
    (now : ℕ) (plan : Text) (input : UpdateStepInput) (store : PlanStore)
    → IsNumbered store.steps
    → IsNumbered (update_step now plan input store).1.steps
unfolding update_step claim_step
update_step-IsNumbered now plan input store numbered =
    elim (Bool-cases
      (not (is_some input.status || is_some input.outcome || is_some input.blockers))) [
        | inl e ↦ rw e numbered
        | inr e ↦ elim (Bool-cases (asks_claim input.status)) [
          | inl c ↦ rw (e, c) (run_update-IsNumbered now plan _ input _ _ store numbered)
          | inr c ↦ rw (e, c) (run_update-IsNumbered now plan _ input _ _ store numbered)
        ]
      ]

write_note-IsNumbered :
    (now : ℕ) (plan : Text) (input : AddNoteInput) (w : List Problem) (store : PlanStore)
    (step : Option PlanStep)
    → IsNumbered store.steps
    → IsNumbered (write_note now plan input w store step).1.steps
unfolding touch_plan set_notes
write_note-IsNumbered now plan input w store none numbered = numbered
write_note-IsNumbered now plan input w store (some step) numbered =
    updated-IsNumbered (at_step plan input.step_id) (set_notes _) store.steps (λ x. refl)
      (λ x. refl) numbered

pub add_note-IsNumbered :
    (now : ℕ) (plan : Text) (input : AddNoteInput) (store : PlanStore)
    → IsNumbered store.steps
    → IsNumbered (add_note now plan input store).1.steps
unfolding add_note
add_note-IsNumbered now plan input store numbered =
    elim (Bool-cases (validate_note_content input.note).valid) [
      | inl e ↦ rw e (write_note-IsNumbered now plan input _ store _ numbered)
      | inr e ↦ rw e numbered
    ]

pub block-IsNumbered :
    (now : ℕ) (reason : Text) (store : PlanStore) (row : Option PlanRow)
    → IsNumbered store.steps
    → IsNumbered (block_steps_of now reason store row).1.steps
unfolding touch_plan block_step
block-IsNumbered now reason store none numbered = numbered
block-IsNumbered now reason store (some row) numbered =
    let blocked =
      updated-IsNumbered (running_of row.id) (block_step reason) store.steps (λ x. refl) (λ x. refl)
        numbered in
    elim (Bool-cases (count_if (running_of row.id) store.steps == 0)) [
      | inl e ↦ rw e blocked
      | inr e ↦ rw e blocked
    ]

pub insert_step-IsNumbered :
    (plan : Text) (n : ℕ) (d : Text) (deps : Option (List ℕ)) (store after : PlanStore)
    → IsNumbered store.steps
    → n ≡ suc (length (step_ids plan store.steps))
    → insert_step plan n d deps store ≡ some after
    → IsNumbered after.steps
unfolding insert_step
insert_step-IsNumbered plan n d deps store after numbered next h =
    elim (Bool-cases (not (any (with_id plan) store.plans) || any (at_step plan n) store.steps)) [
      | inl e ↦ absurd (cc (rw e at h))
      | inr e ↦
          subst (λ o. IsNumbered (or_else o store).steps) (rw e at h)
            (append-IsNumbered store.steps _ numbered next)
    ]

pub steps_counted :
    (plan : Text) (store : PlanStore)
    → length (get_steps plan store) + 1 ≡ suc (length (step_ids plan store.steps))
unfolding get_steps
steps_counted plan store =
    let rows = keep (of_plan plan) store.steps in
    let a = length-map row_to_step (sort_by by_step_id rows) in
    let b = length-sort_by by_step_id rows in
    let c = length-map StepRow.step_id rows in omega (arith, a, b, c)
