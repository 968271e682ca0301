-- ===== src/Plan/Laws/AllNumbered.antt =====
-- The numbers of a plan's steps over runs of the operations.
use cairn_memory.Base.{
  ℕ, suc, ◌+◌, ◌≡◌, refl, sym, ap, ◌∙◌, subst, inl, inr, true, false, not, ◌||◌, Option, some, List,
  [], ◌∷◌, ◌==◌, any, length, or_else, arith, Bool-cases, Option-cases, is_some, or-eq-false,
}
use cairn_memory.Base.Text.{Text, text_eq}
use cairn_memory.Validation.{sanitize, validate_step_count}
use cairn_memory.Plan.{
  PlanStore, at_step, insert_step, with_id, touch_plan, archive_active, abandon,
}
use cairn_memory.Plan.Query.{get_steps, active_row, and_then}
use cairn_memory.Plan.Calls.{
  CreatePlanInput, StepInput, insert_plan, insert_steps, create, AddDecisionInput, add_decision,
  complete,
}
use cairn_memory.Plan.Steps.{add_step, block_in_progress_steps}
use cairn_memory.Plan.Runs.{
  PlanCall, creates, updates, decides, notes, adds, completes, abandons, blocks, run_call,
  run_calls, empty_store,
}
use cairn_memory.Plan.Laws.Numbered.{
  step_ids, count_from, IsNumbered, any-at_step, count_from_next, length-append_own, not_started,
}
use cairn_memory.Plan.Laws.KeepNumbered.{
  update_step-IsNumbered, add_note-IsNumbered, block-IsNumbered, insert_step-IsNumbered,
  steps_counted,
}

insert_step_free :
    (plan : Text) (n : ℕ) (d : Text) (deps : Option (List ℕ)) (store after : PlanStore)
    → insert_step plan n d deps store ≡ some after
    → (any (at_step plan n) store.steps ≡ false)
      × (length (step_ids plan after.steps) ≡ suc (length (step_ids plan store.steps)))
unfolding insert_step
insert_step_free plan n d deps store after h =
    elim (Bool-cases (not (any (with_id plan) store.plans) || any (at_step plan n) store.steps)) [
      | inl e ↦ absurd (cc (rw e at h))
      | inr e ↦ (
        (or-eq-false _ _ e).1,
        subst
            (λ o.
              length (step_ids plan (or_else o store).steps)
              ≡ suc (length (step_ids plan store.steps)))
            (rw e at h) (length-append_own store.steps _),
      )
    ]

insert_steps-IsNumbered :
    (id : Text) (n : ℕ) (steps : List StepInput) (store after : PlanStore)
    → IsNumbered store.steps
    → n ≡ suc (length (step_ids id store.steps))
    → insert_steps id n steps store ≡ some after
    → IsNumbered after.steps
unfolding insert_steps
insert_steps-IsNumbered id n [] store after numbered next h =
    subst (λ o. IsNumbered (or_else o store).steps) h numbered
insert_steps-IsNumbered id n (step ∷ steps) store after numbered next h =
    elim (Option-cases (insert_step id n (sanitize step.description) step.depends_on store)) [
      | inl e ↦ absurd (cc (rw e at h))
      | inr (mid, e) ↦
          let grown = (insert_step_free id n _ step.depends_on store mid e).1 in
          insert_steps-IsNumbered id (suc n) steps mid after
            (insert_step-IsNumbered id n _ step.depends_on store mid numbered next e)
            (omega (arith, next, grown)) (rw e at h)
    ]

first_steps-IsNumbered :
    (id : Text) (steps : List StepInput) (store after : PlanStore)
    → IsNumbered store.steps
    → insert_steps id 1 steps store ≡ some after
    → IsNumbered after.steps
unfolding insert_steps
first_steps-IsNumbered id [] store after numbered h =
    subst (λ o. IsNumbered (or_else o store).steps) h numbered
first_steps-IsNumbered id (step ∷ steps) store after numbered h =
    elim (Option-cases (insert_step id 1 (sanitize step.description) step.depends_on store)) [
      | inl e ↦ absurd (cc (rw e at h))
      | inr (mid, e) ↦
          let free = (insert_step_free id 1 _ step.depends_on store mid e).0 in
          let none_yet = not_started id store.steps numbered free in
          insert_steps-IsNumbered id 1 (step ∷ steps) store after numbered (omega (arith, none_yet))
            h
    ]

insert_plan-steps :
    (now : ℕ) (id : Text) (input : CreatePlanInput) (store after : PlanStore)
    → insert_plan now id input store ≡ some after
    → after.steps ≡ store.steps
unfolding insert_plan
insert_plan-steps now id input store after h = elim (Bool-cases (any (with_id id) store.plans)) [
  | inl e ↦ absurd (cc (rw e at h))
  | inr e ↦ ap (λ o. (or_else o store).steps) (sym (rw e at h))
]

transaction-IsNumbered :
    (now : ℕ) (id : Text) (input : CreatePlanInput) (store after : PlanStore)
    → IsNumbered store.steps
    → and_then (insert_plan now id input store) (insert_steps id 1 input.steps) ≡ some after
    → IsNumbered after.steps
transaction-IsNumbered now id input store after numbered h =
    elim (Option-cases (insert_plan now id input store)) [
      | inl e ↦ absurd (cc (rw e at h))
      | inr (inserted, e) ↦
          first_steps-IsNumbered id input.steps inserted after
            (subst IsNumbered (sym (insert_plan-steps now id input store inserted e)) numbered)
            (rw e at h)
    ]

create-IsNumbered :
    (now : ℕ) (id : Text) (input : CreatePlanInput) (store : PlanStore)
    → IsNumbered store.steps
    → IsNumbered (create now id input store).1.steps
unfolding create archive_active
create-IsNumbered now id input store numbered =
    let archived = archive_active now input.project store in
    elim (Bool-cases (validate_step_count (length input.steps)).valid) [
      | inr e ↦ rw e numbered
      | inl e ↦
          elim (Option-cases
            (and_then (insert_plan now id input archived) (insert_steps id 1 input.steps))) [
              | inl f ↦ rw (e, f) numbered
              | inr (after, f) ↦
                  rw (e, f) (transaction-IsNumbered now id input archived after numbered f)
            ]
    ]

add_step-IsNumbered :
    (now : ℕ) (plan description : Text) (deps : Option (List ℕ)) (store : PlanStore)
    → IsNumbered store.steps
    → IsNumbered (add_step now plan description deps store).1.steps
unfolding add_step touch_plan
add_step-IsNumbered now plan description deps store numbered =
    let n = length (get_steps plan store) + 1 in
    elim (Option-cases (insert_step plan n (sanitize description) deps store)) [
      | inl e ↦ rw e numbered
      | inr (after, e) ↦ rw e (
          insert_step-IsNumbered plan n (sanitize description) deps store after numbered
            (steps_counted plan store) e)
    ]

add_decision-steps :
    (now : ℕ) (id plan : Text) (input : AddDecisionInput) (store : PlanStore)
    → (add_decision now id plan input store).1.steps ≡ store.steps
unfolding add_decision touch_plan
add_decision-steps now id plan input store =
    elim (Bool-cases
      (not (any (with_id plan) store.plans) || any (λ d. text_eq d.id id) store.decisions)) [
        | inl e ↦ rw e refl
        | inr e ↦ rw e refl
      ]

run_call-IsNumbered :
    (store : PlanStore) (now : ℕ) (call : PlanCall)
    → IsNumbered store.steps
    → IsNumbered (run_call store now call).steps
unfolding run_call complete abandon block_in_progress_steps
run_call-IsNumbered store now (creates id input) h = create-IsNumbered now id input store h
run_call-IsNumbered store now (updates plan input) h = update_step-IsNumbered now plan input store h
run_call-IsNumbered store now (decides id plan input) h =
    subst IsNumbered (sym (add_decision-steps now id plan input store)) h
run_call-IsNumbered store now (notes plan input) h = add_note-IsNumbered now plan input store h
run_call-IsNumbered store now (adds plan description deps) h =
    add_step-IsNumbered now plan description deps store h
run_call-IsNumbered store now (completes plan) h = h
run_call-IsNumbered store now (abandons plan) h = h
run_call-IsNumbered store now (blocks project reason) h =
    block-IsNumbered now reason store (active_row project store) h

run_calls-IsNumbered :
    (calls : List (ℕ × PlanCall)) (store : PlanStore)
    → IsNumbered store.steps
    → IsNumbered (run_calls store calls).steps
unfolding run_calls
run_calls-IsNumbered [] store h = h
run_calls-IsNumbered ((now, call) ∷ calls) store h =
    run_calls-IsNumbered calls (run_call store now call) (run_call-IsNumbered store now call h)

-- After any run of the repository's operations from empty tables, the steps of every plan are
-- numbered from one on, without a gap, in the order of insertion.
pub steps_numbered :
    (calls : List (ℕ × PlanCall)) (plan : Text)
    → let steps = (run_calls empty_store calls).steps in
      step_ids plan steps ≡ count_from 1 (length (step_ids plan steps))
steps_numbered calls plan = run_calls-IsNumbered calls empty_store (λ p. refl) plan

add_step_stored :
    (now : ℕ) (plan description : Text) (deps : Option (List ℕ)) (store : PlanStore)
    → IsNumbered store.steps
    → any (with_id plan) store.plans ≡ true
    → is_some (add_step now plan description deps store).0 ≡ true
unfolding add_step insert_step
add_step_stored now plan description deps store numbered known =
    let n = length (get_steps plan store) + 1 in
    let free : any (at_step plan n) store.steps ≡ false =
      any-at_step plan n store.steps
      ∙ ap (any (λ m. m == n)) (numbered plan)
      ∙ count_from_next 1 (length (step_ids plan store.steps)) n
          (omega (arith, steps_counted plan store)) in
    rw (known, free) refl

-- In any such store, adding a step to a plan that exists succeeds: its new number is never taken.
pub add_step_succeeds :
    (calls : List (ℕ × PlanCall)) (now : ℕ) (plan description : Text) (deps : Option (List ℕ))
    → any (with_id plan) (run_calls empty_store calls).plans ≡ true
    → is_some (add_step now plan description deps (run_calls empty_store calls)).0 ≡ true
add_step_succeeds calls now plan description deps known =
    add_step_stored now plan description deps (run_calls empty_store calls)
      (run_calls-IsNumbered calls empty_store (λ p. refl)) known
