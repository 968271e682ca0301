-- ===== src/Plan/Laws/OneActive.antt =====
-- The active plans of a project over runs of the operations.
use cairn_memory.Base.{
  ℕ, ◌+◌, ◌≤◌, ◌≡◌, refl, sym, ap, ◌∙◌, subst, inl, inr, Bool, true, false, ◌&&◌, Option, some,
  List, [], ◌∷◌, ◌++◌, if◌then◌else◌, any, count_if, or_else, arith, Bool-cases, Option-cases,
  length,
}
use cairn_memory.Base.Text.{Text, text_eq, text_eq_sound}
use cairn_memory.Validation.{sanitize, validate_step_count}
use cairn_memory.Plan.{
  PlanRow, PlanStore, active_of, archive_active, insert_step, with_id, touch_plan,
}
use cairn_memory.Plan.Query.{get_steps, active_row, and_then}
use cairn_memory.Plan.Calls.{CreatePlanInput, create, insert_plan, insert_steps}
use cairn_memory.Plan.Steps.{add_step, block_in_progress_steps}
use cairn_memory.Plan.Runs.{
  PlanCall, creates, updates, decides, notes, adds, completes, abandons, blocks, run_call,
  run_calls, empty_store,
}
use cairn_memory.Plan.Laws.Active.{
  active_count, NoMore, touch_plan-NoMore, complete-NoMore, abandon-NoMore, archive-NoMore,
  archive_none, update_step-NoMore, add_note-NoMore, add_decision-NoMore, block-NoMore,
  insert_step-plans, insert_steps-plans,
}

add_step-NoMore :
    (now : ℕ) (plan description : Text) (deps : Option (List ℕ)) (store : PlanStore)
    → NoMore (add_step now plan description deps store).1 store
unfolding add_step
add_step-NoMore now plan description deps store q =
    let n = length (get_steps plan store) + 1 in
    elim (Option-cases (insert_step plan n (sanitize description) deps store)) [
      | inl e ↦ rw e (omega arith)
      | inr (inserted, e) ↦
          let kept = insert_step-plans plan n (sanitize description) deps store inserted e in
          let touched = touch_plan-NoMore now plan inserted q in
          rw e (
            subst
              (λ rows. active_count q (touch_plan now plan inserted) ≤ count_if (active_of q) rows)
              kept touched)
    ]

count-snoc :
    (p : PlanRow → Bool) (rows : List PlanRow) (row : PlanRow)
    → count_if p (rows ++ row ∷ []) ≡ count_if p rows + (if p row then 1 else 0)
count-snoc p [] row = ground arith
count-snoc p (x ∷ rows) row = ground (arith, count-snoc p rows row)

and_true : (b : Bool) → (b && true) ≡ b
and_true true = refl
and_true false = refl

insert_plan-count :
    (now : ℕ) (id : Text) (input : CreatePlanInput) (store after : PlanStore) (q : Text)
    → insert_plan now id input store ≡ some after
    → active_count q after ≡ active_count q store + (if text_eq input.project q then 1 else 0)
unfolding insert_plan
insert_plan-count now id input store after q h = elim (Bool-cases (any (with_id id) store.plans)) [
  | inl e ↦ absurd (cc (rw e at h))
  | inr e ↦
      let got = ap (λ o. active_count q (or_else o store)) (sym (rw e at h)) in
      got
      ∙ count-snoc (active_of q) store.plans _
      ∙ ap (λ b. active_count q store + (if b then 1 else 0)) (and_true (text_eq input.project q))
]

-- What the transaction of `create` leaves active, when it commits.
created-count :
    (now : ℕ) (id : Text) (input : CreatePlanInput) (store after : PlanStore) (q : Text)
    → and_then (insert_plan now id input store) (insert_steps id 1 input.steps) ≡ some after
    → active_count q after ≡ active_count q store + (if text_eq input.project q then 1 else 0)
created-count now id input store after q h = elim (Option-cases (insert_plan now id input store)) [
  | inl e ↦ absurd (cc (rw e at h))
  | inr (inserted, e) ↦
      ap (count_if (active_of q)) (insert_steps-plans id 1 input.steps inserted after (rw e at h))
      ∙ insert_plan-count now id input store inserted q e
]

create_bound :
    (now : ℕ) (id : Text) (input : CreatePlanInput) (store : PlanStore) (q : Text)
    → active_count q store ≤ 1
    → active_count q (create now id input store).1 ≤ 1
unfolding create
create_bound now id input store q few =
    let archived = archive_active now input.project store in
    let kept = archive-NoMore now input.project store q in
    elim (Bool-cases (validate_step_count (length input.steps)).valid) [
      | inr e ↦ rw e few
      | inl e ↦
          elim (Option-cases
            (and_then (insert_plan now id input archived) (insert_steps id 1 input.steps))) [
              | inl f ↦ rw (e, f) (omega (arith, few, kept))
              | inr (after, f) ↦
                  let count = created-count now id input archived after q f in
                  rw (e, f)
                    (elim (Bool-cases (text_eq input.project q)) [
                      | inr other ↦ let same = rw other at count in omega (arith, few, kept, same)
                      | inl mine ↦
                          let one = rw mine at count in
                          let zeroed : active_count q archived ≡ 0 =
                            subst (λ p. active_count p archived ≡ 0) (text_eq_sound _ _ mine)
                              (archive_none now input.project store) in
                          omega (arith, one, zeroed)
                    ])
            ]
    ]

block_in_progress-NoMore :
    (now : ℕ) (project reason : Text) (store : PlanStore)
    → NoMore (block_in_progress_steps now project reason store).1 store
unfolding block_in_progress_steps
block_in_progress-NoMore now project reason store =
    block-NoMore now reason store (active_row project store)

within : {a b : ℕ} → a ≤ b → b ≤ 1 → a ≤ 1
within le few = omega (arith, le, few)

run_call_bound :
    (store : PlanStore) (now : ℕ) (call : PlanCall) (q : Text)
    → active_count q store ≤ 1
    → active_count q (run_call store now call) ≤ 1
unfolding run_call
run_call_bound store now (creates id input) q few = create_bound now id input store q few
run_call_bound store now (updates plan input) q few =
    within (update_step-NoMore now plan input store q) few
run_call_bound store now (decides id plan input) q few =
    within (add_decision-NoMore now id plan input store q) few
run_call_bound store now (notes plan input) q few =
    within (add_note-NoMore now plan input store q) few
run_call_bound store now (adds plan description deps) q few =
    within (add_step-NoMore now plan description deps store q) few
run_call_bound store now (completes plan) q few = within (complete-NoMore now plan store q) few
run_call_bound store now (abandons plan) q few = within (abandon-NoMore now plan store q) few
run_call_bound store now (blocks project reason) q few =
    within (block_in_progress-NoMore now project reason store q) few

run_calls_bound :
    (calls : List (ℕ × PlanCall)) (store : PlanStore) (q : Text)
    → active_count q store ≤ 1
    → active_count q (run_calls store calls) ≤ 1
unfolding run_calls
run_calls_bound [] store q few = few
run_calls_bound ((now, call) ∷ calls) store q few =
    run_calls_bound calls (run_call store now call) q (run_call_bound store now call q few)

-- After any run of the repository's operations from empty tables, no project has more than one
-- active plan.
pub one_active :
    (calls : List (ℕ × PlanCall)) (project : Text)
    → active_count project (run_calls empty_store calls) ≤ 1
one_active calls project = run_calls_bound calls empty_store project (omega arith)
