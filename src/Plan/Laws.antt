-- ===== src/Plan/Laws.antt =====
-- Updates of tables, and what a failed or contended update does.
pub mod Active
pub mod OneActive
pub mod Numbered
pub mod KeepNumbered
pub mod AllNumbered
use cairn_memory.Base.{
  ℕ, zero, suc, ◌+◌, ◌≤◌, ◌≡◌, refl, sym, ap, ◌∙◌, ◌⊎◌, inl, inr, Bool, true, false, not, ◌&&◌,
  ◌||◌, Option, none, some, List, [], ◌∷◌, ◌++◌, map, ◌==◌, if◌then◌else◌, any, keep, count_if,
  is_some, or_else, arith, Bool-cases, length, ==_iff,
}
use cairn_memory.Base.Text.{Text, text_eq}
use cairn_memory.Validation.{Problem, validate_note_content, sanitize}
use cairn_memory.Plan.{
  StepStatus, in_progress, StepRow, PlanStore, is_pending, is_in_progress, at_step, update_where,
  with_steps, touch_plan,
}
use cairn_memory.Plan.Query.{get_step, PlanStep}
use cairn_memory.Plan.Steps.{
  UpdateStepInput, AddNoteInput, PlanWarning, asks_claim, set_columns, run_update, claim_step,
  update_step, add_note, dependency_warnings, write_note,
}

-- A row that an update does not let through is not counted after it.
pub count-update_where_le :
    {A : Type 0} (p w : A → Bool) (f : A → A) (xs : List A)
    → ((x : A) → p (f x) ≡ true → p x ≡ true)
    → count_if p (update_where w f xs) ≤ count_if p xs
count-update_where_le p w f [] h = omega arith
count-update_where_le p w f (x ∷ xs) h =
    let ih = count-update_where_le p w f xs h in ground (arith, ih, h x)

pub count-update_where_zero :
    {A : Type 0} (w : A → Bool) (f : A → A) (xs : List A)
    → ((x : A) → w (f x) ≡ false)
    → count_if w (update_where w f xs) ≡ 0
count-update_where_zero w f [] h = refl
count-update_where_zero w f (x ∷ xs) h =
    let ih = count-update_where_zero w f xs h in ground (arith, ih, h x)

run_update_failed :
    (now : ℕ) (plan : Text) (w : StepRow → Bool) (input : UpdateStepInput)
    (warnings refusal : List PlanWarning) (store : PlanStore)
    → (run_update now plan w input warnings refusal store).0.ok ≡ false
    → (run_update now plan w input warnings refusal store).1 ≡ store
unfolding run_update
run_update_failed now plan w input warnings refusal store h =
    elim (Bool-cases (count_if w store.steps == 0)) [
      | inl e ↦ rw e refl
      | inr e ↦ absurd (cc (rw e at h))
    ]

update_step_failed :
    (now : ℕ) (plan : Text) (input : UpdateStepInput) (store : PlanStore)
    → (update_step now plan input store).0.ok ≡ false
    → (update_step now plan input store).1 ≡ store
unfolding update_step claim_step
update_step_failed now plan input store h =
    elim (Bool-cases
      (not (is_some input.status || is_some input.outcome || is_some input.blockers))) [
        | inl e ↦ rw e refl
        | inr e ↦ elim (Bool-cases (asks_claim input.status)) [
          | inl c ↦ rw (e, c) (run_update_failed now plan _ input _ _ store (rw (e, c) at h))
          | inr c ↦ rw (e, c) (run_update_failed now plan _ input _ _ store (rw (e, c) at h))
        ]
      ]

write_note_failed :
    (now : ℕ) (plan : Text) (input : AddNoteInput) (w : List Problem) (store : PlanStore)
    (step : Option PlanStep)
    → (write_note now plan input w store step).0.ok ≡ false
    → (write_note now plan input w store step).1 ≡ store
write_note_failed now plan input w store none h = refl
write_note_failed now plan input w store (some step) h = absurd (cc)

add_note_failed :
    (now : ℕ) (plan : Text) (input : AddNoteInput) (store : PlanStore)
    → (add_note now plan input store).0.ok ≡ false
    → (add_note now plan input store).1 ≡ store
unfolding add_note
add_note_failed now plan input store h =
    elim (Bool-cases (validate_note_content input.note).valid) [
      | inl e ↦ rw e (write_note_failed now plan input _ store _ (rw e at h))
      | inr e ↦ rw e refl
    ]

-- An update of a step or a new note that is answered with `ok: false` leaves the tables as they
-- were.
pub failed_update_keeps :
    (now : ℕ) (plan : Text) (update : UpdateStepInput) (note : AddNoteInput) (store : PlanStore)
    → ((update_step now plan update store).0.ok ≡ false
        → (update_step now plan update store).1 ≡ store)
      × ((add_note now plan note store).0.ok ≡ false → (add_note now plan note store).1 ≡ store)
failed_update_keeps now plan update note store =
    (update_step_failed now plan update store, add_note_failed now plan note store)

-- The rows that a claim of the step would take.
abbrev claimable : Text → ℕ → StepRow → Bool
claimable plan n row = at_step plan n row && is_pending row.status

update_step-claim :
    (now : ℕ) (plan : Text) (input : UpdateStepInput) (store : PlanStore)
    → input.status ≡ some in_progress
    → update_step now plan input store
      ≡ claim_step now plan input (dependency_warnings plan input.step_id store) store
unfolding update_step
update_step-claim now plan input store e =
    let claims : asks_claim input.status ≡ true = ap asks_claim e in
    let given : is_some input.status ≡ true = ap is_some e in rw (given, claims) refl

claim_step_refused :
    (now : ℕ) (plan : Text) (input : UpdateStepInput) (w : List PlanWarning) (store : PlanStore)
    → count_if (claimable plan input.step_id) store.steps ≡ 0
    → ((claim_step now plan input w store).0.ok ≡ false)
      × ((claim_step now plan input w store).1 ≡ store)
unfolding claim_step run_update
claim_step_refused now plan input w store h =
    let none_found : (count_if (claimable plan input.step_id) store.steps == 0) ≡ true =
      (==_iff _ _).1 h in
    rw none_found (refl, refl)

not_pending :
    (input : UpdateStepInput) (plan : Text) (x : StepRow)
    → input.status ≡ some in_progress
    → claimable plan input.step_id (set_columns input x) ≡ false
unfolding set_columns
not_pending input plan x e =
    let taken : is_pending (or_else input.status x.status) ≡ false =
      ap (λ s. is_pending (or_else s x.status)) e in
    ground (arith, taken)

claim_step_taken :
    (now : ℕ) (plan : Text) (input : UpdateStepInput) (w : List PlanWarning) (store : PlanStore)
    → input.status ≡ some in_progress
    → count_if (claimable plan input.step_id) (claim_step now plan input w store).1.steps ≡ 0
unfolding claim_step run_update touch_plan
claim_step_taken now plan input w store e =
    elim (Bool-cases (count_if (claimable plan input.step_id) store.steps == 0)) [
      | inl c ↦ rw c ((==_iff _ _).0 c)
      | inr c ↦ rw c (
          count-update_where_zero (claimable plan input.step_id) (set_columns input) store.steps
            (λ x. not_pending input plan x e))
    ]

-- Of two claims of a step in turn, whoever makes them, the second is refused and changes nothing:
-- the first has taken the step, or it was not pending.
pub claim_exclusive :
    (first_now second_now : ℕ) (plan : Text) (first second : UpdateStepInput) (store : PlanStore)
    → first.status ≡ some in_progress
    → second.status ≡ some in_progress
    → second.step_id ≡ first.step_id
    → let after = (update_step first_now plan first store).1 in
      ((update_step second_now plan second after).0.ok ≡ false)
      × ((update_step second_now plan second after).1 ≡ after)
claim_exclusive first_now second_now plan first second store f s same =
    let after = (update_step first_now plan first store).1 in
    let taken : count_if (claimable plan second.step_id) after.steps ≡ 0 =
      rw (same, update_step-claim first_now plan first store f)
        (claim_step_taken first_now plan first _ store f) in
    rw (update_step-claim second_now plan second after s)
      (claim_step_refused second_now plan second _ after taken)
