-- ===== src/Plan/Batch/Laws.antt =====
-- `buildPlans` against `buildPlan`.
use cairn_memory.Base.{
  ◌≡◌, refl, sym, ap, ◌∙◌, inl, inr, Bool, true, false, Memᴰ, List, [], ◌∷◌, ◌++◌, map, keep,
  Bool-cases, arith,
}
use cairn_memory.Base.Text.{Text, text_eq, includes, text_eq_sound, text_eq_refl}
use cairn_memory.Base.Sorting.{sort_by}
use cairn_memory.Base.Groups.{in_groups, keep-sort_by}
use cairn_memory.Plan.{PlanRow, StepRow, DecisionRow, PlanStore}
use cairn_memory.Plan.Query.{by_step_id, by_decided_at, get_steps, get_decisions, build_plan}
use cairn_memory.Plan.Batch.{
  entry, push_row, group_rows, ids_of, steps_by_plan, decisions_by_plan, grouped_plan, build_plans,
  listed_rows, list_by_project,
}

append_one : {A : Type 0} (xs ys : List A) (a : A) → xs ++ a ∷ ys ≡ (xs ++ a ∷ []) ++ ys
append_one [] ys a = refl
append_one (x ∷ xs) ys a = ap (λ l. x ∷ l) (append_one xs ys a)

append_nil : {A : Type 0} (xs : List A) → xs ++ [] ≡ xs
append_nil [] = refl
append_nil (x ∷ xs) = ap (λ l. x ∷ l) (append_nil xs)

module _ {A : Type 0} where
  entry-push_same :
      (id key : Text) (a : A) (groups : List (Text × List A))
      → text_eq key id ≡ true
      → entry id (push_row key a groups) ≡ entry id groups ++ a ∷ []
  unfolding entry push_row
  entry-push_same id key a [] h = rw h refl
  entry-push_same id key a ((k, l) ∷ rest) h =
      let same : text_eq k key ≡ text_eq k id = ap (text_eq k) (text_eq_sound key id h) in
      elim (Bool-cases (text_eq k id)) [
        | inl e ↦ rw (same ∙ e, e) refl
        | inr e ↦ rw (same ∙ e, e) (entry-push_same id key a rest h)
      ]

  entry-push_other :
      (id key : Text) (a : A) (groups : List (Text × List A))
      → text_eq key id ≡ false
      → entry id (push_row key a groups) ≡ entry id groups
  unfolding entry push_row
  entry-push_other id key a [] h = rw h refl
  entry-push_other id key a ((k, l) ∷ rest) h = elim (Bool-cases (text_eq k key)) [
    | inl e ↦ let apart = ap (λ t. text_eq t id) (text_eq_sound k key e) ∙ h in rw (e, apart) refl
    | inr e ↦ elim (Bool-cases (text_eq k id)) [
      | inl q ↦ rw (e, q) refl
      | inr q ↦ rw (e, q) (entry-push_other id key a rest h)
    ]
  ]

  entry-group_rows :
      (group : A → Text) (id : Text) (l : List A) (groups : List (Text × List A))
      → entry id (group_rows group l groups) ≡ entry id groups ++ keep (λ a. text_eq (group a) id) l
  unfolding group_rows
  entry-group_rows group id [] groups = sym (append_nil (entry id groups))
  entry-group_rows group id (a ∷ l) groups =
      let rest = entry-group_rows group id l (push_row (group a) a groups) in
      elim (Bool-cases (text_eq (group a) id)) [
        | inl e ↦ rw e (
            rest
            ∙ ap (λ t. t ++ keep (λ b. text_eq (group b) id) l)
                (entry-push_same id (group a) a groups e)
            ∙ sym (append_one (entry id groups) (keep (λ b. text_eq (group b) id) l) a))
        | inr e ↦ rw e (
            rest
            ∙ ap (λ t. t ++ keep (λ b. text_eq (group b) id) l)
                (entry-push_other id (group a) a groups e))
      ]

  keep-keep_ids :
      (group : A → Text) (id : Text) (ids : List Text) (l : List A)
      → includes id ids ≡ true
      → keep (λ a. text_eq (group a) id) (keep (λ a. includes (group a) ids) l)
        ≡ keep (λ a. text_eq (group a) id) l
  keep-keep_ids group id ids [] h = refl
  keep-keep_ids group id ids (a ∷ l) h = elim (Bool-cases (text_eq (group a) id)) [
    | inl e ↦
        let inside = ap (λ t. includes t ids) (text_eq_sound (group a) id e) ∙ h in
        rw inside (rw e (ap (λ t. a ∷ t) (keep-keep_ids group id ids l h)))
    | inr e ↦ elim (Bool-cases (includes (group a) ids)) [
      | inl q ↦ rw q (rw e (keep-keep_ids group id ids l h))
      | inr q ↦ rw q (rw e (keep-keep_ids group id ids l h))
    ]
  ]

  -- What the map holds of a plan are its rows, sorted.
  entry_of_plan :
      (group : A → Text) (before : A → A → Bool) (id : Text) (ids : List Text) (l : List A)
      → includes id ids ≡ true
      → entry id (
          group_rows group
            (sort_by (in_groups group before) (keep (λ a. includes (group a) ids) l))
            [])
        ≡ sort_by before (keep (λ a. text_eq (group a) id) l)
  unfolding entry
  entry_of_plan group before id ids l h =
      entry-group_rows group id _ []
      ∙ keep-sort_by group before id (keep (λ a. includes (group a) ids) l)
      ∙ ap (sort_by before) (keep-keep_ids group id ids l h)

-- Functions that agree on the members of a list map it alike.
map_same :
    {A B : Type 0} (f g : A → B) (l : List A) → ((a : A) → Memᴰ a l → f a ≡ g a) → map f l ≡ map g l
map_same f g [] h = refl
map_same f g (a ∷ l) h =
    let first = h a (Memᴰ.head refl) in
    rw first (ap (λ t. g a ∷ t) (map_same f g l (λ b m. h b (Memᴰ.tail m))))

includes_ids :
    (row : PlanRow) (rows : List PlanRow) → Memᴰ row rows → includes row.id (ids_of rows) ≡ true
unfolding includes
includes_ids row [] m = elim m [ ]
includes_ids row (r ∷ rows) (Memᴰ.head e) =
    let same = ap (λ (p : PlanRow). text_eq row.id p.id) (sym e) ∙ text_eq_refl row.id in
    rw same refl
includes_ids row (r ∷ rows) (Memᴰ.tail m) = ground (arith, includes_ids row rows m)

grouped_plan-build_plan :
    (store : PlanStore) (ids : List Text) (row : PlanRow)
    → includes row.id ids ≡ true
    → grouped_plan (steps_by_plan ids store) (decisions_by_plan ids store) row
      ≡ build_plan store row
unfolding grouped_plan steps_by_plan decisions_by_plan build_plan get_steps get_decisions
grouped_plan-build_plan store ids row inside =
    rw
      (
        entry_of_plan (λ (s : StepRow). s.plan_id) by_step_id row.id ids store.steps inside,
        entry_of_plan (λ (d : DecisionRow). d.plan_id) by_decided_at row.id ids store.decisions
            inside,
      )
      refl

build_plans-build_plan :
    (store : PlanStore) (rows : List PlanRow) → build_plans store rows ≡ map (build_plan store) rows
unfolding build_plans
build_plans-build_plan store [] = refl
build_plans-build_plan store (first ∷ rest) =
    let ids = ids_of (first ∷ rest) in
    map_same (grouped_plan (steps_by_plan ids store) (decisions_by_plan ids store))
      (build_plan store) (first ∷ rest)
      (λ row m. grouped_plan-build_plan store ids row (includes_ids row (first ∷ rest) m))

-- The plans of a project as `listByProject` reads them, by one query for all their steps and one
-- for all their decisions, are those that each row gives by itself.
pub list_by_project-build_plan :
    (project : Text) (store : PlanStore)
    → list_by_project project store ≡ map (build_plan store) (listed_rows project store)
unfolding list_by_project
list_by_project-build_plan project store = build_plans-build_plan store (listed_rows project store)
