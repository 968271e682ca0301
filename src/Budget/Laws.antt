-- ===== src/Budget/Laws.antt =====
-- The warnings of one turn.
use cairn_memory.Base.{
  ℕ, suc, ◌+◌, ◌-◌, ◌≤◌, ◌≡◌, refl, inl, inr, true, false, Option, none, some, List, [], ◌∷◌, ltb,
  if◌then◌else◌, or_else, arith, Bool-cases, and-eq-true,
}
use cairn_memory.Base.Text.{Text, text_eq, text_eq_refl}
use cairn_memory.Budget.{
  Tracker, max_warnings_per_turn, same_key, align_warning_turn, warning_tokens_remaining,
  warning_budget_available, record_warning_injection, inject, spend,
}

abbrev counted : Option ℕ → ℕ
counted none = 0
counted (some tokens) = 1

module _ (show_number : ℕ → Text) where
  -- How many warnings a run of the hook gives, each call with its tool use and the warning that it
  -- would give, all of one turn.
  unfoldable pub given_in_turn : Text → List (Option Text × Option ℕ) → Tracker → ℕ
  unfolding spend
  given_in_turn turn [] tracker = 0
  given_in_turn turn ((tool_use_id, tokens) ∷ calls) tracker =
      let step = spend show_number (some turn) tool_use_id tokens tracker in
      counted step.0 + given_in_turn turn calls step.1

  -- What the turn has been given already.
  abbrev spent : Text → Tracker → ℕ
  spent turn tracker = if same_key tracker.turn_key turn then or_else tracker.count 0 else 0

  aligned_spent :
      (turn : Text) (tool_use_id : Option Text) (tracker : Tracker)
      → text_eq turn [] ≡ false
      → (same_key (align_warning_turn show_number (some turn) tool_use_id tracker).turn_key turn
          ≡ true)
        × (or_else (align_warning_turn show_number (some turn) tool_use_id tracker).count 0
            ≡ spent turn tracker)
  unfolding align_warning_turn
  aligned_spent turn tool_use_id tracker named =
      elim (Bool-cases (same_key tracker.turn_key turn)) [
        | inl e ↦ rw (named, e) (e, refl)
        | inr e ↦ rw (named, e) (unfold same_key in text_eq_refl turn, refl)
      ]

  spent_of :
      (turn : Text) (tracker : Tracker)
      → same_key tracker.turn_key turn ≡ true
      → spent turn tracker ≡ or_else tracker.count 0
  spent_of turn tracker e = rw e refl

  recorded_spent :
      (turn : Text) (tokens : ℕ) (tracker : Tracker)
      → same_key tracker.turn_key turn ≡ true
      → spent turn (record_warning_injection show_number tokens tracker)
        ≡ suc (or_else tracker.count 0)
  unfolding record_warning_injection
  recorded_spent turn tokens tracker e = rw e (omega arith)

  available_none :
      (tracker : Tracker)
      → warning_budget_available show_number tracker ≡ true
      → or_else tracker.count 0 ≡ 0
  unfolding warning_budget_available
  available_none tracker h =
      let (few, room) =
        and-eq-true (ltb (or_else tracker.count 0) max_warnings_per_turn)
          (ltb 0 (warning_tokens_remaining show_number tracker)) h in
      ground (arith, few)

  given_bound :
      (turn : Text) (calls : List (Option Text × Option ℕ)) (tracker : Tracker)
      → text_eq turn [] ≡ false
      → given_in_turn turn calls tracker ≤ max_warnings_per_turn - spent turn tracker
  unfolding given_in_turn spend inject
  given_bound turn [] tracker named = omega arith
  given_bound turn ((tool_use_id, none) ∷ calls) tracker named =
      let aligned = align_warning_turn show_number (some turn) tool_use_id tracker in
      let (same, count) = aligned_spent turn tool_use_id tracker named in
      let nothing = given_bound turn calls aligned named in
      elim (Bool-cases (warning_budget_available show_number aligned)) [
        | inl e ↦ rw e (omega (arith, nothing, spent_of turn aligned same, count))
        | inr e ↦ rw e (omega (arith, nothing, spent_of turn aligned same, count))
      ]
  given_bound turn ((tool_use_id, some tokens) ∷ calls) tracker named =
      let aligned = align_warning_turn show_number (some turn) tool_use_id tracker in
      let (same, count) = aligned_spent turn tool_use_id tracker named in
      elim (Bool-cases (warning_budget_available show_number aligned)) [
        | inl e ↦
            let after = record_warning_injection show_number tokens aligned in
            rw e (
              omega (
                arith,
                given_bound turn calls after named,
                recorded_spent turn tokens aligned same,
                available_none aligned e,
                count,
              ))
        | inr e ↦
            rw e (
              omega
                (arith, given_bound turn calls aligned named, spent_of turn aligned same, count))
      ]

-- In one turn with an id, whatever the tracker holds at its start, the hook gives at most one
-- warning, over any run of its calls.
pub turn_bounded :
    (show_number : ℕ → Text) (turn : Text) (calls : List (Option Text × Option ℕ))
    (tracker : Tracker)
    → text_eq turn [] ≡ false
    → given_in_turn show_number turn calls tracker ≤ max_warnings_per_turn
turn_bounded show_number turn calls tracker named =
    omega (arith, given_bound show_number turn calls tracker named)
