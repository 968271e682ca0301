-- ===== src/Evidence/Selection/Laws.antt =====
-- Which rules and gates a session's mutations select.
use cairn_memory.Base.{
  ℕ, ◌≤◌, ◌≡◌, refl, sym, ◌∙◌, inl, inr, Bool, true, false, not, ◌&&◌, ◌||◌, List, [], ◌∷◌, ◌++◌,
  map, arith, max, any, keep, flat_map, Memᴰ, any-append, ap, Bool-cases, any-keep_other,
}
use cairn_memory.Base.Text.{Text, text_eq, text_lt, includes, includes-append, text_eq_sound}
use cairn_memory.Base.Sorting.{sort_by, any-sort_by, mem-sort_by}
use cairn_memory.Evidence.{RuleInput, PathRule, MutationEvent}
use cairn_memory.Evidence.Glob.{normalize_pattern, path_matches_patterns}
use cairn_memory.Evidence.Selection.{
  SelectionInput, distinct, is_scoped, is_unknown, rule_before, has_unknown, is_applicable,
  is_selected, changed_paths_of, required_of, watermark_from, select_evidence_requirements,
}

includes-any : (t : Text) (ts : List Text) → includes t ts ≡ any (text_eq t) ts
unfolding includes
includes-any t [] = refl
includes-any t (s ∷ ts) = rw (includes-any t ts)

any-cong : {A : Type 0} (p q : A → Bool) (xs : List A) → ((x : A) → p x ≡ q x) → any p xs ≡ any q xs
any-cong p q [] h = refl
any-cong p q (x ∷ xs) h = rw (h x, any-cong p q xs h)

-- What is dropped as a duplicate of `t` satisfies nothing that `t` does not.
same_or_fails : (p : Text → Bool) (t s : Text) → p t ≡ false → (not (text_eq s t) && p s) ≡ p s
same_or_fails p t s h = elim (Bool-cases (text_eq s t)) [
  | inr e ↦ rw e
  | inl e ↦ rw e (sym (ap p (text_eq_sound s t e) ∙ h))
]

pub any-distinct : (p : Text → Bool) (ts : List Text) → any p (distinct ts) ≡ any p ts
unfolding distinct
any-distinct p [] = refl
any-distinct p (t ∷ ts) = elim (Bool-cases (p t)) [
  | inl e ↦ rw e
  | inr e ↦ rw e (
      any-keep_other p (λ s. not (text_eq s t)) (distinct ts)
      ∙ any-cong _ p (distinct ts) (λ s. same_or_fails p t s e)
      ∙ any-distinct p ts)
]

-- Sorting and removing duplicates keep what some text satisfies.
any-canonical :
    (p : Text → Bool) (ts : List Text) → any p (sort_by text_lt (distinct ts)) ≡ any p ts
any-canonical p ts = any-sort_by text_lt p (distinct ts) ∙ any-distinct p ts

includes-flat_map :
    {A : Type 0} (f : A → List Text) (t : Text) (xs : List A)
    → includes t (flat_map f xs) ≡ any (λ x. includes t (f x)) xs
unfolding includes
includes-flat_map f t [] = refl
includes-flat_map f t (x ∷ xs) = includes-append t (f x) _ ∙ rw (includes-flat_map f t xs)

includes-required_of :
    (gate : Text) (selected : List PathRule) (applicable : List RuleInput)
    → includes gate (required_of selected applicable) ≡ (
        any (λ (rule : PathRule). includes gate rule.require) selected
        || any (λ (rule : RuleInput). includes gate rule.gate_ids) applicable)
unfolding required_of
includes-required_of gate selected applicable =
    let requires = flat_map (λ (rule : PathRule). rule.require) selected in
    let names = flat_map (λ (rule : RuleInput). rule.gate_ids) applicable in
    includes-any gate (sort_by text_lt (distinct (requires ++ names)))
    ∙ any-canonical (text_eq gate) (requires ++ names)
    ∙ sym (includes-any gate (requires ++ names))
    ∙ includes-append gate requires names
    ∙ rw (
      includes-flat_map (λ (rule : PathRule). rule.require) gate selected,
      includes-flat_map (λ (rule : RuleInput). rule.gate_ids) gate applicable,
    )

-- A gate is required exactly if a selected path rule requires it or an applicable rule names it.
pub required_gate_iff :
    (input : SelectionInput) (gate : Text)
    → let s = select_evidence_requirements input in
      includes gate s.required_gate_ids ≡ (
        any
          (λ (rule : PathRule).
            is_selected (has_unknown input.events) (changed_paths_of input.events) rule
            && includes gate rule.require)
          input.path_rules
        || any
            (λ (rule : RuleInput).
              is_applicable (has_unknown input.events) (changed_paths_of input.events) rule
              && includes gate rule.gate_ids)
            input.rules)
unfolding select_evidence_requirements
required_gate_iff input gate =
    let unknown_mutation = has_unknown input.events in
    let changed = changed_paths_of input.events in
    includes-required_of gate (keep (is_selected unknown_mutation changed) input.path_rules)
      (keep (is_applicable unknown_mutation changed) input.rules)
    ∙ rw (
      any-keep_other (λ (rule : PathRule). includes gate rule.require)
          (is_selected unknown_mutation changed) input.path_rules,
      any-keep_other (λ (rule : RuleInput). includes gate rule.gate_ids)
          (is_applicable unknown_mutation changed) input.rules,
    )

any-flat_map :
    {A : Type 0} (p : Text → Bool) (f : A → List Text) (xs : List A)
    → any p (flat_map f xs) ≡ any (λ x. any p (f x)) xs
any-flat_map p f [] = refl
any-flat_map p f (x ∷ xs) = any-append p (f x) _ ∙ rw (any-flat_map p f xs)

-- Some changed path satisfies a test exactly if some scoped event has such a path.
any-changed_paths_of :
    (p : Text → Bool) (events : List MutationEvent)
    → any p (changed_paths_of events)
      ≡ any
          (λ (e : MutationEvent).
            is_scoped e.mutation_class && any p (map normalize_pattern e.affected_paths))
          events
unfolding changed_paths_of
any-changed_paths_of p events =
    let scoped_events = keep (λ (e : MutationEvent). is_scoped e.mutation_class) events in
    let paths = λ (e : MutationEvent). map normalize_pattern e.affected_paths in
    any-canonical p (flat_map paths scoped_events)
    ∙ any-flat_map p paths scoped_events
    ∙ any-keep_other (λ (e : MutationEvent). any p (map normalize_pattern e.affected_paths))
        (λ (e : MutationEvent). is_scoped e.mutation_class) events

same_watermark :
    (n : ℕ) (gates : List Text) (entry : Text × ℕ)
    → Memᴰ entry (map (λ gate. (gate, n)) gates)
    → entry.1 ≡ n
same_watermark n [] entry m = elim m [ ]
same_watermark n (g ∷ gates) entry (Memᴰ.head e) = ap (λ (x : Text × ℕ). x.1) e
same_watermark n (g ∷ gates) entry (Memᴰ.tail m) = same_watermark n gates entry m

-- Further events never make a rule inapplicable.
pub is_applicable_mono :
    (before after : List MutationEvent) (rule : RuleInput)
    → is_applicable (has_unknown before) (changed_paths_of before) rule ≡ true
    → is_applicable (has_unknown (before ++ after)) (changed_paths_of (before ++ after)) rule ≡ true
unfolding is_applicable
is_applicable_mono before after rule h =
    let hits = λ (path : Text). path_matches_patterns path rule.paths in
    ground (
      arith,
      any-append (λ (e : MutationEvent). is_unknown e.mutation_class) before after,
      any-changed_paths_of hits before,
      any-changed_paths_of hits (before ++ after),
      any-append
          (λ (e : MutationEvent).
            is_scoped e.mutation_class && any hits (map normalize_pattern e.affected_paths))
          before after,
    )

watermark_from-ge : (n : ℕ) (rules : List RuleInput) → n ≤ watermark_from n rules
unfolding watermark_from
watermark_from-ge n [] = omega arith
watermark_from-ge n (r ∷ rules) =
    omega (arith, watermark_from-ge (max n r.watermark_event_seq) rules)

watermark_from-mem :
    (n : ℕ) (rules : List RuleInput) (rule : RuleInput)
    → Memᴰ rule rules
    → rule.watermark_event_seq ≤ watermark_from n rules
unfolding watermark_from
watermark_from-mem n [] rule m = elim m [ ]
watermark_from-mem n (r ∷ rules) rule (Memᴰ.head e) = omega (
  arith,
  watermark_from-ge (max n r.watermark_event_seq) rules,
  ap (λ (x : RuleInput). x.watermark_event_seq) e,
)
watermark_from-mem n (r ∷ rules) rule (Memᴰ.tail m) =
    watermark_from-mem (max n r.watermark_event_seq) rules rule m

-- The watermark of a required gate is at or above that of each applicable rule.
pub watermark_covers :
    (input : SelectionInput) (rule : RuleInput) (entry : Text × ℕ)
    → let s = select_evidence_requirements input in
      Memᴰ rule s.applicable_rules
      → Memᴰ entry s.watermark_by_gate
      → rule.watermark_event_seq ≤ entry.1
unfolding select_evidence_requirements
watermark_covers input rule entry m n =
    let applicable =
      keep (is_applicable (has_unknown input.events) (changed_paths_of input.events)) input.rules in
    rw (same_watermark _ _ entry n)
      (watermark_from-mem 0 applicable rule ((mem-sort_by rule_before rule applicable).0 m))
