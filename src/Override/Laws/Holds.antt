-- ===== src/Override/Laws/Holds.antt =====
-- The validation of an override, as a condition on its bindings and its times.
use cairn_memory.Base.{
  ℕ, ◌+◌, ◌≤◌, ◌<◌, ◌≡◌, refl, ap, ◌↔◌, inl, inr, Bool, true, false, not, Option, none, some,
  if◌then◌else◌, arith, Bool-cases, or_else,
}
use cairn_memory.Base.Text.{Text, text_eq, text_eq_sound, text_eq_iff}
use cairn_memory.Evidence.{Count}
use cairn_memory.Override.{
  Candidate, Context, Validation, valid, invalid, rule_revision_mismatch, gate_set_mismatch,
  exact_strings, rule_keys, well_formed, validate_times, validate_bindings,
  validate_governance_override, override_max_duration_ms, dated,
}
use cairn_memory.Override.Laws.{SameTexts, exact_strings_iff}

abbrev pub is_valid : Validation → Bool
is_valid (valid audit_id) = true
is_valid (invalid reason) = false

-- The candidate is bound to the context.
abbrev pub IsBound : (Text → Option ℕ) → (Count → Text) → Candidate → Context → Type 0
IsBound parse_date show_number candidate context =
    (candidate.project ≡ context.project)
    × (candidate.session_id ≡ context.session_id)
    × (candidate.config_sha256 ≡ context.config_sha256)
    × (candidate.worktree_digest ≡ context.worktree_digest)
    × SameTexts (rule_keys parse_date show_number candidate.rules)
        (rule_keys parse_date show_number context.rules)
    × SameTexts candidate.gate_ids context.gate_ids

-- It was issued for at most a day, and is not over.
abbrev pub IsOpen : ℕ → ℕ → ℕ → Type 0
IsOpen issued expires now_ms =
    (issued < expires) × (expires ≤ issued + override_max_duration_ms) × (now_ms < expires)

abbrev pub Holds : (Text → Option ℕ) → (Count → Text) → Candidate → Context → Type 0
Holds parse_date show_number candidate context =
    (issued expires : ℕ) × (parse_date candidate.issued_at ≡ some issued)
    × (parse_date candidate.expires_at ≡ some expires)
    × (well_formed parse_date show_number candidate ≡ true)
    × IsBound parse_date show_number candidate context
    × IsOpen issued expires context.now_ms

module _ (parse_date : Text → Option ℕ) (show_number : Count → Text) where
  times_iff :
      (id issued expires now_ms : ℕ)
      → (is_valid (validate_times parse_date show_number id issued expires now_ms) ≡ true)
        ↔ IsOpen issued expires now_ms
  unfolding validate_times
  times_iff id issued expires now_ms = (λ h. ground arith, λ h. ground arith)

  bindings_sound :
      (candidate : Candidate) (context : Context) (issued expires : ℕ)
      → is_valid (validate_bindings parse_date show_number candidate context issued expires) ≡ true
      → IsBound parse_date show_number candidate context × IsOpen issued expires context.now_ms
  unfolding validate_bindings
  bindings_sound candidate context issued expires h =
      elim (Bool-cases (text_eq candidate.project context.project)) [
        | inr a ↦ absurd (cc (rw a at h))
        | inl a ↦ elim (Bool-cases (text_eq candidate.session_id context.session_id)) [
          | inr b ↦ absurd (cc (rw (a, b) at h))
          | inl b ↦ elim (Bool-cases (text_eq candidate.config_sha256 context.config_sha256)) [
            | inr c ↦ absurd (cc (rw (a, b, c) at h))
            | inl c ↦
                elim (Bool-cases (text_eq candidate.worktree_digest context.worktree_digest)) [
                  | inr d ↦ absurd (cc (rw (a, b, c, d) at h))
                  | inl d ↦
                      let (rules, gates, within) =
                        lists_sound candidate context issued expires (rw (a, b, c, d) at h) in
                      (
                        (
                          text_eq_sound _ _ a,
                          text_eq_sound _ _ b,
                          text_eq_sound _ _ c,
                          text_eq_sound _ _ d,
                          rules,
                          gates,
                        ),
                        within,
                      )
                ]
          ]
        ]
      ]
    where
      lists_sound :
          (candidate : Candidate) (context : Context) (issued expires : ℕ)
          → is_valid (
              if not (
                exact_strings
                  (rule_keys parse_date show_number candidate.rules)
                  (rule_keys parse_date show_number context.rules))
              then invalid rule_revision_mismatch
              else if not (exact_strings candidate.gate_ids context.gate_ids)
              then invalid gate_set_mismatch
              else validate_times parse_date show_number candidate.audit_id issued expires
                  context.now_ms)
            ≡ true
          → SameTexts
              (rule_keys parse_date show_number candidate.rules)
              (rule_keys parse_date show_number context.rules)
            × SameTexts candidate.gate_ids context.gate_ids
            × IsOpen issued expires context.now_ms
      lists_sound candidate context issued expires h =
          let left = rule_keys parse_date show_number candidate.rules in
          let right = rule_keys parse_date show_number context.rules in
          elim (Bool-cases (exact_strings left right)) [
            | inr a ↦ absurd (cc (rw a at h))
            | inl a ↦ elim (Bool-cases (exact_strings candidate.gate_ids context.gate_ids)) [
              | inr b ↦ absurd (cc (rw (a, b) at h))
              | inl b ↦ (
                (exact_strings_iff left right).0 a,
                (exact_strings_iff candidate.gate_ids context.gate_ids).0 b,
                (times_iff candidate.audit_id issued expires context.now_ms).0 (rw (a, b) at h),
              )
            ]
          ]

  bindings_complete :
      (candidate : Candidate) (context : Context) (issued expires : ℕ)
      → IsBound parse_date show_number candidate context
      → IsOpen issued expires context.now_ms
      → is_valid (validate_bindings parse_date show_number candidate context issued expires) ≡ true
  unfolding validate_bindings
  bindings_complete candidate context issued expires (a, b, c, d, rules, gates) within =
      rw
        (
          (text_eq_iff _ _).1 a,
          (text_eq_iff _ _).1 b,
          (text_eq_iff _ _).1 c,
          (text_eq_iff _ _).1 d,
          (exact_strings_iff _ _).1 rules,
          (exact_strings_iff _ _).1 gates,
        )
        ((times_iff candidate.audit_id issued expires context.now_ms).1 within)

  dated_iff :
      (candidate : Candidate) (context : Context) (o p : Option ℕ)
      → (is_valid (dated parse_date show_number candidate context o p) ≡ true) ↔ (
          (issued expires : ℕ) × (o ≡ some issued)
          × (p ≡ some expires)
          × (well_formed parse_date show_number candidate ≡ true)
          × IsBound parse_date show_number candidate context
          × IsOpen issued expires context.now_ms)
  dated_iff candidate context none p =
      (λ h. absurd (cc), λ (i, e, a, b, c, bound, within). absurd (cc a))
  dated_iff candidate context (some i) none =
      (λ h. absurd (cc), λ (j, e, a, b, c, bound, within). absurd (cc b))
  dated_iff candidate context (some i) (some e) =
      elim (Bool-cases (well_formed parse_date show_number candidate)) [
        | inr w ↦ rw w (λ h. absurd (cc), λ (j, k, a, b, c, bound, within). absurd (cc c))
        | inl w ↦ rw w (
          λ h.
              let (bound, within) = bindings_sound candidate context i e h in
              (i, e, refl, refl, refl, bound, within),
          λ (j, k, a, b, c, bound, within).
              bindings_complete candidate context i e bound
                (rw (ap (λ o. or_else o 0) a, ap (λ o. or_else o 0) b) within),
        )
      ]

-- An override is valid exactly when its dates parse, it is well formed, it is bound to the
-- project, the session, the configuration, the worktree's digest, the rules' revisions and the
-- gates of the context, each list as a set, and it was issued for at most a day that is not over.
pub validate_override_iff :
    (parse_date : Text → Option ℕ) (show_number : Count → Text) (candidate : Candidate)
    (context : Context)
    → (is_valid (validate_governance_override parse_date show_number candidate context) ≡ true)
      ↔ Holds parse_date show_number candidate context
unfolding validate_governance_override
validate_override_iff parse_date show_number candidate context =
    dated_iff parse_date show_number candidate context (parse_date candidate.issued_at)
      (parse_date candidate.expires_at)
