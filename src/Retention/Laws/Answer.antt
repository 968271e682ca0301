-- ===== src/Retention/Laws/Answer.antt =====
-- What the cleanup of evidence answers.
use cairn_memory.Base.{
  ltb, false, ℕ, ◌+◌, ◌≡◌, refl, sym, ap, ◌∙◌, inl, inr, Bool, true, not, ◌&&◌, some, List, [], ◌∷◌,
  all, keep, find, length, count_if, is_some, or_else, if◌then◌else◌, arith, Option-cases,
  length-append,
}
use cairn_memory.Base.Text.{Text, text_eq}
use cairn_memory.Evidence.{Count, nat}
use cairn_memory.Retention.{
  EvidenceTables, CleanupOptions, CleanupResult, valid_days, persisted_evidence_days, default_days,
  days_of, projects_of, no_deletions, clean_project, clean_projects, cleanup_evidence,
}

count-length :
    {A : Type 0} (p : A → Bool) (xs : List A)
    → count_if p xs + length (keep (λ x. not (p x)) xs) ≡ length xs
count-length p [] = refl
count-length p (x ∷ xs) = ground (arith, count-length p xs)

-- The counts of a cleanup that starts from `result` are the rows that are gone.
abbrev pub IsCounted : CleanupResult → EvidenceTables → CleanupResult → EvidenceTables → Type 0
IsCounted result tables result2 after =
    (result2.gate_runs_deleted + length after.runs ≡ result.gate_runs_deleted + length tables.runs)
    × (result2.tool_events_deleted + length after.events
        ≡ result.tool_events_deleted + length tables.events)
    × (result2.projects_audited + length tables.audits
        ≡ result.projects_audited + length after.audits)

length-if :
    {A : Type 0} (b : Bool) (x : A) → length (if b then x ∷ [] else []) ≡ (if b then 1 else 0)
length-if b x = ground arith

module _ (to_iso : (now back : ℕ) → Text) where
  clean_project-IsCounted :
      (now : ℕ) (project : Text) (days : ℕ) (result : CleanupResult) (tables : EvidenceTables)
      → IsCounted result tables
          (clean_project to_iso now project days (result, tables)).0
          (clean_project to_iso now project days (result, tables)).1
  unfolding clean_project
  clean_project-IsCounted now project days result tables = (
    omega (arith, count-length _ tables.runs),
    omega (arith, count-length _ tables.events),
    omega (arith, length-append tables.audits _, length-if _ _),
  )

  clean_projects-IsCounted :
      (options : CleanupOptions) (projects : List Text) (result result2 : CleanupResult)
      (tables after : EvidenceTables)
      → clean_projects to_iso options projects (result, tables) ≡ some (result2, after)
      → IsCounted result tables result2 after
  unfolding clean_projects
  clean_projects-IsCounted options [] result result2 tables after h =
      let first : result ≡ result2 = cc in
      let second : tables ≡ after = cc in rw (sym first, sym second) (refl, refl, refl)
  clean_projects-IsCounted options (project ∷ projects) result result2 tables after h =
      elim (Option-cases (valid_days (days_of options tables project))) [
        | inl e ↦ absurd (cc (rw e at h))
        | inr (days, e) ↦
            let one = clean_project to_iso options.now_ms project days (result, tables) in
            let now = clean_project-IsCounted options.now_ms project days result tables in
            let later =
              clean_projects-IsCounted options projects one.0 result2 one.1 after (rw e at h) in
            (later.0 ∙ now.0, later.1 ∙ now.1, omega (arith, later.2, now.2))
      ]

-- The counts that a cleanup answers are the gate runs and events that are gone and the audit rows
-- that are new.
pub cleanup_counts :
    (to_iso : (now back : ℕ) → Text) (options : CleanupOptions) (result : CleanupResult)
    (tables after : EvidenceTables)
    → cleanup_evidence to_iso options tables ≡ some (result, after)
    → IsCounted no_deletions tables result after
unfolding cleanup_evidence
cleanup_counts to_iso options result tables after h =
    elim (Option-cases (valid_days (default_days options))) [
      | inl e ↦ absurd (cc (rw e at h))
      | inr (days, e) ↦
          clean_projects-IsCounted to_iso options (projects_of tables) no_deletions result tables
            after (rw e at h)
    ]

-- The days that the options give a project, or else by default.
abbrev pub asked_days : CleanupOptions → Text → Count
asked_days options project = or_else (options.project_days project) (default_days options)

valid_nat : (c : Count) (days : ℕ) → valid_days c ≡ some days → valid_days (nat days) ≡ some days
unfolding valid_days
valid_nat (nat n) days h = ground arith
valid_nat Count.other days h = absurd (cc)

persisted_valid :
    (tables : EvidenceTables) (project : Text) (days : ℕ)
    → persisted_evidence_days tables project ≡ some days
    → is_some (valid_days (nat days)) ≡ true
unfolding persisted_evidence_days
persisted_valid tables project days h =
    elim (Option-cases (find (λ (row : Text × Count). text_eq row.0 project) tables.retention)) [
      | inl e ↦ absurd (cc (rw e at h))
      | inr (row, e) ↦ ap is_some (valid_nat row.1 days (rw e at h))
    ]

days_of-valid :
    (options : CleanupOptions) (tables : EvidenceTables) (project : Text)
    → is_some (valid_days (default_days options)) ≡ true
    → is_some (valid_days (days_of options tables project))
      ≡ is_some (valid_days (asked_days options project))
unfolding days_of
days_of-valid options tables project fine = elim (Option-cases (options.project_days project)) [
  | inr (days, e) ↦ rw e refl
  | inl e ↦ elim (Option-cases (persisted_evidence_days tables project)) [
    | inl q ↦ rw (e, q) refl
    | inr (days, q) ↦ rw (e, q) (persisted_valid tables project days q ∙ sym fine)
  ]
]

projects_valid :
    (to_iso : (now back : ℕ) → Text) (options : CleanupOptions) (projects : List Text)
    (result : CleanupResult) (tables : EvidenceTables)
    → is_some (valid_days (default_days options)) ≡ true
    → is_some (clean_projects to_iso options projects (result, tables))
      ≡ all (λ p. is_some (valid_days (asked_days options p))) projects
unfolding clean_projects
projects_valid to_iso options [] result tables fine = refl
projects_valid to_iso options (project ∷ projects) result tables fine =
    elim (Option-cases (valid_days (days_of options tables project))) [
      | inl e ↦
          let no = sym (days_of-valid options tables project fine) ∙ ap is_some e in rw (e, no) refl
      | inr (days, e) ↦
          let yes = sym (days_of-valid options tables project fine) ∙ ap is_some e in
          let one = clean_project to_iso options.now_ms project days (result, tables) in
          rw (e, yes) (projects_valid to_iso options projects one.0 one.1 fine)
    ]

-- A number of days from 1 to 30.
abbrev pub is_month : Count → Bool
is_month (nat days) = ltb 0 days && ltb days 31
is_month Count.other = false

is_month-valid : (c : Count) → is_some (valid_days c) ≡ is_month c
unfolding valid_days
is_month-valid (nat days) = ground arith
is_month-valid Count.other = refl

all-is_month :
    (options : CleanupOptions) (projects : List Text)
    → all (λ p. is_some (valid_days (asked_days options p))) projects
      ≡ all (λ p. is_month (asked_days options p)) projects
all-is_month options [] = refl
all-is_month options (project ∷ projects) =
    rw (is_month-valid (asked_days options project), all-is_month options projects) refl

-- A cleanup succeeds exactly when the default days are from 1 to 30, and so are the days that the
-- options give any project with rows; days that were persisted never make it fail.
pub cleanup_succeeds_iff :
    (to_iso : (now back : ℕ) → Text) (options : CleanupOptions) (tables : EvidenceTables)
    → is_some (cleanup_evidence to_iso options tables) ≡ (
        is_month (default_days options)
        && all (λ p. is_month (asked_days options p)) (projects_of tables))
unfolding cleanup_evidence
cleanup_succeeds_iff to_iso options tables =
    elim (Option-cases (valid_days (default_days options))) [
      | inl e ↦
          let no = sym (is_month-valid (default_days options)) ∙ ap is_some e in rw (e, no) refl
      | inr (days, e) ↦
          let yes = sym (is_month-valid (default_days options)) ∙ ap is_some e in
          rw (e, yes)
            (projects_valid to_iso options (projects_of tables) no_deletions tables (ap is_some e)
              ∙ all-is_month options (projects_of tables))
    ]
