-- ===== src/Retention/Laws.antt =====
-- What the cleanup of evidence keeps.
pub mod Answer
use cairn_memory.Base.{
  ℕ, ◌+◌, ◌≡◌, refl, sym, ap, ◌∙◌, inl, inr, Bool, true, false, not, ◌&&◌, ◌||◌, Option, none, some,
  List, [], ◌∷◌, ◌++◌, Memᴰ, ltb, any, all, keep, length, count_if, is_some, or_else, map_option,
  if◌then◌else◌, arith, Bool-cases, Option-cases, mem-keep, mem_of_keep, any-append, length-append,
}
use cairn_memory.Base.Text.{Text, text_eq, text_lt, text_eq_sound}
use cairn_memory.Evidence.{Count, nat}
use cairn_memory.Retention.{
  EventRow, RunRow, AuditLink, EvidenceTables, CleanupOptions, CleanupResult, valid_days,
  persisted_evidence_days, default_days, days_of, projects_of, old_run, has_run, has_link,
  old_event, no_deletions, cutoff_of, clean_project, clean_projects, cleanup_evidence,
}

any_of_keep :
    {A : Type 0} (p q : A → Bool) (xs : List A) → any p (keep q xs) ≡ true → any p xs ≡ true
any_of_keep p q [] h = h
any_of_keep p q (x ∷ xs) h = ground (arith, any_of_keep p q xs)

or_map :
    (a b c d e : Bool)
    → (a ≡ true → d ≡ true)
    → (b ≡ true → e ≡ true)
    → (a || b || c) ≡ true
    → (d || e || c) ≡ true
or_map true b c d e f g h = rw (f refl) refl
or_map false true c true e f g h = refl
or_map false true c false e f g h = rw (g refl) refl
or_map false false c true e f g h = refl
or_map false false c false true f g h = refl
or_map false false c false false f g h = h

module _ (to_iso : (now back : ℕ) → Text) where
  -- An event that its project's days keep.
  abbrev pub is_recent : CleanupOptions → EvidenceTables → EventRow → Bool
  is_recent options tables event = elim (valid_days (days_of options tables event.project)) [
    | none ↦ true
    | some days ↦ not (text_lt event.created_at (cutoff_of to_iso options.now_ms days))
  ]

  abbrev after_one : CleanupOptions → Text → ℕ → CleanupResult → EvidenceTables → EvidenceTables
  after_one options project days result tables =
      (clean_project to_iso options.now_ms project days (result, tables)).1

  after_one-runs :
      (options : CleanupOptions) (project : Text) (days : ℕ) (result : CleanupResult)
      (tables : EvidenceTables) (event : EventRow)
      → has_run (after_one options project days result tables).runs event ≡ true
      → has_run tables.runs event ≡ true
  unfolding clean_project has_run
  after_one-runs options project days result tables event h = any_of_keep _ _ tables.runs h

  after_one-links :
      (options : CleanupOptions) (project : Text) (days : ℕ) (result : CleanupResult)
      (tables : EvidenceTables) (event : EventRow)
      → has_link tables.audits event ≡ true
      → has_link (after_one options project days result tables).audits event ≡ true
  unfolding clean_project has_link
  after_one-links options project days result tables event h =
      any-append _ tables.audits _ ∙ rw h refl

  after_one-events :
      (options : CleanupOptions) (project : Text) (days : ℕ) (result : CleanupResult)
      (tables : EvidenceTables) (event : EventRow)
      → Memᴰ event (after_one options project days result tables).events
      → Memᴰ event tables.events
  unfolding clean_project
  after_one-events options project days result tables event m =
      (mem_of_keep _ tables.events event m).0

  not_old :
      (options : CleanupOptions) (project : Text) (days : ℕ) (runs : List RunRow)
      (tables : EvidenceTables) (event : EventRow)
      → valid_days (days_of options tables project) ≡ some days
      → (has_run runs event || has_link tables.audits event || is_recent options tables event)
        ≡ true
      → old_event project (cutoff_of to_iso options.now_ms days) runs tables.audits event ≡ false
  unfolding old_event
  not_old options project days runs tables event valid h =
      elim (Bool-cases (text_eq event.project project)) [
        | inl e ↦
            let same : valid_days (days_of options tables event.project) ≡ some days =
              ap (λ p. valid_days (days_of options tables p))
                (text_eq_sound event.project project e)
              ∙ valid in
            ground (arith, rw (same, is_recent) at h)
        | inr e ↦ rw e refl
      ]

  after_one-kept :
      (options : CleanupOptions) (project : Text) (days : ℕ) (result : CleanupResult)
      (tables : EvidenceTables) (event : EventRow)
      → valid_days (days_of options tables project) ≡ some days
      → Memᴰ event tables.events
      → (has_run (after_one options project days result tables).runs event
          || has_link tables.audits event
          || is_recent options tables event)
        ≡ true
      → Memᴰ event (after_one options project days result tables).events
  unfolding clean_project
  after_one-kept options project days result tables event valid m h =
      mem-keep _ tables.events event m
        (ap not (not_old options project days _ tables event valid h))

  projects_kept :
      (options : CleanupOptions) (projects : List Text) (result result2 : CleanupResult)
      (tables after : EvidenceTables) (event : EventRow)
      → clean_projects to_iso options projects (result, tables) ≡ some (result2, after)
      → (has_run after.runs event ≡ true → has_run tables.runs event ≡ true)
        × (Memᴰ event after.events → Memᴰ event tables.events)
        × (Memᴰ event tables.events
            → (has_run after.runs event
                || has_link tables.audits event
                || is_recent options tables event)
              ≡ true
            → Memᴰ event after.events)
  unfolding clean_projects
  projects_kept options [] result result2 tables after event h =
      let same : tables ≡ after = cc in (λ q. rw same q, λ m. rw same m, λ m q. rw (sym same) m)
  projects_kept options (project ∷ projects) result result2 tables after event h =
      elim (Option-cases (valid_days (days_of options tables project))) [
        | inl e ↦ absurd (cc (rw e at h))
        | inr (days, e) ↦
            let one = clean_project to_iso options.now_ms project days (result, tables) in
            let (runs, back, kept) =
              projects_kept options projects one.0 result2 one.1 after event (rw e at h) in
            (
              λ q. after_one-runs options project days result tables event (runs q),
              λ m. after_one-events options project days result tables event (back m),
              λ m q.
                  kept
                    (after_one-kept options project days result tables event e m
                      (or_map _ _ _ _ _ runs (λ x. x) q))
                    (or_map _ _ _ _ _ (λ x. x)
                      (after_one-links options project days result tables event) q),
            )
      ]

-- A cleanup that succeeds leaves an event only if it was there, and it leaves every event that was
-- there to which a gate run that is left or an audit row refers, or that its project's days keep.
pub cleanup_protects :
    (to_iso : (now back : ℕ) → Text) (options : CleanupOptions) (result : CleanupResult)
    (tables after : EvidenceTables) (event : EventRow)
    → cleanup_evidence to_iso options tables ≡ some (result, after)
    → (Memᴰ event after.events → Memᴰ event tables.events)
      × (Memᴰ event tables.events
          → (has_run after.runs event
              || has_link tables.audits event
              || is_recent to_iso options tables event)
            ≡ true
          → Memᴰ event after.events)
unfolding cleanup_evidence
cleanup_protects to_iso options result tables after event h =
    elim (Option-cases (valid_days (default_days options))) [
      | inl e ↦ absurd (cc (rw e at h))
      | inr (days, e) ↦
          let (runs, back, kept) =
            projects_kept to_iso options (projects_of tables) no_deletions result tables after event
              (rw e at h) in
          (back, kept)
    ]
