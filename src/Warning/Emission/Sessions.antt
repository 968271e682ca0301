-- ===== src/Warning/Emission/Sessions.antt =====
-- The warnings of every session, over any run of the store's calls.
use cairn_memory.Base.{
  take, ◌≤◌, ◌<◌, ◌≡◌, refl, sym, ◌∙◌, subst, inl, inr, Bool, true, false, ◌&&◌, ◌||◌, List, [],
  ◌∷◌, ◌++◌, length, arith, length-append, Bool-cases, and-eq-true,
}
use cairn_memory.Base.Text.{Text, text_eq, text_eq_sound, includes}
use cairn_memory.Warning.Emission.{
  AuditRow, CommitInput, is_emitted, is_warning_of, commit_decision, committed_row, commit,
  incident, AuditCall, commits, notes_incident, run_call, run_calls, warning_max_per_session,
  warnings_of, history,
}
use cairn_memory.Warning.Emission.Laws.{
  IsBounded, shown, distinct, recorded, fingerprint_of, commit_emits_iff, emitted_row,
  shown-snoc_warned, shown-snoc_other, distinct-snoc, all-snoc,
}

IsBounded-snoc :
    (rows : List AuditRow) (r : AuditRow)
    → IsBounded rows
    → recorded r ≡ true
    → ((project session : Text)
        → is_warning_of project session r ≡ true
        → (length (shown project session rows) < warning_max_per_session)
          × (includes (fingerprint_of r) (shown project session rows) ≡ false))
    → IsBounded (rows ++ r ∷ [])
IsBounded-snoc rows r ok rec fresh = record {
  has_fingerprints = all-snoc rows r ok.has_fingerprints rec;
  few = λ p s. elim (Bool-cases (is_warning_of p s r)) [
    | inl e ↦ rw (shown-snoc_warned p s rows r e, length-append) (omega (arith, (fresh p s e).0))
    | inr e ↦ rw (shown-snoc_other p s rows r e) (ok.few p s)
  ];
  once = λ p s. elim (Bool-cases (is_warning_of p s r)) [
    | inl e ↦
        rw (shown-snoc_warned p s rows r e)
          (distinct-snoc (shown p s rows) (fingerprint_of r) (ok.once p s) (fresh p s e).1)
    | inr e ↦ rw (shown-snoc_other p s rows r e) (ok.once p s)
  ];
}

is_warning_of_sound :
    (project session : Text) (r : AuditRow)
    → is_warning_of project session r ≡ true
    → (r.project ≡ project) × (r.session_id ≡ session) × (is_emitted r.event_type ≡ true)
is_warning_of_sound project session r h =
    let (owned, warned) =
      and-eq-true (text_eq r.project project && text_eq r.session_id session)
        (is_emitted r.event_type) h in
    let (of_project, of_session) =
      and-eq-true (text_eq r.project project) (text_eq r.session_id session) owned in
    (text_eq_sound _ _ of_project, text_eq_sound _ _ of_session, warned)

or_true : (b : Bool) → (b || true) ≡ true
or_true true = refl
or_true false = refl

commit-emitted :
    (input : CommitInput) (rows : List AuditRow)
    → is_emitted (commit_decision input rows).audit_event_type ≡ (commit input rows).0.emit
unfolding commit commit_decision
commit-emitted input rows =
    emitted_row input.fingerprint
      (history (take 6 (warnings_of input.project input.session_id rows)))

commit-IsBounded :
    (input : CommitInput) (rows : List AuditRow) → IsBounded rows → IsBounded (commit input rows).1
unfolding commit commit_decision committed_row
commit-IsBounded input rows ok =
    IsBounded-snoc rows (committed_row input (commit_decision input rows)) ok (or_true _) (λ p s h.
      let (of_project, of_session, warned) =
        is_warning_of_sound p s (committed_row input (commit_decision input rows)) h in
      let bound = (commit_emits_iff input rows ok).0 (sym (commit-emitted input rows) ∙ warned) in
      subst
        (λ q.
          (length (shown q s rows) < warning_max_per_session)
          × (includes input.fingerprint (shown q s rows) ≡ false))
        of_project
        (subst
          (λ q.
            (length (shown input.project q rows) < warning_max_per_session)
            × (includes input.fingerprint (shown input.project q rows) ≡ false))
          of_session bound))

incident-IsBounded :
    (project session : Text) (rows : List AuditRow)
    → IsBounded rows
    → IsBounded (incident project session rows)
unfolding incident
incident-IsBounded project session rows ok =
    IsBounded-snoc rows _ ok refl (λ p s h. absurd (ground arith))

run_call-IsBounded :
    (rows : List AuditRow) (call : AuditCall) → IsBounded rows → IsBounded (run_call rows call)
unfolding run_call
run_call-IsBounded rows (commits input) ok = commit-IsBounded input rows ok
run_call-IsBounded rows (notes_incident p s) ok = incident-IsBounded p s rows ok

pub run_calls-IsBounded :
    (calls : List AuditCall) (rows : List AuditRow)
    → IsBounded rows
    → IsBounded (run_calls rows calls)
unfolding run_calls
run_calls-IsBounded [] rows ok = ok
run_calls-IsBounded (call ∷ calls) rows ok =
    run_calls-IsBounded calls (run_call rows call) (run_call-IsBounded rows call ok)

pub empty-IsBounded : IsBounded []
unfolding warnings_of
empty-IsBounded = record { has_fingerprints = refl; few = λ p s. omega arith; once = λ p s. refl }

-- After any run of commits and incidents from an empty table, every session of every project has
-- been shown at most five warnings, and no two of the same fingerprint.
pub warnings_bounded :
    (calls : List AuditCall) (project session : Text)
    → (length (shown project session (run_calls [] calls)) ≤ warning_max_per_session)
      × (distinct (shown project session (run_calls [] calls)) ≡ true)
warnings_bounded calls project session =
    let ok = run_calls-IsBounded calls [] empty-IsBounded in
    (ok.few project session, ok.once project session)
