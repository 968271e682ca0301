-- ===== src/Warning/Emission/Laws.antt =====
-- How many warnings a session shows.
use cairn_memory.Base.{
  take, ℕ, zero, suc, ◌≤◌, ◌<◌, ◌≡◌, refl, ap, ◌↔◌, inl, inr, Bool, true, false, not, ◌&&◌, ◌||◌,
  Option, none, some, List, [], ◌∷◌, ◌++◌, if◌then◌else◌, any, all, keep, length, map, or_else,
  is_some, arith, length-map, Bool-cases,
}
use cairn_memory.Base.Text.{Text, text_eq, text_eq_sym, includes, includes-append}
use cairn_memory.Warning.Emission.{
  WarningObservation, AuditEvent, warning_emitted, warning_suppressed, warning_incident, AuditRow,
  CommitInput, is_emitted, is_warning_of, warnings_of, observed_row, history,
  decide_warning_emission, commit_decision, commit, warning_max_per_session,
}

take_all : {A : Type 0} (n : ℕ) (xs : List A) → length xs ≤ n → take n xs ≡ xs
take_all zero [] h = refl
take_all zero (x ∷ xs) h = absurd (omega (arith, h))
take_all (suc n) [] h = refl
take_all (suc n) (x ∷ xs) h = ap (λ l. x ∷ l) (take_all n xs (omega (arith, h)))

-- The fingerprints that a session has been shown, oldest first.
abbrev pub fingerprint_of : AuditRow → Text
fingerprint_of row = or_else row.payload_fingerprint []

abbrev pub shown : Text → Text → List AuditRow → List Text
shown project session rows = map fingerprint_of (warnings_of project session rows)

abbrev pub distinct : List Text → Bool
distinct [] = true
distinct (t ∷ ts) = not (includes t ts) && distinct ts

-- A warning's row has a fingerprint.
abbrev pub recorded : AuditRow → Bool
recorded row = not (is_emitted row.event_type) || is_some row.payload_fingerprint

abbrev observation_of : AuditRow → WarningObservation
observation_of row = record { event_type = warning_emitted; fingerprint = fingerprint_of row }

observed_row_lem :
    (e : AuditEvent) (p : Option Text)
    → is_emitted e ≡ true
    → is_some p ≡ true
    → observed_row e p ≡ record { event_type = warning_emitted; fingerprint = or_else p [] } ∷ []
unfolding observed_row
observed_row_lem warning_emitted (some t) h k = refl
observed_row_lem warning_emitted none h k = absurd (cc)
observed_row_lem warning_suppressed p h k = absurd (cc)
observed_row_lem warning_incident p h k = absurd (cc)

emissions_lem :
    (rows : List AuditRow)
    → all (λ r. is_emitted r.event_type && is_some r.payload_fingerprint) rows ≡ true
    → keep (λ o. is_emitted o.event_type) (history rows) ≡ map observation_of rows
unfolding history
emissions_lem [] h = refl
emissions_lem (r ∷ rows) h =
    rw (observed_row_lem r.event_type r.payload_fingerprint (ground arith) (ground arith))
      (ap (λ l. observation_of r ∷ l) (emissions_lem rows (ground arith)))

any_shown :
    (t : Text) (rows : List AuditRow)
    → any (λ o. text_eq o.fingerprint t) (map observation_of rows)
      ≡ includes t (map fingerprint_of rows)
unfolding includes
any_shown t [] = refl
any_shown t (r ∷ rows) = rw (any_shown t rows, text_eq_sym t (fingerprint_of r)) refl

recorded_warnings :
    (project session : Text) (rows : List AuditRow)
    → all recorded rows ≡ true
    → all
        (λ r. is_emitted r.event_type && is_some r.payload_fingerprint)
        (warnings_of project session rows)
      ≡ true
unfolding warnings_of
recorded_warnings project session [] h = refl
recorded_warnings project session (r ∷ rows) h =
    ground (arith, recorded_warnings project session rows)

-- What holds of a table that the store wrote.
pub record IsBounded (rows : List AuditRow) : Type 0 where
  pub has_fingerprints : all recorded rows ≡ true
  pub few : (project session : Text) → length (shown project session rows) ≤ warning_max_per_session
  pub once : (project session : Text) → distinct (shown project session rows) ≡ true

-- In such a table a commit emits its warning exactly when the session has been shown fewer than
-- five and this one is not among them.
pub commit_emits_iff :
    (input : CommitInput) (rows : List AuditRow)
    → IsBounded rows
    → let earlier = shown input.project input.session_id rows in
      ((commit input rows).0.emit ≡ true)
      ↔ ((length earlier < warning_max_per_session) × (includes input.fingerprint earlier ≡ false))
unfolding commit commit_decision decide_warning_emission
commit_emits_iff input rows ok =
    let sel = warnings_of input.project input.session_id rows in
    let count : length (map fingerprint_of sel) ≡ length sel = length-map _ sel in
    let count' : length (map observation_of sel) ≡ length sel = length-map _ sel in
    let few : length sel ≤ 5 = omega (arith, ok.few input.project input.session_id, count) in
    let taken : take 6 sel ≡ sel = take_all 6 sel (omega (arith, few)) in
    rw
      (
        taken,
        emissions_lem sel (recorded_warnings _ _ rows ok.has_fingerprints),
        any_shown input.fingerprint sel,
        count,
        count',
      )
      (ground arith)

pub emitted_row :
    (t : Text) (h : List WarningObservation)
    → is_emitted (decide_warning_emission t h).audit_event_type ≡ (decide_warning_emission t h).emit
unfolding decide_warning_emission
emitted_row t h = ground arith

warnings_of-snoc :
    (project session : Text) (rows : List AuditRow) (r : AuditRow)
    → warnings_of project session (rows ++ r ∷ [])
      ≡ warnings_of project session rows ++ (if is_warning_of project session r then r ∷ [] else [])
unfolding warnings_of
warnings_of-snoc project session [] r = elim (Bool-cases (is_warning_of project session r)) [
  | inl e ↦ rw e refl
  | inr e ↦ rw e refl
]
warnings_of-snoc project session (x ∷ rows) r =
    elim (Bool-cases (is_warning_of project session x)) [
      | inl e ↦ rw (e, warnings_of-snoc project session rows r) refl
      | inr e ↦ rw (e, warnings_of-snoc project session rows r) refl
    ]

map-snoc :
    (rows : List AuditRow) (r : AuditRow)
    → map fingerprint_of (rows ++ r ∷ []) ≡ map fingerprint_of rows ++ fingerprint_of r ∷ []
map-snoc [] r = refl
map-snoc (x ∷ rows) r = ap (λ l. fingerprint_of x ∷ l) (map-snoc rows r)

append_nil : {A : Type 0} (xs : List A) → xs ++ [] ≡ xs
append_nil [] = refl
append_nil (x ∷ xs) = ap (λ l. x ∷ l) (append_nil xs)

pub shown-snoc_warned :
    (project session : Text) (rows : List AuditRow) (r : AuditRow)
    → is_warning_of project session r ≡ true
    → shown project session (rows ++ r ∷ []) ≡ shown project session rows ++ fingerprint_of r ∷ []
shown-snoc_warned project session rows r h =
    rw (warnings_of-snoc project session rows r, h, map-snoc) refl

pub shown-snoc_other :
    (project session : Text) (rows : List AuditRow) (r : AuditRow)
    → is_warning_of project session r ≡ false
    → shown project session (rows ++ r ∷ []) ≡ shown project session rows
shown-snoc_other project session rows r h =
    rw (warnings_of-snoc project session rows r, h, append_nil) refl

pub distinct-snoc :
    (ts : List Text) (t : Text)
    → distinct ts ≡ true
    → includes t ts ≡ false
    → distinct (ts ++ t ∷ []) ≡ true
unfolding includes
distinct-snoc [] t h k = refl
distinct-snoc (s ∷ ts) t h k =
    rw (includes-append s ts (t ∷ []), text_eq_sym s t)
      (ground (arith, distinct-snoc ts t (ground arith) (ground arith)))

pub all-snoc :
    (rows : List AuditRow) (r : AuditRow)
    → all recorded rows ≡ true
    → recorded r ≡ true
    → all recorded (rows ++ r ∷ []) ≡ true
all-snoc [] r h k = ground arith
all-snoc (x ∷ rows) r h k = ground (arith, all-snoc rows r (ground arith) k)
