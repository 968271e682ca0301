-- ===== src/Override/Laws/Latest.antt =====
-- `latest` of src/governance/governance-overrides.ts, against the rows of the tables.
use cairn_memory.Base.{
  ℕ, ◌≤◌, ◌≡◌, refl, sym, ap, subst, ◌↔◌, ◌⊎◌, inl, inr, List, arith, and-eq-true, mem_of_any, Bool,
  true, false, Option, none, some, Memᴰ, keep, Option-cases, mem-keep, mem_of_keep, mem_of_head,
}
use cairn_memory.Base.Text.{Text, codes, includes, text_eq_iff, text_eq_sound}
use cairn_memory.Base.Sorting.{sort_by, mem-sort_by, greatest_first}
use cairn_memory.Evidence.{Count}
use cairn_memory.Override.{
  Candidate, Context, Validation, valid, invalid, validate_governance_override,
}
use cairn_memory.Override.Store.{
  Payload, FactRow, is_relevant, valid_fact, OverrideEvent, override_created, override_incident,
  other_event, AuditRow, Tables, OverrideRead, valid_override, self_error, candidate_of, of_session,
  later_id, latest_row, linked_fact_valid, read_candidate, read_payload, read_row, latest,
}
use cairn_memory.Override.Laws.Holds.{is_valid, Holds, validate_override_iff}

-- A row that speaks of overrides, in the session of the context.
abbrev pub IsRelevant : OverrideEvent → Type 0
IsRelevant event = (event ≡ override_created) ⊎ (event ≡ override_incident)

abbrev pub IsOfSession : Context → AuditRow → Type 0
IsOfSession context row =
    (row.project ≡ context.project)
    × (row.session_id ≡ context.session_id)
    × IsRelevant row.event_type

-- A fact that vouches for an override.
abbrev pub Vouches : Option Text → FactRow → Type 0
Vouches linked fact =
    (linked ≡ some fact.id)
    × (fact.is_fact ≡ true)
    × (fact.invalidated ≡ false)
    × (includes (codes "governance:override") fact.tags ≡ true)

-- A candidate with the columns of a row and the fields of its payload.
pub record ReadsFrom (row : AuditRow) (payload : Payload) (found : Candidate) : Type 0 where
  pub audit_id : found.audit_id ≡ row.id
  pub payload_version : found.payload_version ≡ row.payload_version
  pub actor_class : found.actor_class ≡ row.actor_class
  pub project : found.project ≡ payload.project
  pub session_id : found.session_id ≡ payload.session_id
  pub config_sha256 : found.config_sha256 ≡ payload.config_sha256
  pub worktree_digest : found.worktree_digest ≡ payload.worktree_digest
  pub rules : found.rules ≡ payload.rules
  pub gate_ids : found.gate_ids ≡ payload.gate_ids
  pub issued_at : found.issued_at ≡ payload.issued_at
  pub expires_at : found.expires_at ≡ payload.expires_at

candidate_of-ReadsFrom :
    (row : AuditRow) (payload : Payload)
    → ReadsFrom row payload (candidate_of row.id row.actor_class row.payload_version payload)
candidate_of-ReadsFrom row payload = record {
  audit_id = refl;
  payload_version = refl;
  actor_class = refl;
  project = refl;
  session_id = refl;
  config_sha256 = refl;
  worktree_digest = refl;
  rules = refl;
  gate_ids = refl;
  issued_at = refl;
  expires_at = refl;
}

is_relevant_iff : (event : OverrideEvent) → (is_relevant event ≡ true) ↔ IsRelevant event
is_relevant_iff override_created = (λ h. inl refl, λ h. refl)
is_relevant_iff override_incident = (λ h. inr refl, λ h. refl)
is_relevant_iff other_event =
    (λ h. absurd (cc), λ h. elim h [ inl e ↦ absurd (cc) | inr e ↦ absurd (cc) ])

of_session_iff :
    (context : Context) (row : AuditRow) → (of_session context row ≡ true) ↔ IsOfSession context row
unfolding of_session
of_session_iff context row =
    let project = text_eq_iff row.project context.project in
    let session = text_eq_iff row.session_id context.session_id in
    let event = is_relevant_iff row.event_type in
    (
      λ h.
          let (ab, c) = and-eq-true _ _ h in
          let (a, b) = and-eq-true _ _ ab in (project.0 a, session.0 b, event.0 c),
      λ (a, b, c). rw (project.1 a, session.1 b, event.1 c) refl,
    )

valid_fact_sound : (id : Text) (fact : FactRow) → valid_fact id fact ≡ true → Vouches (some id) fact
valid_fact_sound id fact h =
    let (most, tagged) = and-eq-true _ _ h in
    let (named, live) = and-eq-true _ _ most in
    let (same, kind) = and-eq-true _ _ named in
    (ap some (sym (text_eq_sound fact.id id same)), kind, ground (arith, live), tagged)

linked_fact_sound :
    (linked : Option Text) (facts : List FactRow)
    → linked_fact_valid linked facts ≡ true
    → (fact : FactRow) × Memᴰ fact facts × Vouches linked fact
unfolding linked_fact_valid
linked_fact_sound none facts h = absurd (cc)
linked_fact_sound (some id) facts h =
    let (fact, m, k) = mem_of_any (valid_fact id) facts h in (fact, m, valid_fact_sound id fact k)

latest_row-IsLatest :
    (context : Context) (tables : Tables) (row : AuditRow)
    → latest_row context tables ≡ some row
    → Memᴰ row tables.audits
      × IsOfSession context row
      × ((other : AuditRow)
          → Memᴰ other tables.audits
          → IsOfSession context other
          → other.id ≤ row.id)
unfolding latest_row
latest_row-IsLatest context tables row h =
    let kept = keep (of_session context) tables.audits in
    let (m, ours) =
      mem_of_keep (of_session context) tables.audits row
        ((mem-sort_by later_id row kept).0 (mem_of_head (sort_by later_id kept) h)) in
    (
      m,
      (of_session_iff context row).0 ours,
      λ other n e.
          greatest_first (λ (r : AuditRow). r.id) row other kept h
            (mem-keep (of_session context) tables.audits other n
              ((of_session_iff context other).1 e)),
    )

module _ (parse_date : Text → Option ℕ) (show_number : Count → Text) where
  read_candidate_sound :
      (candidate found : Candidate) (context : Context)
      → read_candidate parse_date show_number candidate context ≡ valid_override found
      → (found ≡ candidate) × Holds parse_date show_number candidate context
  read_candidate_sound candidate found context h = go _ refl h
    where
      go :
          (v : Validation)
          → validate_governance_override parse_date show_number candidate context ≡ v
          → elim v as (λ x. OverrideRead) [
            | valid audit_id ↦ valid_override candidate
            | invalid reason ↦ OverrideRead.invalid_override (some candidate) reason
          ]
            ≡ valid_override found
          → (found ≡ candidate) × Holds parse_date show_number candidate context
      go (valid id) e k =
          (cc, (validate_override_iff parse_date show_number candidate context).0 (ap is_valid e))
      go (invalid reason) e k = absurd (cc)

  payload_sound :
      (context : Context) (row : AuditRow) (linked : Bool) (o : Option Payload) (found : Candidate)
      → read_payload parse_date show_number context row linked o ≡ valid_override found
      → (linked ≡ true)
        × ((payload : Payload) × (o ≡ some payload) × ReadsFrom row payload found)
        × Holds parse_date show_number found context
  unfolding read_payload
  payload_sound context row linked none found h = absurd (cc)
  payload_sound context row false (some payload) found h = absurd (cc)
  payload_sound context row true (some payload) found h =
      let candidate = candidate_of row.id row.actor_class row.payload_version payload in
      let (same, holds) = read_candidate_sound candidate found context h in
      (
        refl,
        (
          payload,
          refl,
          subst (ReadsFrom row payload) (sym same) (candidate_of-ReadsFrom row payload),
        ),
        subst (λ c. Holds parse_date show_number c context) (sym same) holds,
      )

  row_sound :
      (context : Context) (tables : Tables) (row : AuditRow) (found : Candidate)
      → IsRelevant row.event_type
      → read_row parse_date show_number context tables row ≡ valid_override found
      → (row.event_type ≡ override_created)
        × ((fact : FactRow) × Memᴰ fact tables.facts × Vouches row.linked_fact fact)
        × ((payload : Payload) × (row.payload ≡ some payload) × ReadsFrom row payload found)
        × Holds parse_date show_number found context
  unfolding read_row
  row_sound context tables row found (inl e) h =
      let linked = linked_fact_valid row.linked_fact tables.facts in
      let (vouched, stored, holds) =
        payload_sound context row linked row.payload found (rw e at h) in
      (e, linked_fact_sound row.linked_fact tables.facts vouched, stored, holds)
  row_sound context tables row found (inr e) h =
      let failed : self_error ≡ valid_override found = rw e at h in absurd (cc (failed))

-- An override that is read as valid holds in the context. It is read from the row with the highest
-- id among those of the context's project and session that are of an override or an incident: that
-- row is of an override, the candidate has its id, actor class, payload version and payload, and
-- its linked fact is among the memories, not invalidated and tagged as an override.
pub latest_sound :
    (parse_date : Text → Option ℕ) (show_number : Count → Text) (context : Context)
    (tables : Tables) (found : Candidate)
    → latest parse_date show_number context tables ≡ valid_override found
    → (row : AuditRow) × Memᴰ row tables.audits
      × IsOfSession context row
      × ((other : AuditRow)
          → Memᴰ other tables.audits
          → IsOfSession context other
          → other.id ≤ row.id)
      × (row.event_type ≡ override_created)
      × ((fact : FactRow) × Memᴰ fact tables.facts × Vouches row.linked_fact fact)
      × ((payload : Payload) × (row.payload ≡ some payload) × ReadsFrom row payload found)
      × Holds parse_date show_number found context
unfolding latest
latest_sound parse_date show_number context tables found h =
    elim (Option-cases (latest_row context tables)) [
      | inl e ↦ absurd (cc (rw (e, latest) at h))
      | inr (row, e) ↦
          let (m, ours, last) = latest_row-IsLatest context tables row e in
          let (made, fact, stored, holds) =
            row_sound parse_date show_number context tables row found ours.2
              (rw (e, latest) at h) in
          (row, m, ours, last, made, fact, stored, holds)
    ]
