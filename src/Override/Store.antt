-- ===== src/Override/Store.antt =====
-- src/governance/governance-overrides.ts: overrides as rows of the audit table, each with a fact among the
-- memories. The column that holds a payload as JSON text holds its value, or none where the text
-- does not parse; the reason that a user gives is stored with the payload and never read, and its
-- redaction is left out. The clock, new ids and the order of `localeCompare` are arguments.
use cairn_memory.Base.{
  ℕ, ◌+◌, Bool, true, false, not, ◌&&◌, Option, none, some, List, [], ◌∷◌, ◌++◌, ltb, leb,
  if◌then◌else◌, any, keep, head?, or_else,
}
use cairn_memory.Base.Text.{Text, codes, text_eq, includes}
use cairn_memory.Base.Sorting.{sort_by}
use cairn_memory.Validation.{trim}
use cairn_memory.Evidence.{Count}
use cairn_memory.Override.{
  RuleBinding, Candidate, Context, valid, invalid, InvalidReason, malformed, rule_key,
  validate_governance_override, override_payload_version, override_max_duration_ms,
}

pub record Payload : Type 0 where
  pub project : Text
  pub session_id : Text
  pub config_sha256 : Text
  pub worktree_digest : Text
  pub rules : List RuleBinding
  pub gate_ids : List Text
  pub issued_at : Text
  pub expires_at : Text

pub data OverrideEvent : Type 0 where
  override_created override_incident other_event : OverrideEvent

pub record FactRow : Type 0 where
  pub id : Text
  pub is_fact : Bool
  pub invalidated : Bool
  pub tags : List Text

pub record AuditRow : Type 0 where
  pub id : ℕ
  pub project : Text
  pub session_id : Text
  pub event_type : OverrideEvent
  pub actor_class : Text
  pub linked_fact : Option Text
  pub payload_version : ℕ
  pub payload : Option Payload

pub record Tables : Type 0 where
  pub facts : List FactRow
  pub audits : List AuditRow

-- `duration_ms` is none where it is not given; a duration that is no safe integer is refused too.
pub record CreateInput : Type 0 where
  pub project : Text
  pub session_id : Text
  pub config_sha256 : Text
  pub worktree_digest : Text
  pub rules : List RuleBinding
  pub gate_ids : List Text
  pub reason : Text
  pub confirmed : Bool
  pub duration_ms : Option ℕ
  pub now_ms : ℕ

pub data CreateAnswer : Type 0 where
  created : (audit_id : ℕ) → (fact_id : Text) → CreateAnswer
  not_confirmed bad_duration empty_reason audit_failed : CreateAnswer
  invalid_binding : InvalidReason → CreateAnswer

pub data OverrideRead : Type 0 where
  no_override self_error : OverrideRead
  invalid_override : Option Candidate → InvalidReason → OverrideRead
  valid_override : Candidate → OverrideRead

abbrev pub payload_of : CreateInput → List RuleBinding → List Text → Text → Text → Payload
payload_of input rules gate_ids issued_at expires_at = record {
  project = input.project;
  session_id = input.session_id;
  config_sha256 = input.config_sha256;
  worktree_digest = input.worktree_digest;
  rules = rules;
  gate_ids = gate_ids;
  issued_at = issued_at;
  expires_at = expires_at;
}

abbrev pub user_confirmed : Text
user_confirmed = codes "user-confirmed"

abbrev pub candidate_of : ℕ → Text → ℕ → Payload → Candidate
candidate_of audit_id actor_class version payload = record {
  audit_id = audit_id;
  payload_version = version;
  actor_class = actor_class;
  project = payload.project;
  session_id = payload.session_id;
  config_sha256 = payload.config_sha256;
  worktree_digest = payload.worktree_digest;
  rules = payload.rules;
  gate_ids = payload.gate_ids;
  issued_at = payload.issued_at;
  expires_at = payload.expires_at;
}

abbrev pub context_of : CreateInput → List RuleBinding → List Text → Context
context_of input rules gate_ids = record {
  project = input.project;
  session_id = input.session_id;
  config_sha256 = input.config_sha256;
  worktree_digest = input.worktree_digest;
  rules = rules;
  gate_ids = gate_ids;
  now_ms = input.now_ms;
}

abbrev pub fact_row : Text → FactRow
fact_row id = record {
  id = id;
  is_fact = true;
  invalidated = false;
  tags = codes "governance:override" ∷ codes "audit" ∷ [];
}

abbrev pub created_row : ℕ → Text → CreateInput → Payload → AuditRow
created_row audit_id fact_id input payload = record {
  id = audit_id;
  project = input.project;
  session_id = input.session_id;
  event_type = override_created;
  actor_class = user_confirmed;
  linked_fact = some fact_id;
  payload_version = override_payload_version;
  payload = some payload;
}

abbrev pub incident_row : ℕ → CreateInput → AuditRow
incident_row audit_id input = record {
  id = audit_id;
  project = input.project;
  session_id = input.session_id;
  event_type = override_incident;
  actor_class = codes "system";
  linked_fact = none;
  payload_version = 1;
  payload = none;
}

-- The audit row of an incident, unless that insert fails too.
unfoldable pub note_incident : Option ℕ → CreateInput → Tables → Tables
note_incident none input tables = tables
note_incident (some id) input tables = record tables {
  audits = tables.audits ++ incident_row id input ∷ [];
}

-- The transaction; `audit_id` is none where a statement of it fails, and then all is undone.
unfoldable pub insert_override :
    Text → Option ℕ → Option ℕ → CreateInput → Payload → Tables → CreateAnswer × Tables
unfolding note_incident
insert_override fact_id none incident_id input payload tables =
    (audit_failed, note_incident incident_id input tables)
insert_override fact_id (some audit_id) incident_id input payload tables = (
  created audit_id fact_id,
  record {
    facts = tables.facts ++ fact_row fact_id ∷ [];
    audits = tables.audits ++ created_row audit_id fact_id input payload ∷ [];
  },
)

abbrev pub is_relevant : OverrideEvent → Bool
is_relevant other_event = false
is_relevant _ = true

-- The WHERE of `latest`.
unfoldable pub of_session : Context → AuditRow → Bool
of_session context row =
    text_eq row.project context.project
    && text_eq row.session_id context.session_id
    && is_relevant row.event_type

abbrev pub later_id : AuditRow → AuditRow → Bool
later_id a b = ltb b.id a.id

unfoldable pub latest_row : Context → Tables → Option AuditRow
unfolding of_session
latest_row context tables = head? (sort_by later_id (keep (of_session context) tables.audits))

abbrev pub valid_fact : Text → FactRow → Bool
valid_fact id fact =
    text_eq fact.id id
    && fact.is_fact
    && not fact.invalidated
    && includes (codes "governance:override") fact.tags

unfoldable pub linked_fact_valid : Option Text → List FactRow → Bool
linked_fact_valid none facts = false
linked_fact_valid (some id) facts = any (valid_fact id) facts

module _ (parse_date : Text → Option ℕ) (show_number : Count → Text) where
  abbrev pub read_candidate : Candidate → Context → OverrideRead
  read_candidate candidate context =
      elim (validate_governance_override parse_date show_number candidate context) [
        | valid audit_id ↦ valid_override candidate
        | invalid reason ↦ invalid_override (some candidate) reason
      ]

  unfoldable pub read_payload : Context → AuditRow → Bool → Option Payload → OverrideRead
  read_payload context row linked none = invalid_override none malformed
  read_payload context row linked (some payload) =
      if linked
      then read_candidate (candidate_of row.id row.actor_class row.payload_version payload) context
      else invalid_override none malformed

  unfoldable pub read_row : Context → Tables → AuditRow → OverrideRead
  unfolding read_payload linked_fact_valid
  read_row context tables row = elim row.event_type [
    | override_incident ↦ self_error
    | override_created ↦
        read_payload context row (linked_fact_valid row.linked_fact tables.facts) row.payload
    | other_event ↦
        read_payload context row (linked_fact_valid row.linked_fact tables.facts) row.payload
  ]

  unfoldable pub latest : Context → Tables → OverrideRead
  unfolding read_row latest_row
  latest context tables = elim (latest_row context tables) [
    | none ↦ no_override
    | some row ↦ read_row context tables row
  ]

  module _ (locale_before : Text → Text → Bool) (to_iso : ℕ → Text) where
    -- `stable`.
    unfoldable pub stable : {A : Type 0} → (A → Text) → List A → List A
    stable key values = sort_by (λ left right. locale_before (key left) (key right)) values

    abbrev pub is_allowed : ℕ → Bool
    is_allowed duration = ltb 0 duration && leb duration override_max_duration_ms

    unfoldable pub bound_payload : CreateInput → Payload
    unfolding stable
    bound_payload input =
        payload_of input (stable (rule_key parse_date show_number) input.rules)
          (stable (λ gate. gate) input.gate_ids) (to_iso input.now_ms)
          (to_iso (input.now_ms + or_else input.duration_ms override_max_duration_ms))

    unfoldable pub create :
        Text → Option ℕ → Option ℕ → CreateInput → Tables → CreateAnswer × Tables
    unfolding bound_payload insert_override
    create fact_id audit_id incident_id input tables =
        let payload = bound_payload input in
        let checked =
          validate_governance_override parse_date show_number
            (candidate_of 1 user_confirmed override_payload_version payload)
            (context_of input payload.rules payload.gate_ids) in
        if not input.confirmed
        then (not_confirmed, tables)
        else if not (is_allowed (or_else input.duration_ms override_max_duration_ms))
        then (bad_duration, tables)
        else if text_eq (trim input.reason) []
        then (empty_reason, tables)
        else elim checked [
          | invalid reason ↦ (invalid_binding reason, tables)
          | valid id ↦ insert_override fact_id audit_id incident_id input payload tables
        ]
