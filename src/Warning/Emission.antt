-- ===== src/Warning/Emission.antt =====
-- src/governance/warning-policy.ts and src/governance/governance-warning-audit.ts: which warnings
-- of a session are shown. The audit table is a list of rows in the order of their ids; of a row
-- the payload's fingerprint is kept, `none` where it is no text.
pub mod Laws
pub mod Sessions
use cairn_memory.Base.{
  take, ℕ, zero, suc, Bool, true, false, not, ◌&&◌, Option, none, some, List, [], ◌∷◌, ◌++◌, leb,
  if◌then◌else◌, any, keep, flat_map, length,
}
use cairn_memory.Base.Text.{Text, text_eq}
use cairn_memory.Verdict.{ShadowResult, missing, non_pass, stale}
use cairn_memory.Mode.{EffectiveMode, advisory, warn}

pub data WarnDisposition : Type 0 where
  silent visible_unresolved visible_override : WarnDisposition

abbrev pub is_unresolved : ShadowResult → Bool
is_unresolved missing = true
is_unresolved non_pass = true
is_unresolved stale = true
is_unresolved _ = false

unfoldable pub resolve_warn_disposition : EffectiveMode → ShadowResult → Bool → WarnDisposition
resolve_warn_disposition advisory result override_valid = silent
resolve_warn_disposition warn result override_valid =
    if override_valid
    then visible_override
    else if is_unresolved result
    then visible_unresolved
    else silent

pub data AuditEvent : Type 0 where
  warning_emitted warning_suppressed warning_incident : AuditEvent

pub data WarningReason : Type 0 where
  eligible duplicate_fingerprint session_ceiling : WarningReason

pub record WarningObservation : Type 0 where
  pub event_type : AuditEvent
  pub fingerprint : Text

pub record WarningDecision : Type 0 where
  pub emit : Bool
  pub audit_event_type : AuditEvent
  pub reason : WarningReason

abbrev pub warning_max_per_session : ℕ
warning_max_per_session = 5

abbrev pub is_emitted : AuditEvent → Bool
is_emitted warning_emitted = true
is_emitted _ = false

abbrev decision : Bool → AuditEvent → WarningReason → WarningDecision
decision emit event reason = record { emit = emit; audit_event_type = event; reason = reason }

unfoldable pub decide_warning_emission : Text → List WarningObservation → WarningDecision
decide_warning_emission fingerprint history =
    let emissions = keep (λ row. is_emitted row.event_type) history in
    if any (λ row. text_eq row.fingerprint fingerprint) emissions
    then decision false warning_suppressed duplicate_fingerprint
    else if leb warning_max_per_session (length emissions)
    then decision false warning_suppressed session_ceiling
    else decision true warning_emitted eligible

pub record AuditRow : Type 0 where
  pub project : Text
  pub session_id : Text
  pub event_type : AuditEvent
  pub payload_fingerprint : Option Text

unfoldable pub observed_row : AuditEvent → Option Text → List WarningObservation
observed_row warning_incident fingerprint = []
observed_row event none = []
observed_row event (some fingerprint) =
    record { event_type = event; fingerprint = fingerprint } ∷ []

unfoldable pub history : List AuditRow → List WarningObservation
unfolding observed_row
history [] = []
history (row ∷ rows) = observed_row row.event_type row.payload_fingerprint ++ history rows

abbrev pub is_warning_of : Text → Text → AuditRow → Bool
is_warning_of project session row =
    text_eq row.project project && text_eq row.session_id session && is_emitted row.event_type

-- The rows of the SELECT, without its LIMIT.
unfoldable pub warnings_of : Text → Text → List AuditRow → List AuditRow
warnings_of project session rows = keep (is_warning_of project session) rows

pub record CommitInput : Type 0 where
  pub project : Text
  pub session_id : Text
  pub fingerprint : Text

unfoldable pub commit_decision : CommitInput → List AuditRow → WarningDecision
unfolding decide_warning_emission history warnings_of
commit_decision input rows =
    decide_warning_emission input.fingerprint
      (history (take 6 (warnings_of input.project input.session_id rows)))

unfoldable pub committed_row : CommitInput → WarningDecision → AuditRow
committed_row input decision = record {
  project = input.project;
  session_id = input.session_id;
  event_type = decision.audit_event_type;
  payload_fingerprint = some input.fingerprint;
}

-- The decision of a commit, and the table after it.
unfoldable pub commit : CommitInput → List AuditRow → WarningDecision × List AuditRow
unfolding commit_decision committed_row
commit input rows =
    let decision = commit_decision input rows in
    (decision, rows ++ committed_row input decision ∷ [])

unfoldable pub incident : Text → Text → List AuditRow → List AuditRow
incident project session rows =
    rows
    ++ record {
      project = project;
      session_id = session;
      event_type = warning_incident;
      payload_fingerprint = none;
    }
      ∷ []

-- The calls of the store, in the order of their transactions.
pub data AuditCall : Type 0 where
  commits : CommitInput → AuditCall
  notes_incident : Text → Text → AuditCall

unfoldable pub run_call : List AuditRow → AuditCall → List AuditRow
unfolding commit incident
run_call rows (commits input) = (commit input rows).1
run_call rows (notes_incident project session) = incident project session rows

unfoldable pub run_calls : List AuditRow → List AuditCall → List AuditRow
unfolding run_call
run_calls rows [] = rows
run_calls rows (call ∷ calls) = run_calls (run_call rows call) calls
