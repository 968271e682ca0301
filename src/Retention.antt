-- ===== src/Retention.antt =====
-- src/governance/repository-cleanup.ts: what `cleanupEvidence` removes, with the retention bounds of
-- src/governance/recorder-store.ts. Rows carry the columns that it reads; the clock is an argument
-- and the ISO text of an instant some milliseconds back is a parameter. The projects are taken in
-- the order in which their rows stand, as the query names none.
pub mod Laws
use cairn_memory.Base.{
  ℕ, zero, ◌+◌, ◌*◌, Bool, true, false, not, ◌&&◌, ◌||◌, Option, none, some, List, [], ◌∷◌, ◌++◌,
  map, map_option, ltb, leb, ◌==◌, if◌then◌else◌, any, keep, find, count_if, or_else, ◌>>=◌,
}
use cairn_memory.Base.Text.{Text, codes, text_eq, text_lt}
use cairn_memory.Evidence.{Count, nat, other}
use cairn_memory.Evidence.Selection.{distinct}

pub record EventRow : Type 0 where
  pub event_seq : ℕ
  pub project : Text
  pub created_at : Text

pub record RunRow : Type 0 where
  pub event_seq : ℕ
  pub project : Text
  pub created_at : Text

pub record RetentionPayload : Type 0 where
  pub evidence_days : ℕ
  pub gate_runs_deleted : ℕ
  pub tool_events_deleted : ℕ

pub data AuditEvent : Type 0 where
  retention_run : RetentionPayload → AuditEvent
  other_event : AuditEvent

pub record AuditLink : Type 0 where
  pub project : Text
  pub occurred_at : Text
  pub linked_event_seq : Option ℕ
  pub event_type : AuditEvent

-- `retention` holds the number that a project's persisted text is read as.
pub record EvidenceTables : Type 0 where
  pub events : List EventRow
  pub runs : List RunRow
  pub audits : List AuditLink
  pub retention : List (Text × Count)

pub record CleanupOptions : Type 0 where
  pub evidence_days : Option Count
  pub project_days : Text → Option Count
  pub now_ms : ℕ

pub record CleanupResult : Type 0 where
  pub gate_runs_deleted : ℕ
  pub tool_events_deleted : ℕ
  pub projects_audited : ℕ

abbrev pub ms_per_day : ℕ
ms_per_day = 24 * (60 * (60 * 1000))

-- The days as a number of them, or none where the code finds them out of range.
unfoldable pub valid_days : Count → Option ℕ
valid_days (nat days) = if leb 1 days && leb days 30 then some days else none
valid_days _ = none

unfoldable pub persisted_evidence_days : EvidenceTables → Text → Option ℕ
unfolding valid_days
persisted_evidence_days tables project =
    find (λ (row : Text × Count). text_eq row.0 project) tables.retention >>= λ row.
    valid_days row.1

unfoldable pub default_days : CleanupOptions → Count
default_days options = or_else options.evidence_days (nat 30)

unfoldable pub days_of : CleanupOptions → EvidenceTables → Text → Count
unfolding persisted_evidence_days default_days
days_of options tables project =
    or_else (options.project_days project)
      (or_else (map_option nat (persisted_evidence_days tables project)) (default_days options))

unfoldable pub projects_of : EvidenceTables → List Text
unfolding distinct
projects_of tables =
    distinct (
      map (λ (e : EventRow). e.project) tables.events
      ++ map (λ (r : RunRow). r.project) tables.runs)

unfoldable pub old_run : Text → Text → RunRow → Bool
old_run project cutoff run = text_eq run.project project && text_lt run.created_at cutoff

unfoldable pub has_run : List RunRow → EventRow → Bool
has_run runs event = any (λ (r : RunRow). r.event_seq == event.event_seq) runs

unfoldable pub links : EventRow → AuditLink → Bool
links event audit = elim audit.linked_event_seq [ none ↦ false | some seq ↦ seq == event.event_seq ]

unfoldable pub has_link : List AuditLink → EventRow → Bool
unfolding links
has_link audits event = any (links event) audits

unfoldable pub old_event : Text → Text → List RunRow → List AuditLink → EventRow → Bool
unfolding has_run has_link
old_event project cutoff runs audits event =
    text_eq event.project project
    && text_lt event.created_at cutoff
    && not (has_run runs event)
    && not (has_link audits event)

abbrev pub no_deletions : CleanupResult
no_deletions = record { gate_runs_deleted = 0; tool_events_deleted = 0; projects_audited = 0 }

module _ (to_iso : (now back : ℕ) → Text) where
  abbrev pub retention_row : ℕ → Text → ℕ → ℕ → ℕ → AuditLink
  retention_row now project days runs events = record {
    project = project;
    occurred_at = to_iso now 0;
    linked_event_seq = none;
    event_type =
        retention_run
          (record { evidence_days = days; gate_runs_deleted = runs; tool_events_deleted = events });
  }

  abbrev pub cutoff_of : ℕ → ℕ → Text
  cutoff_of now days = to_iso now (days * ms_per_day)

  -- The two deletions for a project, and the audit row when a row was deleted. The events are
  -- looked at when the old runs are gone.
  unfoldable pub clean_project :
      ℕ → Text → ℕ → CleanupResult × EvidenceTables → CleanupResult × EvidenceTables
  unfolding old_run old_event
  clean_project now project days (result, tables) =
      let gone_run = old_run project (cutoff_of now days) in
      let runs = keep (λ r. not (gone_run r)) tables.runs in
      let gone = old_event project (cutoff_of now days) runs tables.audits in
      let run_count = count_if gone_run tables.runs in
      let event_count = count_if gone tables.events in
      let audited = ltb 0 run_count || ltb 0 event_count in
      (
        record {
          gate_runs_deleted = result.gate_runs_deleted + run_count;
          tool_events_deleted = result.tool_events_deleted + event_count;
          projects_audited = result.projects_audited + (if audited then 1 else 0);
        },
        record tables {
          runs = runs;
          events = keep (λ e. not (gone e)) tables.events;
          audits =
              tables.audits
              ++ (if audited
                  then retention_row now project days run_count event_count ∷ []
                  else []);
        },
      )

  -- The transaction's loop; none where a project's days are refused, which undoes all of it.
  unfoldable pub clean_projects :
      CleanupOptions
      → List Text
      → CleanupResult × EvidenceTables
      → Option (CleanupResult × EvidenceTables)
  unfolding clean_project days_of valid_days
  clean_projects options [] state = some state
  clean_projects options (project ∷ projects) state =
      valid_days (days_of options state.1 project) >>= λ days.
      clean_projects options projects (clean_project options.now_ms project days state)

  unfoldable pub cleanup_evidence :
      CleanupOptions → EvidenceTables → Option (CleanupResult × EvidenceTables)
  unfolding clean_projects projects_of default_days valid_days
  cleanup_evidence options tables = valid_days (default_days options) >>= λ days.
      clean_projects options (projects_of tables) (no_deletions, tables)
