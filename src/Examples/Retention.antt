-- ===== src/Examples/Retention.antt =====
-- A cleanup of three old events, of which one has an audit row and one a recent gate run.
use cairn_memory.Base.{
  ℕ, ◌-◌, ◌*◌, ◌≡◌, refl, true, none, some, [], ◌∷◌, Memᴰ, ◌||◌, ◌&&◌, all, is_some,
}
use cairn_memory.Base.Text.{Text, codes, text_eq, text_lt}
use cairn_memory.Retention.{
  EventRow, RunRow, AuditLink, EvidenceTables, CleanupOptions, CleanupResult, retention_run,
  other_event, ms_per_day, default_days, projects_of, has_run, has_link, no_deletions,
  cleanup_evidence,
}
use cairn_memory.Retention.Laws.{is_recent, cleanup_protects}
use cairn_memory.Retention.Laws.Answer.{
  IsCounted, asked_days, is_month, cleanup_counts, cleanup_succeeds_iff,
}

-- An instant as the text of one character.
abbrev to_iso : (now back : ℕ) → Text
to_iso now back = (now - back) ∷ []

abbrev event : ℕ → EventRow
event seq = record { event_seq = seq; project = codes "cairn"; created_at = 5 ∷ [] }

abbrev recent_run : RunRow
recent_run = record { event_seq = 3; project = codes "cairn"; created_at = (31 * ms_per_day) ∷ [] }

abbrev old_gate_run : RunRow
old_gate_run = record { event_seq = 1; project = codes "cairn"; created_at = 5 ∷ [] }

abbrev incident : AuditLink
incident = record {
  project = codes "cairn";
  occurred_at = 5 ∷ [];
  linked_event_seq = some 2;
  event_type = other_event;
}

abbrev summary : AuditLink
summary = record {
  project = codes "cairn";
  occurred_at = (32 * ms_per_day) ∷ [];
  linked_event_seq = none;
  event_type =
      retention_run (record { evidence_days = 30; gate_runs_deleted = 1; tool_events_deleted = 1 });
}

abbrev before : EvidenceTables
before = record {
  events = event 1 ∷ event 2 ∷ event 3 ∷ [];
  runs = old_gate_run ∷ recent_run ∷ [];
  audits = incident ∷ [];
  retention = [];
}

abbrev cleaned : EvidenceTables
cleaned = record {
  events = event 2 ∷ event 3 ∷ [];
  runs = recent_run ∷ [];
  audits = incident ∷ summary ∷ [];
  retention = [];
}

abbrev options : CleanupOptions
options = record { evidence_days = none; project_days = λ project. none; now_ms = 32 * ms_per_day }

abbrev counts : CleanupResult
counts = record { gate_runs_deleted = 1; tool_events_deleted = 1; projects_audited = 1 }

run_cleanup : cleanup_evidence to_iso options before ≡ some (counts, cleaned)
unfolding cleanup_evidence text_eq text_lt
run_cleanup = refl

cleanup_protects_example :
    (Memᴰ (event 2) cleaned.events → Memᴰ (event 2) before.events)
    × (Memᴰ (event 2) before.events
        → (has_run cleaned.runs (event 2)
            || has_link before.audits (event 2)
            || is_recent to_iso options before (event 2))
          ≡ true
        → Memᴰ (event 2) cleaned.events)
cleanup_protects_example =
    cleanup_protects to_iso options counts before cleaned (event 2) run_cleanup

cleanup_counts_example : IsCounted no_deletions before counts cleaned
cleanup_counts_example = cleanup_counts to_iso options counts before cleaned run_cleanup

cleanup_succeeds_iff_example : is_some (cleanup_evidence to_iso options before) ≡ (
    is_month (default_days options)
    && all (λ p. is_month (asked_days options p)) (projects_of before))
cleanup_succeeds_iff_example = cleanup_succeeds_iff to_iso options before
