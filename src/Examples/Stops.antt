-- ===== src/Examples/Stops.antt =====
-- Concrete inputs of a Stop's evaluation: configurations that load and that do not.
use cairn_memory.Base.Sorting.{sort_by}
use cairn_memory.Shadow.{resolve_shadow_intent}
use cairn_memory.Shadow.{select_shadow_requirements}
use cairn_memory.Evidence.Selection.{select_evidence_requirements}
use cairn_memory.Base.{◌≡◌, refl, true, false, none, some, [], is_some}
use cairn_memory.Base.Text.{codes}
use cairn_memory.Evidence.{WorktreeDigest}
use cairn_memory.Shadow.{Snapshot, resolved, selecting}
use cairn_memory.Shadow.Attempt.{fault_verdict}
use cairn_memory.Verdict.{warn, config_invalid, deadline_exceeded}
use cairn_memory.Shadow.Stop.{
  StopStore, StopEnv, evaluate_stop, unavailable, loaded, Diagnostic, was_persisted, not_persisted,
  persisted,
}
use cairn_memory.Shadow.Stop.Laws.Writes.{Adds}
use cairn_memory.Shadow.Stop.Laws.Once.{evaluate_stop-Adds}
use cairn_memory.Shadow.Stop.Laws.{IsStored, evaluate_stop_returns, evaluate_stop-IsStored}

abbrev digest : WorktreeDigest
digest = record {
  is_complete = true;
  digest = some (codes "d1");
  version = 2;
  relevant_paths_sha256 = codes "p1";
  reason = none;
}

abbrev store : StopStore
store = record { sequence = record { event_seq = 3; mutation_seq = 2 }; verdicts = [] }

abbrev snapshot : Snapshot
snapshot = record {
  sequence = record { event_seq = 3; mutation_seq = 2 };
  rules = [];
  events = [];
  gate_runs = [];
  capability = none;
}

-- A configuration that does not load, and a store that nobody else writes.
abbrev env : StopEnv
env = record {
  late = λ again stage gate. false;
  late_store = λ again stage. false;
  capture_digest = λ again paths. digest;
  read_snapshot = λ sha s. resolved snapshot;
  ensure_watermarks = λ rules s. resolved (false, s);
  others = λ again s. s;
  payload_fault = λ verdict. none;
  insert_fails = λ again. false;
  parse_date = λ text. none;
  identity = record { session_id = codes "s1"; client_name = codes "claude-code" };
  now = 0;
  stop_hook_active = false;
  entry_present = true;
  persist = true;
  config = unavailable warn config_invalid;
}

-- A configuration that loads, with a time that is over at the selection.
abbrev late_env : StopEnv
late_env = record env {
  late = λ again stage gate. elim stage [ selecting ↦ true | _ ↦ false ];
  config =
      loaded (record { sha256 = codes "c1"; default_level = warn; path_rules = []; gates = [] });
}

-- Nothing is stored then.
late_selection : evaluate_stop late_env store ≡ (
  some (record {
    status = not_persisted;
    verdict = some (fault_verdict deadline_exceeded warn);
    persistence = none;
    retried = false;
  }),
  store,
)
unfolding evaluate_stop cairn_memory.Shadow.Attempt.evaluate_attempt
late_selection = refl

evaluate_stop_returns_example : is_some (evaluate_stop env store).0 ≡ true
evaluate_stop_returns_example = evaluate_stop_returns env store

abbrev stored : Diagnostic
stored = record {
  status = was_persisted;
  verdict = some (fault_verdict config_invalid warn);
  persistence = some persisted;
  retried = false;
}

evaluate_stop-IsStored_example : IsStored stored.verdict (evaluate_stop env store).1
unfolding evaluate_stop resolve_shadow_intent select_shadow_requirements
    select_evidence_requirements sort_by
evaluate_stop-IsStored_example = evaluate_stop-IsStored env store stored refl refl

evaluate_stop-Adds_example : Adds stored.status store.verdicts (evaluate_stop env store).1.verdicts
unfolding evaluate_stop resolve_shadow_intent select_shadow_requirements
    select_evidence_requirements sort_by
evaluate_stop-Adds_example =
    evaluate_stop-Adds env store stored (λ again s. refl) (λ rules s. refl) refl
