-- ===== src/Examples/Events.antt =====
-- Concrete inputs of the mutation classes, the recorder, and the overrides.
use cairn_memory.Base.Sorting.{sort_by}
use cairn_memory.Base.Text.{includes}
use cairn_memory.Paths.{split_on}
use cairn_memory.Evidence.Glob.{replace_backslash}
use cairn_memory.Paths.{relative_segments}
use cairn_memory.Paths.{resolve_from}
use cairn_memory.Paths.{absolute_path}
use cairn_memory.Paths.{climbs}
use cairn_memory.Paths.{normalize}
use cairn_memory.Base.{ℕ, ◌≤◌, ◌≡◌, refl, ◌↔◌, true, false, Option, none, some, [], ◌∷◌, ◌++◌, Memᴰ}
use cairn_memory.Base.Text.{Text, codes, text_eq}
use cairn_memory.Evidence.{complete, unmutated, Policy, node_test, WorktreeDigest, Count, nat}
use cairn_memory.Evidence.Classify.{parser_state}
use cairn_memory.ResultParser.{ResultObservation, success, exit_zero}
use cairn_memory.ResultParser.Summary.{parse_gate_result}
use cairn_memory.Recorder.{parse_options, recorded_run}
use cairn_memory.Recorder.Laws.{recorded_pass_iff}
use cairn_memory.Mutation.{AdaptedEvent, tool, classify_mutation, file_changed}
use cairn_memory.Mutation.Laws.{IsReadOnly, classify_mutation-unmutated_iff}
use cairn_memory.Mutation.Laws.Inside.{IsBelow, classify_mutation-IsBelow}
use cairn_memory.Override.{Candidate, Context, exact_strings, validate_governance_override}
use cairn_memory.Override.Store.{
  Tables, AuditRow, Payload, FactRow, latest, fact_row, candidate_of, override_created,
  user_confirmed,
}
use cairn_memory.Override.Laws.{SameTexts, exact_strings_iff}
use cairn_memory.Override.Laws.Holds.{is_valid, Holds, validate_override_iff}
use cairn_memory.Override.Laws.Latest.{IsOfSession, Vouches, ReadsFrom, latest_sound}

abbrev status_event : AdaptedEvent
status_event = tool (record {
  cwd = codes "/work";
  capture_status = complete;
  tool_name = codes "Bash";
  tool_input = record { file_path = none; edits = none };
  command = some (record { shell_command = some (codes "git status"); tokenized_argv = none });
  outcome = success;
})

classify_mutation-unmutated_iff_example :
    ((classify_mutation (codes "/") status_event).mutation_class ≡ unmutated)
    ↔ IsReadOnly status_event
classify_mutation-unmutated_iff_example = classify_mutation-unmutated_iff (codes "/") status_event

classify_mutation-IsBelow_example : IsBelow (codes "/") (codes "/work") (codes "src/a.ts")
unfolding classify_mutation text_eq includes split_on replace_backslash relative_segments
    resolve_from absolute_path climbs normalize
classify_mutation-IsBelow_example =
    classify_mutation-IsBelow (codes "/") (file_changed (codes "/work") (codes "./src//a.ts"))
      (codes "src/a.ts") (Memᴰ.head refl)

abbrev policy : Policy
policy = record { parser = node_test; max_skips = 0; require_reasons = false }

abbrev observation : ResultObservation
observation = record {
  outcome = success;
  exit_code = some exit_zero;
  signal = none;
  interrupted = false;
  timed_out = false;
  output_sha256 = [];
  output_text =
      codes "# tests 2"
      ++ (10 ∷ codes "# pass 2")
      ++ (10 ∷ codes "# fail 0")
      ++ (10 ∷ codes "# skipped 0");
}

abbrev digest : WorktreeDigest
digest = record {
  is_complete = true;
  digest = some (codes "d1");
  version = 2;
  relevant_paths_sha256 = codes "p1";
  reason = none;
}

recorded_pass_iff_example :
    let parsed = parse_gate_result (λ text. []) observation (parse_options policy) in
    (parser_state (recorded_run (codes "test") (codes "c1") 5 3 digest parsed) policy ≡ none)
    ↔ ((true ≡ true) × (parsed.capture_result ≡ complete))
recorded_pass_iff_example =
    recorded_pass_iff (λ text. []) policy observation (codes "test") (codes "c1") 5 3 digest

exact_strings_iff_example :
    (exact_strings (codes "b" ∷ codes "a" ∷ []) (codes "a" ∷ codes "b" ∷ []) ≡ true)
    ↔ SameTexts (codes "b" ∷ codes "a" ∷ []) (codes "a" ∷ codes "b" ∷ [])
exact_strings_iff_example =
    exact_strings_iff (codes "b" ∷ codes "a" ∷ []) (codes "a" ∷ codes "b" ∷ [])

-- A date is a text of one character, the number of its milliseconds.
abbrev date_of : Text → Option ℕ
date_of [] = none
date_of (n ∷ rest) = some n

abbrev number_text : Count → Text
number_text (nat n) = n ∷ []
number_text Count.other = []

abbrev payload : Payload
payload = record {
  project = codes "cairn";
  session_id = codes "s1";
  config_sha256 = codes "c1";
  worktree_digest = codes "d1";
  rules = record { rule_id = codes "tests"; revision = nat 1 } ∷ [];
  gate_ids = codes "test" ∷ [];
  issued_at = 10 ∷ [];
  expires_at = 90 ∷ [];
}

abbrev context : Context
context = record {
  project = codes "cairn";
  session_id = codes "s1";
  config_sha256 = codes "c1";
  worktree_digest = codes "d1";
  rules = record { rule_id = codes "tests"; revision = nat 1 } ∷ [];
  gate_ids = codes "test" ∷ [];
  now_ms = 50;
}

abbrev candidate : Candidate
candidate = candidate_of 4 user_confirmed 1 payload

validate_override_iff_example :
    (is_valid (validate_governance_override date_of number_text candidate context) ≡ true)
    ↔ Holds date_of number_text candidate context
validate_override_iff_example = validate_override_iff date_of number_text candidate context

abbrev audit_row : AuditRow
audit_row = record {
  id = 4;
  project = codes "cairn";
  session_id = codes "s1";
  event_type = override_created;
  actor_class = user_confirmed;
  linked_fact = some (codes "m1");
  payload_version = 1;
  payload = some payload;
}

abbrev tables : Tables
tables = record { facts = fact_row (codes "m1") ∷ []; audits = audit_row ∷ [] }

latest_sound_example :
    (row : AuditRow) × Memᴰ row tables.audits
    × IsOfSession context row
    × ((other : AuditRow)
        → Memᴰ other tables.audits
        → IsOfSession context other
        → other.id ≤ row.id)
    × (row.event_type ≡ override_created)
    × ((fact : FactRow) × Memᴰ fact tables.facts × Vouches row.linked_fact fact)
    × ((p : Payload) × (row.payload ≡ some p) × ReadsFrom row p candidate)
    × Holds date_of number_text candidate context
unfolding latest sort_by text_eq includes validate_governance_override
latest_sound_example = latest_sound date_of number_text context tables candidate refl
