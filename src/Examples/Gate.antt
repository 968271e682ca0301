-- ===== src/Examples/Gate.antt =====
-- Concrete inputs of the governance gate's parts: a command, its gate, recorded runs and rules.
use cairn_memory.Base.{
  ◌≤◌, ◌<◌, ◌≡◌, refl, ◌↔◌, true, false, ◌&&◌, ◌||◌, none, some, [], ◌∷◌, any, Memᴰ,
}
use cairn_memory.Base.Text.{codes, text_eq, text_lt, includes}
use cairn_memory.Base.Sorting.{sort_by}
use cairn_memory.Evidence.Glob.{path_matches_patterns}
use cairn_memory.Command.Match.{
  ObservedCommand, CommandForm, GateCommand, MatchContext, normalized_cwd, observed_argv,
  match_gate_command, environment_matches, match_forms, argv_ok, exact_argv, cwd_ok, same_cwd,
  env_ok, alias_forms,
}
use cairn_memory.Command.{
  tokenize_simple_command, scan, close, finish_token, push_char, double_escape, plain_escape, round,
  round_in, round_unquoted, round_single, round_double, is_space, is_unsupported,
}
use cairn_memory.Paths.{
  climbs, relative_segments, resolve_from, absolute_path, go_up, join_with, normal_from,
  normal_segments, normal_step, split_on, starts_with_slash,
}
use cairn_memory.Command.Match.Laws.{
  IsExact, forms_of, specified, match_gate_command_lem, match_gate_command-IsExact,
}
use cairn_memory.Evidence.{
  RuleInput, PathRule, MutationEvent, scoped, unknown, GateRun, Policy, WorktreeDigest, nat,
  complete, node_test, fresh_pass,
}
use cairn_memory.Evidence.Classify.{
  select_latest_eligible_gate_run, classify_gate_evidence, is_eligible,
}
use cairn_memory.Evidence.Classify.Laws.{select_latest-IsLatest}
use cairn_memory.Evidence.Classify.Fresh.{IsFresh, classify-IsFresh_iff}
use cairn_memory.Evidence.Selection.{
  SelectionInput, select_evidence_requirements, is_selected, is_applicable, has_unknown,
  changed_paths_of,
}
use cairn_memory.Evidence.Selection.Laws.{required_gate_iff, is_applicable_mono, watermark_covers}

abbrev form : CommandForm
form = record { argv = codes "npm" ∷ codes "test" ∷ []; cwd = codes "." }

abbrev gate : GateCommand
gate = record { primary = form; aliases = []; env_names = [] }

abbrev observed : ObservedCommand
observed = record {
  command = some (codes "npm 'test'");
  argv = none;
  cwd = codes "/r";
  environment = none;
}

abbrev context : MatchContext
context = record { project_root = codes "/r"; expected_environment = none }

match_gate_command_lem_example :
    match_gate_command (codes "/") observed gate context
    ≡ specified
        (codes "/")
        gate
        context
        none
        (codes "npm" ∷ codes "test" ∷ [])
        (codes "r" ∷ [])
        (forms_of gate)
        false
        false
unfolding observed_argv normalized_cwd tokenize_simple_command text_eq round is_space is_unsupported
    climbs relative_segments resolve_from
match_gate_command_lem_example =
    match_gate_command_lem (codes "/") observed gate context (codes "npm" ∷ codes "test" ∷ [])
      (codes "r" ∷ []) refl refl

match_gate_command-IsExact_example :
    IsExact (codes "/") observed gate context none (codes "npm" ∷ codes "test" ∷ []) (codes "/r")
unfolding match_gate_command match_forms argv_ok exact_argv cwd_ok same_cwd env_ok alias_forms
    observed_argv normalized_cwd tokenize_simple_command scan close finish_token push_char
    double_escape plain_escape round round_in round_unquoted round_single round_double is_space
    is_unsupported climbs relative_segments resolve_from absolute_path go_up join_with normal_from
    normal_segments normal_step split_on starts_with_slash text_eq environment_matches
match_gate_command-IsExact_example =
    match_gate_command-IsExact (codes "/") observed gate context {i = none}
      {argv = codes "npm" ∷ codes "test" ∷ []} {path = codes "/r"} refl

abbrev run : GateRun
run = record {
  gate_id = codes "tests";
  event_seq = 7;
  mutation_seq = 3;
  config_sha256 = codes "c";
  parser_name = codes "node-test";
  parser_version = 1;
  test_total = some (nat 2);
  test_pass = some (nat 2);
  test_fail = some (nat 0);
  test_skip = some (nat 0);
  skip_reasons_complete = none;
  worktree_digest = some (codes "d");
  digest_version = some 2;
  relevant_paths_sha256 = some (codes "q");
  capture_result = complete;
}

abbrev policy : Policy
policy = record { parser = node_test; max_skips = 0; require_reasons = true }

abbrev digest : WorktreeDigest
digest = record {
  is_complete = true;
  digest = some (codes "d");
  version = 2;
  relevant_paths_sha256 = codes "q";
  reason = none;
}

classify-IsFresh_iff_example :
    ((classify_gate_evidence (some run) policy (codes "src/**" ∷ []) [] (some digest)).state
      ≡ fresh_pass)
    ↔ IsFresh run policy (codes "src/**" ∷ []) [] (some digest)
classify-IsFresh_iff_example =
    classify-IsFresh_iff run (codes "src/**" ∷ []) [] (some digest) policy

select_latest-IsLatest_example :
    Memᴰ run (run ∷ [])
    × (run.gate_id ≡ codes "tests")
    × (run.config_sha256 ≡ codes "c")
    × (5 < run.event_seq)
    × ((r : GateRun)
        → Memᴰ r (run ∷ [])
        → is_eligible (codes "tests") (codes "c") 5 r ≡ true
        → r.event_seq ≤ run.event_seq)
unfolding select_latest_eligible_gate_run sort_by text_eq
select_latest-IsLatest_example =
    select_latest-IsLatest (codes "tests") (codes "c") 5 (run ∷ []) {run = run} refl

abbrev rule : RuleInput
rule = record {
  rule_id = codes "r1";
  revision = 1;
  gate_ids = codes "lint" ∷ [];
  paths = [];
  watermark_event_seq = 4;
}

abbrev path_rule : PathRule
path_rule = record { paths = codes "src/*" ∷ []; require = codes "tests" ∷ [] }

abbrev edited : MutationEvent
edited = record {
  event_seq = 8;
  mutation_seq = 4;
  mutation_class = scoped;
  affected_paths = codes "src/a" ∷ [];
}

abbrev unseen : MutationEvent
unseen = record { event_seq = 9; mutation_seq = 5; mutation_class = unknown; affected_paths = [] }

abbrev input : SelectionInput
input = record { rules = rule ∷ []; path_rules = path_rule ∷ []; events = edited ∷ [] }

required_gate_iff_example :
    includes (codes "tests") (select_evidence_requirements input).required_gate_ids ≡ (
      any
        (λ (r : PathRule).
          is_selected (has_unknown input.events) (changed_paths_of input.events) r
          && includes (codes "tests") r.require)
        input.path_rules
      || any
          (λ (r : RuleInput).
            is_applicable (has_unknown input.events) (changed_paths_of input.events) r
            && includes (codes "tests") r.gate_ids)
          input.rules)
required_gate_iff_example = required_gate_iff input (codes "tests")

is_applicable_mono_example :
    is_applicable
      (has_unknown (edited ∷ unseen ∷ []))
      (changed_paths_of (edited ∷ unseen ∷ []))
      rule
    ≡ true
unfolding is_applicable
is_applicable_mono_example = is_applicable_mono (edited ∷ []) (unseen ∷ []) rule refl

watermark_covers_example : rule.watermark_event_seq ≤ 4
unfolding select_evidence_requirements sort_by path_matches_patterns text_eq text_lt
watermark_covers_example =
    watermark_covers input rule (codes "tests", 4) (Memᴰ.head refl) (Memᴰ.tail (Memᴰ.head refl))
