-- ===== src/Recorder/Laws.antt =====
-- The runs that the recorder makes, against the classifier of evidence.
use cairn_memory.Base.{
  ℕ, ◌≡◌, refl, ap, inl, inr, ◌↔◌, Bool, true, false, Option, none, some, if◌then◌else◌, Bool-cases,
  Option-cases,
}
use cairn_memory.Base.Text.{Text, text_eq}
use cairn_memory.Evidence.{
  CaptureStatus, complete, failed, incomplete, Parser, node_test, exit_only, GateRun, Policy,
  WorktreeDigest,
}
use cairn_memory.Evidence.Classify.{parser_state, parser_text, parser_version_of}
use cairn_memory.Evidence.Classify.Passing.{ResultPass, parser_state_sound, parser_state_complete}
use cairn_memory.ResultParser.{
  ParsedGateResult, ResultObservation, ResultReason, base_result, result_failure_reason,
  output_digest_mismatch,
}
use cairn_memory.ResultParser.Summary.{is_test, parse_output, parse_gate_result}
use cairn_memory.ResultParser.Laws.Fit.{HasCounts, summary-IsFit}
use cairn_memory.Recorder.{parse_options, recorded_run, kind_of}

-- A result that is recorded as complete passes.
abbrev IsPassing : Policy → ParsedGateResult → Type 0
IsPassing policy parsed =
    (parsed.parser_name ≡ policy.parser)
    × (parsed.parser_version ≡ parser_version_of policy.parser)
    × (parsed.capture_result ≡ complete
        → (run : GateRun) → HasCounts run parsed.counts
        → ResultPass policy.parser run policy)

base-IsPassing :
    (policy : Policy) (observation : ResultObservation) (status : CaptureStatus)
    (reason : Option ResultReason)
    → (status ≡ complete → policy.parser ≡ exit_only)
    → IsPassing policy (base_result (parse_options policy) observation status reason)
unfolding base_result parse_options
base-IsPassing policy observation status reason h =
    (refl, refl, λ done run counts. rw (h done) (counts.0, counts.1, counts.2, counts.3))

no_test : (p : Parser) → p ≡ exit_only → is_test (kind_of p) ≡ false
no_test p e = rw e refl

output-IsPassing :
    (policy : Policy) (observation : ResultObservation) (p : Parser)
    → policy.parser ≡ p
    → IsPassing policy (parse_output p observation (parse_options policy))
unfolding parse_output base_result parse_options
output-IsPassing policy observation node_test e = (
  refl,
  refl,
  λ done run counts. rw e (summary-IsFit observation.output_text policy run counts done),
)
output-IsPassing policy observation exit_only e =
    rw (no_test policy.parser e) (base-IsPassing policy observation complete none (λ h. e))

parse-IsPassing :
    (sha256 : Text → Text) (policy : Policy) (observation : ResultObservation)
    → IsPassing policy (parse_gate_result sha256 observation (parse_options policy))
unfolding parse_gate_result parse_options
parse-IsPassing sha256 policy observation =
    elim (Bool-cases (text_eq (sha256 observation.output_text) observation.output_sha256)) [
      | inr e ↦ rw e (
          base-IsPassing policy observation incomplete (some output_digest_mismatch)
            (λ h. absurd (cc)))
      | inl e ↦ elim (Option-cases (result_failure_reason observation)) [
        | inr (reason, f) ↦
            rw (e, f) (base-IsPassing policy observation failed (some reason) (λ h. absurd (cc)))
        | inl f ↦ rw (e, f) (output-IsPassing policy observation policy.parser refl)
      ]
    ]

capture_both :
    (digested : Bool) (status : CaptureStatus)
    → (if digested then status else incomplete) ≡ complete
    → (digested ≡ true) × (status ≡ complete)
capture_both true status h = (refl, h)
capture_both false status h = absurd (cc)

-- A gate run that is recorded of a command's result counts as passing for the policy that the
-- result was parsed by, as far as the result goes, exactly when the worktree's digest was complete
-- and the parser took the result as complete.
pub recorded_pass_iff :
    (sha256 : Text → Text) (policy : Policy) (observation : ResultObservation)
    (gate_id config_sha256 : Text) (event_seq mutation_seq : ℕ) (digest : WorktreeDigest)
    → let parsed = parse_gate_result sha256 observation (parse_options policy) in
      (parser_state (recorded_run gate_id config_sha256 event_seq mutation_seq digest parsed) policy
        ≡ none)
      ↔ ((digest.is_complete ≡ true) × (parsed.capture_result ≡ complete))
unfolding recorded_run
recorded_pass_iff sha256 policy observation gate_id config_sha256 event_seq mutation_seq digest =
    let parsed = parse_gate_result sha256 observation (parse_options policy) in
    let run = recorded_run gate_id config_sha256 event_seq mutation_seq digest parsed in
    let (named, version, passes) = parse-IsPassing sha256 policy observation in
    (
      λ h.
          let (name, at, done, result) = parser_state_sound run policy h in
          capture_both digest.is_complete parsed.capture_result done,
      λ (digested, done). parser_state_complete run policy (
        ap parser_text named,
        version,
        rw (digested, done) refl,
        passes done run (refl, refl, refl, refl, refl),
      ),
    )
