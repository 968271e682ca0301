-- ===== src/Evidence/Classify/Passing.antt =====
-- When a recorded result passes its policy.
use cairn_memory.Base.{
  ℕ, ◌+◌, ◌≤◌, ◌<◌, ◌≡◌, refl, ap, ◌↔◌, ◌≢◌, ◌⊎◌, inl, inr, true, false, none, some, arith, ◌==◌,
  Bool-cases, Option-cases, ==_iff,
}
use cairn_memory.Base.Text.{text_eq, text_eq_sound, text_eq_iff}
use cairn_memory.Evidence.{
  CaptureStatus, complete, failed, incomplete, adapter_error, Parser, node_test, exit_only,
  fresh_pass, GateRun, Policy, Classified,
}
use cairn_memory.Evidence.Classify.{
  valid_count, counts_state, node_test_state, exit_only_state, result_state, capture_state,
  parser_state, parser_text, parser_version_of,
}

abbrev pub NodePass : GateRun → Policy → Type 0
NodePass run policy =
    (total pass skips : ℕ) × (valid_count run.test_total ≡ some total)
    × (valid_count run.test_pass ≡ some pass)
    × (valid_count run.test_fail ≡ some 0)
    × (valid_count run.test_skip ≡ some skips)
    × (pass + skips ≤ total)
    × (0 < total)
    × (skips ≤ policy.max_skips)
    × ((policy.require_reasons ≡ false) ⊎ (skips ≡ 0) ⊎ (run.skip_reasons_complete ≡ some true))

counts_state-eq-none :
    (run : GateRun) (policy : Policy) (total pass fail skips : ℕ)
    → counts_state run policy total pass fail skips ≡ none
    → (fail ≡ 0)
      × (pass + skips ≤ total)
      × (0 < total)
      × (skips ≤ policy.max_skips)
      × ((policy.require_reasons ≡ false) ⊎ (skips ≡ 0) ⊎ (run.skip_reasons_complete ≡ some true))
unfolding counts_state
counts_state-eq-none run policy total pass fail skips h = ground arith

counts_state_pass :
    (run : GateRun) (policy : Policy) (total pass skips : ℕ)
    → pass + skips ≤ total
    → 0 < total
    → skips ≤ policy.max_skips
    → (policy.require_reasons ≡ false) ⊎ (skips ≡ 0) ⊎ (run.skip_reasons_complete ≡ some true)
    → counts_state run policy total pass 0 skips ≡ none
unfolding counts_state
counts_state_pass run policy total pass skips a b c d = ground arith

node_test_state_sound :
    (run : GateRun) (policy : Policy) → node_test_state run policy ≡ none → NodePass run policy
unfolding node_test_state
node_test_state_sound run policy h = elim (Option-cases (valid_count run.test_total)) [
  | inl e ↦ absurd (cc (rw (e, node_test_state) at h))
  | inr (total, e) ↦ elim (Option-cases (valid_count run.test_pass)) [
    | inl f ↦ absurd (cc (rw (e, f, node_test_state) at h))
    | inr (pass, f) ↦ elim (Option-cases (valid_count run.test_fail)) [
      | inl g ↦ absurd (cc (rw (e, f, g, node_test_state) at h))
      | inr (fail, g) ↦ elim (Option-cases (valid_count run.test_skip)) [
        | inl k ↦ absurd (cc (rw (e, f, g, k, node_test_state) at h))
        | inr (skips, k) ↦
            let (none_failed, within, some_ran, few, reasons) =
              counts_state-eq-none run policy total pass fail skips
                (rw (e, f, g, k, node_test_state) at h) in
            (
              total,
              pass,
              skips,
              e,
              f,
              rw g (ap some none_failed),
              k,
              within,
              some_ran,
              few,
              reasons,
            )
      ]
    ]
  ]
]

node_test_state_complete :
    (run : GateRun) (policy : Policy) → NodePass run policy → node_test_state run policy ≡ none
unfolding node_test_state
node_test_state_complete run policy (total, pass, skips, a, b, c, d, p, q, r, s) =
    rw (a, node_test_state)
      (rw (b, node_test_state)
        (rw (c, node_test_state)
          (rw (d, node_test_state) (counts_state_pass run policy total pass skips p q r s))))

-- What a recorded result needs to count as a pass.
abbrev pub ResultPass : Parser → GateRun → Policy → Type 0
ResultPass node_test run policy = NodePass run policy
ResultPass exit_only run policy =
    (run.test_total ≡ none)
    × (run.test_pass ≡ none)
    × (run.test_fail ≡ none)
    × (run.test_skip ≡ none)

result_state_iff :
    (parser : Parser) (run : GateRun) (policy : Policy)
    → (result_state parser run policy ≡ none) ↔ ResultPass parser run policy
unfolding result_state
result_state_iff node_test run policy =
    (node_test_state_sound run policy, node_test_state_complete run policy)
result_state_iff exit_only run policy = unfold exit_only_state in ground arith

capture_state_iff :
    (c : CaptureStatus) (run : GateRun) (policy : Policy)
    → (capture_state c run policy ≡ none) ↔ ((c ≡ complete) × ResultPass policy.parser run policy)
unfolding capture_state
capture_state_iff complete run policy = (
  λ h. (refl, (result_state_iff policy.parser run policy).0 h),
  λ p. (result_state_iff policy.parser run policy).1 p.1,
)
capture_state_iff failed run policy = (λ h. absurd (cc), λ p. absurd (cc p.0))
capture_state_iff incomplete run policy = (λ h. absurd (cc), λ p. absurd (cc p.0))
capture_state_iff adapter_error run policy = (λ h. absurd (cc), λ p. absurd (cc p.0))

-- A run whose recorded result passes the policy: the policy's parser at its version, completely
-- captured, with passing counts.
abbrev pub RecordedPass : GateRun → Policy → Type 0
RecordedPass run policy =
    (run.parser_name ≡ parser_text policy.parser)
    × (run.parser_version ≡ parser_version_of policy.parser)
    × (run.capture_result ≡ complete)
    × ResultPass policy.parser run policy

pub parser_state_sound :
    (run : GateRun) (policy : Policy) → parser_state run policy ≡ none → RecordedPass run policy
unfolding parser_state
parser_state_sound run policy h =
    elim (Bool-cases (text_eq run.parser_name (parser_text policy.parser))) [
      | inr n ↦ absurd (cc (rw (n, parser_state) at h))
      | inl n ↦ elim (Bool-cases (run.parser_version == parser_version_of policy.parser)) [
        | inr v ↦ absurd (cc (rw (n, v, parser_state) at h))
        | inl v ↦
            let (done, passed) =
              (capture_state_iff run.capture_result run policy).0 (rw (n, v, parser_state) at h) in
            (text_eq_sound _ _ n, (==_iff _ _).0 v, done, passed)
      ]
    ]

pub parser_state_complete :
    (run : GateRun) (policy : Policy) → RecordedPass run policy → parser_state run policy ≡ none
unfolding parser_state
parser_state_complete run policy (name, version, done, passed) =
    rw ((text_eq_iff _ _).1 name, (==_iff _ _).1 version, parser_state)
      ((capture_state_iff run.capture_result run policy).1 (done, passed))

-- A recorded result that does not pass is never classified as a fresh pass.
node_test_state-state :
    (run : GateRun) (policy : Policy) {c : Classified}
    → node_test_state run policy ≡ some c
    → c.state ≢ fresh_pass
unfolding node_test_state counts_state
node_test_state-state run policy h = ground arith

capture_state-state :
    (p : Parser) (s : CaptureStatus) (run : GateRun) (policy : Policy) {c : Classified}
    → policy.parser ≡ p
    → capture_state s run policy ≡ some c
    → c.state ≢ fresh_pass
unfolding capture_state result_state exit_only_state
capture_state-state node_test s run policy e h = ground (arith, node_test_state-state run policy)
capture_state-state exit_only s run policy e h = ground arith

pub parser_state-state :
    (run : GateRun) (policy : Policy) {c : Classified}
    → parser_state run policy ≡ some c
    → c.state ≢ fresh_pass
unfolding parser_state
parser_state-state run policy h =
    ground (arith, capture_state-state policy.parser run.capture_result run policy)
