-- ===== src/ResultParser/Laws/Fit.antt =====
-- The summaries that are taken as complete, against the policy.
use cairn_memory.Base.{
  ℕ, ◌+◌, ◌≤◌, ◌≡◌, ◌⊎◌, refl, ap, ◌∙◌, inl, inr, Bool, true, false, ◌||◌, Option, none, some, ltb,
  leb, ◌==◌, map_option, arith, Bool-cases, or-eq-false,
}
use cairn_memory.Base.Text.{Text, codes}
use cairn_memory.Evidence.{complete, GateRun, Policy, Count, nat}
use cairn_memory.Evidence.Classify.Passing.{NodePass}
use cairn_memory.Evidence.Classify.{max_safe_integer, valid_count}
use cairn_memory.ResultParser.{
  SkipPolicy, ResultReason, Counts, whole, NodeSummary, LineCount, counted, unsafe, missing,
  conflict, malformed_test_counts, tap_plan_mismatch, missing_test_summary, unique_line_count,
  tap_plan,
}
use cairn_memory.ResultParser.Summary.{
  whole_summary, count_summary, total_summary, parse_node_summary, capture_of, partial_summary,
  is_zero, is_malformed, plan_differs, normal_lines,
}
use cairn_memory.ResultParser.Laws.{IsSafe, unique_line_count-IsSafe}

abbrev pub skips_of : Policy → SkipPolicy
skips_of policy = record { max = policy.max_skips; require_reasons = policy.require_reasons }

-- A run with the counts of a summary.
abbrev pub HasCounts : GateRun → Counts → Type 0
HasCounts run counts =
    (run.test_total ≡ map_option nat counts.total)
    × (run.test_pass ≡ map_option nat counts.passed)
    × (run.test_fail ≡ map_option nat counts.failed)
    × (run.test_skip ≡ map_option nat counts.skipped)
    × (run.skip_reasons_complete ≡ counts.skip_reasons_complete)

-- A run with the counts of a summary that is taken as complete passes the policy.
abbrev pub IsFit : Policy → NodeSummary → Type 0
IsFit policy summary =
    (run : GateRun)
    → HasCounts run summary.counts
    → capture_of summary.kind summary.reason ≡ complete
    → NodePass run policy

safe_valid :
    (o : Option Count) (n : ℕ)
    → o ≡ some (nat n)
    → leb n max_safe_integer ≡ true
    → valid_count o ≡ some n
unfolding valid_count
safe_valid o n e h = rw (e, h) refl

whole_reason :
    (policy : Policy) (reasons : Bool) (total passed fails skipped : ℕ)
    → capture_of whole (whole_summary (skips_of policy) reasons total passed fails skipped).reason
      ≡ complete
    → (fails ≡ 0)
      × (skipped ≤ policy.max_skips)
      × ((policy.require_reasons ≡ false) ⊎ (reasons ≡ true))
unfolding whole_summary
whole_reason policy reasons total passed fails skipped h = ground arith

whole-IsFit :
    (policy : Policy) (reasons : Bool) (total passed fails skipped : ℕ)
    → leb total max_safe_integer ≡ true
    → leb passed max_safe_integer ≡ true
    → leb fails max_safe_integer ≡ true
    → leb skipped max_safe_integer ≡ true
    → ltb total (passed + fails + skipped) ≡ false
    → (total == 0) ≡ false
    → IsFit policy (whole_summary (skips_of policy) reasons total passed fails skipped)
unfolding whole_summary
whole-IsFit policy reasons total passed fails skipped t p f s few some_tests run (a, b, c, d, e) h =
    let (none_failed, few_skips, why) = whole_reason policy reasons total passed fails skipped h in
    (
      total,
      passed,
      skipped,
      safe_valid run.test_total total a t,
      safe_valid run.test_pass passed b p,
      safe_valid run.test_fail fails c f ∙ ap some none_failed,
      safe_valid run.test_skip skipped d s,
      ground (arith, none_failed),
      ground arith,
      few_skips,
      given why,
    )
  where
    given :
        (policy.require_reasons ≡ false) ⊎ (reasons ≡ true)
        → (policy.require_reasons ≡ false) ⊎ (skipped ≡ 0) ⊎ (run.skip_reasons_complete ≡ some true)
    given (inl q) = inl q
    given (inr q) = inr (inr (e ∙ ap some q))

partial-IsFit :
    (policy : Policy) (reason : ResultReason) (total : Option ℕ)
    → IsFit policy (partial_summary reason total)
partial-IsFit policy reason total run counts h = absurd (cc)

count-IsFit :
    (output : Text) (policy : Policy) (total : ℕ) (passed fails skipped : LineCount)
    → leb total max_safe_integer ≡ true
    → (total == 0) ≡ false
    → IsSafe passed
    → IsSafe fails
    → IsSafe skipped
    → IsFit policy (count_summary output (skips_of policy) total passed fails skipped)
unfolding count_summary
count-IsFit output policy total (counted p) (counted f) (counted s) t z sp sf ss =
    elim (Bool-cases (ltb total p || ltb total f || ltb total s || ltb total (p + f + s))) [
      | inl e ↦ rw e (partial-IsFit policy malformed_test_counts (some total))
      | inr e ↦ rw e (whole-IsFit policy _ total p f s t sp sf ss (or-eq-false _ _ e).1 z)
    ]
count-IsFit output policy total (counted p) (counted f) unsafe t z sp sf ss =
    partial-IsFit policy malformed_test_counts (some total)
count-IsFit output policy total (counted p) (counted f) missing t z sp sf ss =
    partial-IsFit policy malformed_test_counts (some total)
count-IsFit output policy total (counted p) (counted f) conflict t z sp sf ss =
    partial-IsFit policy malformed_test_counts (some total)
count-IsFit output policy total (counted p) unsafe s t z sp sf ss =
    partial-IsFit policy malformed_test_counts (some total)
count-IsFit output policy total (counted p) missing s t z sp sf ss =
    partial-IsFit policy malformed_test_counts (some total)
count-IsFit output policy total (counted p) conflict s t z sp sf ss =
    partial-IsFit policy malformed_test_counts (some total)
count-IsFit output policy total unsafe f s t z sp sf ss =
    partial-IsFit policy malformed_test_counts (some total)
count-IsFit output policy total missing f s t z sp sf ss =
    partial-IsFit policy malformed_test_counts (some total)
count-IsFit output policy total conflict f s t z sp sf ss =
    partial-IsFit policy malformed_test_counts (some total)

total-IsFit :
    (output : Text) (policy : Policy) (plan total : LineCount)
    → IsSafe total
    → is_zero total ≡ false
    → IsFit policy (total_summary output (skips_of policy) plan total)
unfolding total_summary
total-IsFit output policy plan (counted n) t z = elim (Bool-cases (plan_differs plan n)) [
  | inl e ↦ rw e (partial-IsFit policy tap_plan_mismatch (some n))
  | inr e ↦ rw e (
      count-IsFit output policy n (unique_line_count output (codes "pass"))
        (unique_line_count output (codes "fail")) (unique_line_count output (codes "skipped")) t z
        (unique_line_count-IsSafe output (codes "pass"))
        (unique_line_count-IsSafe output (codes "fail"))
        (unique_line_count-IsSafe output (codes "skipped")))
]
total-IsFit output policy plan unsafe t z = partial-IsFit policy missing_test_summary none
total-IsFit output policy plan missing t z = partial-IsFit policy missing_test_summary none
total-IsFit output policy plan conflict t z = partial-IsFit policy missing_test_summary none

pub summary-IsFit :
    (output_text : Text) (policy : Policy)
    → IsFit policy (parse_node_summary output_text (skips_of policy))
unfolding parse_node_summary
summary-IsFit output_text policy =
    let output = normal_lines output_text in
    let plan = tap_plan output in
    let total = unique_line_count output (codes "tests") in
    elim (Bool-cases (is_malformed plan || is_malformed total)) [
      | inl e ↦ rw e (partial-IsFit policy malformed_test_counts none)
      | inr e ↦ elim (Bool-cases (is_zero plan || is_zero total)) [
        | inl f ↦ rw (e, f) (λ run counts h. absurd (cc))
        | inr f ↦
            rw (e, f)
              (total-IsFit output policy plan total
                (unique_line_count-IsSafe output (codes "tests")) (or-eq-false _ _ f).1)
      ]
    ]
