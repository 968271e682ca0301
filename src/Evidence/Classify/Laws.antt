-- ===== src/Evidence/Classify/Laws.antt =====
-- Which recorded run is taken as a gate's evidence.
use cairn_memory.Base.{
  ℕ, ◌≤◌, ◌<◌, ◌≡◌, sym, true, false, none, some, List, arith, any, keep, Memᴰ, mem-keep,
  mem_of_keep, mem_of_head, any-keep, any_of_head, ◌∙◌,
}
use cairn_memory.Base.Text.{Text, text_eq_sound}
use cairn_memory.Base.Sorting.{sort_by, any-sort_by, mem-sort_by, greatest_first}
use cairn_memory.Evidence.{GateRun}
use cairn_memory.Evidence.Classify.{is_eligible, select_latest_eligible_gate_run}

-- The run that is taken is eligible (the gate's, under the same configuration, recorded after the
-- watermark), and no eligible run is later.
pub select_latest-IsLatest :
    (gate_id sha : Text) (watermark : ℕ) (runs : List GateRun) {run : GateRun}
    → select_latest_eligible_gate_run gate_id sha watermark runs ≡ some run
    → Memᴰ run runs
      × (run.gate_id ≡ gate_id)
      × (run.config_sha256 ≡ sha)
      × (watermark < run.event_seq)
      × ((r : GateRun)
          → Memᴰ r runs
          → is_eligible gate_id sha watermark r ≡ true
          → r.event_seq ≤ run.event_seq)
unfolding select_latest_eligible_gate_run
select_latest-IsLatest gate_id sha watermark runs {run} h =
    let eligible = keep (is_eligible gate_id sha watermark) runs in
    let (m, e) =
      mem_of_keep (is_eligible gate_id sha watermark) runs run
        ((mem-sort_by _ run eligible).0 (mem_of_head _ h)) in
    (
      m,
      text_eq_sound _ _ (ground (arith, e)),
      text_eq_sound _ _ (ground (arith, e)),
      ground (arith, e),
      λ r n k.
          greatest_first (λ (x : GateRun). x.event_seq) run r eligible h
            (mem-keep (is_eligible gate_id sha watermark) runs r n k),
    )

-- No run is taken only where none is eligible.
select_latest-none :
    (gate_id sha : Text) (watermark : ℕ) (runs : List GateRun)
    → select_latest_eligible_gate_run gate_id sha watermark runs ≡ none
    → any (is_eligible gate_id sha watermark) runs ≡ false
unfolding select_latest_eligible_gate_run
select_latest-none gate_id sha watermark runs h =
    let p = is_eligible gate_id sha watermark in
    sym (any-keep p runs)
    ∙ sym (any-sort_by _ p (keep p runs))
    ∙ any_of_head p (sort_by _ (keep p runs)) h
