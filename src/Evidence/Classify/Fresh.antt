-- ===== src/Evidence/Classify/Fresh.antt =====
-- When a gate's evidence is a fresh pass.
use cairn_memory.Base.{
  ℕ, ◌<◌, ◌≡◌, ap, ◌↔◌, inl, inr, true, false, Option, none, some, List, arith, ltb, keep, Memᴰ,
  Bool-cases, Option-cases, mem-keep, mem_of_keep, find-eq-none, find-eq-some, lt→ltb, ltb→lt,
}
use cairn_memory.Base.Text.{Text, text_eq, text_eq_sound, text_eq_refl, text_eq_iff}
use cairn_memory.Base.Sorting.{sort_by, mem-sort_by}
use cairn_memory.Evidence.{fresh_pass, MutationEvent, GateRun, Policy, WorktreeDigest}
use cairn_memory.Evidence.Classify.{
  mutation_intersects, parser_state, first_invalidating, freshness, classify_run,
  classify_gate_evidence, worktree_digest_v2_version, complete_digest, version_is_current,
  same_paths,
}
use cairn_memory.Evidence.Classify.Passing.{
  RecordedPass, parser_state_sound, parser_state_complete, parser_state-state,
}

-- No event after the run touches the paths.
abbrev pub Untouched : GateRun → List Text → List MutationEvent → Type 0
Untouched run paths events =
    (e : MutationEvent)
    → Memᴰ e events
    → run.event_seq < e.event_seq
    → mutation_intersects e paths ≡ false

first_invalidating_sound :
    (run : GateRun) (paths : List Text) (events : List MutationEvent)
    → first_invalidating run paths events ≡ none
    → Untouched run paths events
unfolding first_invalidating
first_invalidating_sound run paths events h e m later = find-eq-none _ _ e h (
    (mem-sort_by _ e (keep (λ event. ltb run.event_seq event.event_seq) events)).1
      (mem-keep _ events e m (lt→ltb _ _ later)))

first_invalidating_complete :
    (run : GateRun) (paths : List Text) (events : List MutationEvent)
    → Untouched run paths events
    → first_invalidating run paths events ≡ none
unfolding first_invalidating
first_invalidating_complete run paths events h =
    elim (Option-cases (first_invalidating run paths events)) [
      | inl e ↦ e
      | inr (e, found) ↦
          let after = λ (event : MutationEvent). ltb run.event_seq event.event_seq in
          let (m, hit) = find-eq-some _ (sort_by _ (keep after events)) found in
          let (m', later) =
            mem_of_keep after events e ((mem-sort_by _ e (keep after events)).0 m) in
          absurd (cc (h e m' (ltb→lt _ _ later), hit))
    ]

-- The digest was taken, over the same paths, and is the run's.
abbrev pub SameDigest : GateRun → Option WorktreeDigest → Type 0
SameDigest run current =
    (digest paths_sha : Text) × (complete_digest current ≡ some (digest, paths_sha))
    × (run.worktree_digest ≡ some digest)
    × (run.relevant_paths_sha256 ≡ some paths_sha)

-- Everything that makes a gate's evidence a fresh pass.
pub record IsFresh (run : GateRun) (policy : Policy) (paths : List Text)
    (events : List MutationEvent) (current : Option WorktreeDigest) : Type 0 where
  pub passed : RecordedPass run policy
  pub version : run.digest_version ≡ some worktree_digest_v2_version
  pub digest : SameDigest run current
  pub untouched : Untouched run paths events

version_is_current_iff :
    (v : Option ℕ) → (version_is_current v ≡ true) ↔ (v ≡ some worktree_digest_v2_version)
version_is_current_iff none = (λ h. absurd (cc), λ h. absurd (cc))
version_is_current_iff (some v) = ground arith

same_paths_iff : (p : Option Text) (sha : Text) → (same_paths p sha ≡ true) ↔ (p ≡ some sha)
same_paths_iff none sha = (λ h. absurd (cc), λ h. absurd (cc))
same_paths_iff (some p) sha = ground (arith, text_eq_iff p sha)

module _ (run : GateRun) (paths : List Text) (events : List MutationEvent)
    (current : Option WorktreeDigest) where
  freshness_sound :
      (recorded digest : Text)
      → (freshness run (first_invalidating run paths events) recorded digest).state ≡ fresh_pass
      → (first_invalidating run paths events ≡ none) × (recorded ≡ digest)
  unfolding freshness
  freshness_sound recorded digest h = elim (Option-cases (first_invalidating run paths events)) [
    | inr (e, found) ↦ absurd (cc (rw (found, freshness) at h))
    | inl e ↦ elim (Bool-cases (text_eq recorded digest)) [
      | inl same ↦ (e, text_eq_sound _ _ same)
      | inr differ ↦ absurd (cc (rw (e, differ, freshness) at h))
    ]
  ]

  classify_run_sound :
      (classify_run run paths events current).state ≡ fresh_pass
      → (run.digest_version ≡ some worktree_digest_v2_version)
        × SameDigest run current
        × Untouched run paths events
  unfolding classify_run
  classify_run_sound h = elim (Bool-cases (version_is_current run.digest_version)) [
    | inr v ↦ absurd (cc (rw (v, classify_run) at h))
    | inl v ↦ elim (Option-cases run.worktree_digest) [
      | inl d ↦ absurd (cc (rw (v, d, classify_run) at h))
      | inr (recorded, d) ↦ elim (Option-cases (complete_digest current)) [
        | inl c ↦ absurd (cc (rw (v, d, c, classify_run) at h))
        | inr ((digest, sha), c) ↦ elim (Bool-cases (same_paths run.relevant_paths_sha256 sha)) [
          | inr p ↦ absurd (cc (rw (v, d, c, p, classify_run) at h))
          | inl p ↦
              let (untouched, same) =
                freshness_sound recorded digest (rw (v, d, c, p, classify_run) at h) in
              (
                (version_is_current_iff _).0 v,
                (digest, sha, c, rw d (ap some same), (same_paths_iff _ sha).0 p),
                first_invalidating_sound run paths events untouched,
              )
        ]
      ]
    ]
  ]

  classify_run_complete :
      run.digest_version ≡ some worktree_digest_v2_version
      → SameDigest run current
      → Untouched run paths events
      → (classify_run run paths events current).state ≡ fresh_pass
  unfolding classify_run freshness
  classify_run_complete v (digest, sha, c, d, p) u =
      rw ((version_is_current_iff _).1 v, classify_run)
        (rw (d, classify_run)
          (rw (c, classify_run)
            (rw (
              (same_paths_iff _ sha).1 p,
              first_invalidating_complete run paths events u,
              text_eq_refl digest,
            ))))

  -- A gate's evidence is classified as a fresh pass exactly when its run passed, under the current
  -- digest version, with the digest and paths of the worktree now, and no later event touches the
  -- gate's paths.
  pub classify-IsFresh_iff :
      (policy : Policy)
      → ((classify_gate_evidence (some run) policy paths events current).state ≡ fresh_pass)
        ↔ IsFresh run policy paths events current
  unfolding classify_gate_evidence
  classify-IsFresh_iff policy = (sound, complete')
    where
      sound :
          (classify_gate_evidence (some run) policy paths events current).state ≡ fresh_pass
          → IsFresh run policy paths events current
      sound h = elim (Option-cases (parser_state run policy)) [
        | inr (c, e) ↦
            absurd (parser_state-state run policy e (rw (e, classify_gate_evidence) at h))
        | inl e ↦
            let (v, d, u) = classify_run_sound (rw (e, classify_gate_evidence) at h) in
            record {
              passed = parser_state_sound run policy e;
              version = v;
              digest = d;
              untouched = u;
            }
      ]

      complete' :
          IsFresh run policy paths events current
          → (classify_gate_evidence (some run) policy paths events current).state ≡ fresh_pass
      complete' f =
          rw (parser_state_complete run policy f.passed, classify_gate_evidence)
            (classify_run_complete f.version f.digest f.untouched)
