-- ===== src/Shadow/Stop/Laws.antt =====
-- What a Stop's evaluation answers, against what it stored.
pub mod Writes
pub mod Once
use cairn_memory.Base.{
  ◌≡◌, refl, ap, subst, inl, inr, Bool, true, false, not, ◌&&◌, Option, none, some, List, [], ◌∷◌,
  ◌++◌, ◌==◌, Bool-cases, is_some, if_holds, length, or_else, if_holds, length, or_else,
}
use cairn_memory.Verdict.{FaultCode, deadline_exceeded, audit_write_failed}
use cairn_memory.Shadow.{selecting, Sequence, Snapshot, GateConfig, Outcome, failed, resolved}
use cairn_memory.Shadow.Attempt.{ShadowVerdict, AttemptContext, evaluate_attempt, fault_verdict}
use cairn_memory.Shadow.Stop.{
  StopStore, StopEnv, VerdictRow, LoadedConfig, loaded, unavailable, FaultBasis, basis_of,
  Persistence, persisted, must_retry, self_error, Diagnostic, Try, returned, continued,
  same_sequence, moved, recheck_sequence, write_verdict, persist_verdict, fault_intent,
  after_fault_write, on_fault, after_recheck, after_write, on_verdict, attempted, handed_out,
  try_config, try_fault, one_try, second_try, first_try, evaluate_stop, prepared_snapshot,
  persisting, was_persisted, not_persisted, not_persisted, is_config_missing, answer, skipped,
}

abbrev pub is_returned : Try → Bool
is_returned (returned diagnostic) = true
is_returned continued = false

-- The table's last verdict is this one, evaluated at the point where the store stands.
abbrev pub IsStored : Option ShadowVerdict → StopStore → Type 0
IsStored verdict store =
    (earlier : List VerdictRow) × (row : VerdictRow) × (store.verdicts ≡ earlier ++ row ∷ [])
    × (same_sequence store.sequence row.evaluated_through ≡ true)
    × (verdict ≡ some row.verdict)

-- A diagnostic that says persisted is of a stored verdict.
abbrev pub IsTruthful : Diagnostic → StopStore → Type 0
IsTruthful diagnostic store = diagnostic.status ≡ was_persisted → IsStored diagnostic.verdict store

-- A try that returns is truthful, and the second one returns.
abbrev IsGood : Bool → Try × StopStore → Type 0
IsGood again (returned diagnostic, store) = IsTruthful diagnostic store
IsGood true (continued, store) = ⊥
IsGood false (continued, store) = Unit

-- What a write of a verdict answers is what it did, and asks the first try alone for another.
abbrev IsWritten : Bool → ShadowVerdict → Persistence × StopStore → Type 0
IsWritten again verdict (persisted, store) = IsStored (some verdict) store
IsWritten true verdict (must_retry, store) = ⊥
IsWritten false verdict (must_retry, store) = Unit
IsWritten again verdict (self_error fault, store) = Unit

moved-IsWritten :
    (again : Bool) (verdict : ShadowVerdict) (store : StopStore)
    → IsWritten again verdict (moved again, store)
moved-IsWritten true verdict store = tt
moved-IsWritten false verdict store = tt

write-IsWritten :
    (fails : Bool) (fault : Option FaultCode) (verdict : ShadowVerdict) (evaluated : Sequence)
    (again : Bool) (store : StopStore)
    → IsWritten again verdict (write_verdict fails fault verdict evaluated again store)
unfolding write_verdict
write-IsWritten fails (some fault) verdict evaluated again store = tt
write-IsWritten fails none verdict evaluated again store =
    elim (Bool-cases (same_sequence store.sequence evaluated)) [
      | inr e ↦ rw e (moved-IsWritten again verdict store)
      | inl e ↦
          let row : VerdictRow = record {
            verdict = verdict;
            evaluated_through = evaluated;
            retried = again;
          } in
          rw e (
            if_holds (IsWritten again verdict) fails (self_error audit_write_failed, store) _ tt
              (store.verdicts, row, refl, e, refl))
    ]

module _ (env : StopEnv) where
  persist-IsWritten :
      (verdict : ShadowVerdict) (evaluated : Sequence) (again : Bool) (store : StopStore)
      → IsWritten again verdict (persist_verdict env verdict evaluated again store)
  unfolding persist_verdict
  persist-IsWritten verdict evaluated again store =
      write-IsWritten (env.insert_fails again) (env.payload_fault verdict) verdict evaluated again
        store

  fault_write-IsGood :
      (again : Bool) (verdict : ShadowVerdict) (r : Persistence × StopStore)
      → IsWritten again verdict r
      → IsGood again (after_fault_write env again verdict r)
  unfolding after_fault_write
  fault_write-IsGood false verdict (persisted, store) h = λ s. h
  fault_write-IsGood true verdict (persisted, store) h = λ s. h
  fault_write-IsGood false verdict (must_retry, store) h = tt
  fault_write-IsGood true verdict (must_retry, store) h = absurd h
  fault_write-IsGood false verdict (self_error fault, store) h = λ s. absurd (cc)
  fault_write-IsGood true verdict (self_error fault, store) h = λ s. absurd (cc)

  write-IsGood :
      (again : Bool) (verdict : ShadowVerdict) (r : Persistence × StopStore)
      → IsWritten again verdict r
      → IsGood again (after_write env again verdict r)
  unfolding after_write
  write-IsGood false verdict (persisted, store) h = λ s. h
  write-IsGood true verdict (persisted, store) h = λ s. h
  write-IsGood false verdict (must_retry, store) h = tt
  write-IsGood true verdict (must_retry, store) h = absurd h
  write-IsGood false verdict (self_error fault, store) h = λ s. absurd (cc)
  write-IsGood true verdict (self_error fault, store) h = λ s. absurd (cc)

  recheck-IsGood :
      (again : Bool) (verdict : ShadowVerdict) (o : Option Persistence) (store : StopStore)
      → IsGood again (after_recheck env again verdict o, store)
  unfolding after_recheck
  recheck-IsGood false verdict none store = λ s. absurd (cc)
  recheck-IsGood true verdict none store = λ s. absurd (cc)
  recheck-IsGood false verdict (some persisted) store = λ s. absurd (cc)
  recheck-IsGood true verdict (some persisted) store = λ s. absurd (cc)
  recheck-IsGood false verdict (some must_retry) store = tt
  recheck-IsGood true verdict (some must_retry) store = λ s. absurd (cc)
  recheck-IsGood false verdict (some (self_error fault)) store = λ s. absurd (cc)
  recheck-IsGood true verdict (some (self_error fault)) store = λ s. absurd (cc)

  unstored :
      (again : Bool) (verdict : Option ShadowVerdict) (persistence : Option Persistence)
      (store : StopStore)
      → IsGood again (answer env again not_persisted verdict persistence, store)
  unstored again verdict persistence store = λ s. absurd (cc)

  fault-IsGood :
      (basis : FaultBasis) (again : Bool) (fault : FaultCode) (snapshot : Option Snapshot)
      (store : StopStore)
      → IsGood again (on_fault env basis again fault snapshot store)
  unfolding on_fault
  fault-IsGood basis again fault none store =
      unstored again (some (fault_verdict fault (fault_intent env basis again none))) none store
  fault-IsGood basis again fault (some snapshot) store =
      let verdict = fault_verdict fault (fault_intent env basis again (some snapshot)) in
      if_holds (IsGood again) (not env.persist) _ _ (unstored again (some verdict) none store) (
        fault_write-IsGood again verdict (persist_verdict env verdict snapshot.sequence again store)
          (persist-IsWritten verdict snapshot.sequence again store))

  verdict-IsGood :
      (config : GateConfig) (again : Bool) (snapshot : Snapshot) (verdict : ShadowVerdict)
      (store : StopStore)
      → IsGood again (on_verdict env config again snapshot verdict store)
  unfolding on_verdict
  verdict-IsGood config again snapshot verdict store =
      if_holds (IsGood again) (not env.persist) _ _
        (recheck-IsGood again verdict (recheck_sequence snapshot.sequence again store) store)
        (if_holds (IsGood again) (env.late_store again persisting) _ _
          (fault-IsGood (basis_of config) again deadline_exceeded (some snapshot) store)
          (write-IsGood again verdict (persist_verdict env verdict snapshot.sequence again store)
            (persist-IsWritten verdict snapshot.sequence again store)))

  attempted-IsGood :
      (config : GateConfig) (again : Bool) (snapshot : Snapshot) (o : Outcome AttemptContext)
      (store : StopStore)
      → IsGood again (attempted env config again snapshot o store)
  attempted-IsGood config again snapshot (failed fault) store =
      fault-IsGood (basis_of config) again fault (handed_out env again snapshot) store
  attempted-IsGood config again snapshot (resolved context) store =
      verdict-IsGood config again snapshot context.verdict store

  config-IsGood :
      (config : GateConfig) (again : Bool) (p : Outcome Snapshot × StopStore)
      → IsGood again (try_config env config again p)
  unfolding try_config
  config-IsGood config again (failed fault, store) =
      fault-IsGood (basis_of config) again fault none (env.others again store)
  config-IsGood config again (resolved snapshot, store) =
      attempted-IsGood config again snapshot
        (evaluate_attempt (env.late again) (env.capture_digest again) snapshot config env.parse_date
          env.identity env.now env.stop_hook_active)
        (env.others again store)

  fault_try-IsGood :
      (basis : FaultBasis) (fault : FaultCode) (again : Bool) (p : Outcome Snapshot × StopStore)
      → IsGood again (try_fault env basis fault again p)
  unfolding try_fault
  fault_try-IsGood basis fault again (failed prepared, store) =
      fault-IsGood basis again prepared none (env.others again store)
  fault_try-IsGood basis fault again (resolved snapshot, store) =
      let after = env.others again store in
      if_holds (IsGood again) (env.late again selecting none) _ _
        (fault-IsGood basis again deadline_exceeded (some snapshot) after)
        (if_holds (IsGood again)
          (is_config_missing env fault && length snapshot.rules == 0 && not env.entry_present)
          (answer env again skipped none none, after)
          (on_fault env basis again fault (some snapshot) after) (λ s. absurd (cc))
          (fault-IsGood basis again fault (some snapshot) after))

  try-IsGood :
      (config : LoadedConfig) (again : Bool) (store : StopStore)
      → IsGood again (one_try env config again store)
  unfolding one_try
  try-IsGood (loaded config) again store =
      config-IsGood config again (prepared_snapshot env config.sha256 again store)
  try-IsGood (unavailable level fault) again store =
      fault_try-IsGood (record { default_level = level; path_rules = [] }) fault again
        (prepared_snapshot env [] again store)

  -- The answer is there and truthful.
  abbrev IsAnswered : Option Diagnostic × StopStore → Type 0
  IsAnswered (none, store) = ⊥
  IsAnswered (some diagnostic, store) = IsTruthful diagnostic store

  second-IsAnswered : (r : Try × StopStore) → IsGood true r → IsAnswered (second_try env r)
  second-IsAnswered (returned diagnostic, store) h = h
  second-IsAnswered (continued, store) h = absurd h

  first-IsAnswered : (r : Try × StopStore) → IsGood false r → IsAnswered (first_try env r)
  first-IsAnswered (returned diagnostic, store) h = h
  first-IsAnswered (continued, store) h =
      second-IsAnswered (one_try env env.config true store) (try-IsGood env.config true store)

  stop-IsAnswered : (store : StopStore) → IsAnswered (evaluate_stop env store)
  unfolding evaluate_stop
  stop-IsAnswered store =
      first-IsAnswered (one_try env env.config false store) (try-IsGood env.config false store)

  answered_some : (r : Option Diagnostic × StopStore) → IsAnswered r → is_some r.0 ≡ true
  answered_some (none, store) h = absurd h
  answered_some (some diagnostic, store) h = refl

  answered-IsTruthful :
      (r : Option Diagnostic × StopStore) (diagnostic : Diagnostic)
      → IsAnswered r
      → r.0 ≡ some diagnostic
      → IsTruthful diagnostic r.1
  answered-IsTruthful (none, store) diagnostic h e = absurd h
  answered-IsTruthful (some found, store) diagnostic h e =
      subst (λ d. IsTruthful d store) (ap (λ o. or_else o found) e) h

-- The evaluation of a Stop always returns a diagnostic, whatever the repository's calls answer and
-- whatever others write meanwhile: the second of its two tries never asks for another.
pub evaluate_stop_returns :
    (env : StopEnv) (store : StopStore) → is_some (evaluate_stop env store).0 ≡ true
evaluate_stop_returns env store =
    answered_some env (evaluate_stop env store) (stop-IsAnswered env store)

-- When a Stop's evaluation says that its verdict is persisted, that verdict is the last of the
-- stored ones, and the point it was evaluated through is the one at which the store stands.
pub evaluate_stop-IsStored :
    (env : StopEnv) (store : StopStore) (diagnostic : Diagnostic)
    → (evaluate_stop env store).0 ≡ some diagnostic
    → diagnostic.status ≡ was_persisted
    → IsStored diagnostic.verdict (evaluate_stop env store).1
evaluate_stop-IsStored env store diagnostic e =
    answered-IsTruthful env (evaluate_stop env store) diagnostic (stop-IsAnswered env store) e
