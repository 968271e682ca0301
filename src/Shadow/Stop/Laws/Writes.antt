-- ===== src/Shadow/Stop/Laws/Writes.antt =====
-- What a round of a Stop's evaluation stores, from the write of its verdict up.
use cairn_memory.Base.{
  ◌≡◌, refl, Bool, true, false, not, Option, none, some, List, [], ◌∷◌, ◌++◌, if_holds,
}
use cairn_memory.Verdict.{FaultCode, deadline_exceeded, audit_write_failed}
use cairn_memory.Shadow.{Sequence, Snapshot, GateConfig, Outcome, failed, resolved}
use cairn_memory.Shadow.Attempt.{ShadowVerdict, AttemptContext, fault_verdict}
use cairn_memory.Shadow.Stop.{
  StopStore, StopEnv, VerdictRow, FaultBasis, basis_of, Persistence, persisted, must_retry,
  self_error, StopStatus, Try, returned, continued, same_sequence, moved, recheck_sequence,
  write_verdict, persist_verdict, fault_intent, after_fault_write, on_fault, after_recheck,
  after_write, on_verdict, attempted, handed_out, persisting, was_persisted, not_persisted, skipped,
  answer,
}

-- One verdict more where the status is `persisted`, and otherwise the same ones.
abbrev pub Adds : StopStatus → List VerdictRow → List VerdictRow → Type 0
Adds was_persisted before after = (row : VerdictRow) × (after ≡ before ++ row ∷ [])
Adds skipped before after = after ≡ before
Adds not_persisted before after = after ≡ before

-- A try that does not return has stored nothing.
abbrev pub IsOnce : List VerdictRow → Try × StopStore → Type 0
IsOnce before (returned diagnostic, store) = Adds diagnostic.status before store.verdicts
IsOnce before (continued, store) = store.verdicts ≡ before

-- The second try is never asked for another.
abbrev IsWrite : Bool → List VerdictRow → Persistence × StopStore → Type 0
IsWrite again before (persisted, store) = (row : VerdictRow) × (store.verdicts ≡ before ++ row ∷ [])
IsWrite false before (must_retry, store) = store.verdicts ≡ before
IsWrite true before (must_retry, store) = ⊥
IsWrite again before (self_error fault, store) = store.verdicts ≡ before

moved-IsWrite :
    (again : Bool) (store : StopStore) → IsWrite again store.verdicts (moved again, store)
moved-IsWrite true store = refl
moved-IsWrite false store = refl

write_verdict-IsWrite :
    (fails : Bool) (fault : Option FaultCode) (verdict : ShadowVerdict) (evaluated : Sequence)
    (again : Bool) (store : StopStore)
    → IsWrite again store.verdicts (write_verdict fails fault verdict evaluated again store)
unfolding write_verdict
write_verdict-IsWrite fails (some fault) verdict evaluated again store = refl
write_verdict-IsWrite fails none verdict evaluated again store =
    let row : VerdictRow = record {
      verdict = verdict;
      evaluated_through = evaluated;
      retried = again;
    } in
    if_holds (IsWrite again store.verdicts) (not (same_sequence store.sequence evaluated)) _ _
      (moved-IsWrite again store)
      (if_holds (IsWrite again store.verdicts) fails (self_error audit_write_failed, store) _ refl
        (row, refl))

module _ (env : StopEnv) where
  persist-IsWrite :
      (verdict : ShadowVerdict) (evaluated : Sequence) (again : Bool) (store : StopStore)
      → IsWrite again store.verdicts (persist_verdict env verdict evaluated again store)
  unfolding persist_verdict
  persist-IsWrite verdict evaluated again store =
      write_verdict-IsWrite (env.insert_fails again) (env.payload_fault verdict) verdict evaluated
        again store

  fault_write-IsOnce :
      (again : Bool) (verdict : ShadowVerdict) (before : List VerdictRow)
      (r : Persistence × StopStore)
      → IsWrite again before r
      → IsOnce before (after_fault_write env again verdict r)
  unfolding after_fault_write
  fault_write-IsOnce false verdict before (persisted, store) h = h
  fault_write-IsOnce true verdict before (persisted, store) h = h
  fault_write-IsOnce false verdict before (must_retry, store) h = h
  fault_write-IsOnce true verdict before (must_retry, store) h = absurd h
  fault_write-IsOnce false verdict before (self_error fault, store) h = h
  fault_write-IsOnce true verdict before (self_error fault, store) h = h

  write-IsOnce :
      (again : Bool) (verdict : ShadowVerdict) (before : List VerdictRow)
      (r : Persistence × StopStore)
      → IsWrite again before r
      → IsOnce before (after_write env again verdict r)
  unfolding after_write
  write-IsOnce false verdict before (persisted, store) h = h
  write-IsOnce true verdict before (persisted, store) h = h
  write-IsOnce false verdict before (must_retry, store) h = h
  write-IsOnce true verdict before (must_retry, store) h = absurd h
  write-IsOnce false verdict before (self_error fault, store) h = h
  write-IsOnce true verdict before (self_error fault, store) h = h

  recheck-IsOnce :
      (again : Bool) (verdict : ShadowVerdict) (o : Option Persistence) (store : StopStore)
      → IsOnce store.verdicts (after_recheck env again verdict o, store)
  unfolding after_recheck
  recheck-IsOnce false verdict none store = refl
  recheck-IsOnce true verdict none store = refl
  recheck-IsOnce false verdict (some persisted) store = refl
  recheck-IsOnce true verdict (some persisted) store = refl
  recheck-IsOnce false verdict (some must_retry) store = refl
  recheck-IsOnce true verdict (some must_retry) store = refl
  recheck-IsOnce false verdict (some (self_error fault)) store = refl
  recheck-IsOnce true verdict (some (self_error fault)) store = refl

  pub fault-IsOnce :
      (basis : FaultBasis) (again : Bool) (fault : FaultCode) (snapshot : Option Snapshot)
      (store : StopStore)
      → IsOnce store.verdicts (on_fault env basis again fault snapshot store)
  unfolding on_fault
  fault-IsOnce basis again fault none store = refl
  fault-IsOnce basis again fault (some snapshot) store =
      let verdict = fault_verdict fault (fault_intent env basis again (some snapshot)) in
      if_holds (IsOnce store.verdicts) (not env.persist)
        (answer env again not_persisted (some verdict) none, store) _ refl
        (fault_write-IsOnce again verdict store.verdicts
          (persist_verdict env verdict snapshot.sequence again store)
          (persist-IsWrite verdict snapshot.sequence again store))

  verdict-IsOnce :
      (config : GateConfig) (again : Bool) (snapshot : Snapshot) (verdict : ShadowVerdict)
      (store : StopStore)
      → IsOnce store.verdicts (on_verdict env config again snapshot verdict store)
  unfolding on_verdict
  verdict-IsOnce config again snapshot verdict store =
      if_holds (IsOnce store.verdicts) (not env.persist) _ _
        (recheck-IsOnce again verdict (recheck_sequence snapshot.sequence again store) store)
        (if_holds (IsOnce store.verdicts) (env.late_store again persisting) _ _
          (fault-IsOnce (basis_of config) again deadline_exceeded (some snapshot) store)
          (write-IsOnce again verdict store.verdicts
            (persist_verdict env verdict snapshot.sequence again store)
            (persist-IsWrite verdict snapshot.sequence again store)))

  pub attempted-IsOnce :
      (config : GateConfig) (again : Bool) (snapshot : Snapshot) (o : Outcome AttemptContext)
      (store : StopStore)
      → IsOnce store.verdicts (attempted env config again snapshot o store)
  attempted-IsOnce config again snapshot (failed fault) store =
      fault-IsOnce (basis_of config) again fault (handed_out env again snapshot) store
  attempted-IsOnce config again snapshot (resolved context) store =
      verdict-IsOnce config again snapshot context.verdict store
