-- ===== src/Shadow/Stop/Laws/Once.antt =====
-- How many verdicts a Stop's evaluation stores, over both of its tries.
use cairn_memory.Base.{
  ◌≡◌, refl, ap, subst, Bool, true, false, not, ◌&&◌, Option, none, some, List, [], ◌==◌, if_holds,
  length, any, or_else,
}
use cairn_memory.Base.Text.{Text}
use cairn_memory.Verdict.{FaultCode, deadline_exceeded}
use cairn_memory.Shadow.{selecting, ShadowRule, Snapshot, GateConfig, Outcome, failed, resolved}
use cairn_memory.Shadow.Attempt.{evaluate_attempt}
use cairn_memory.Shadow.Stop.{
  StopStore, StopEnv, VerdictRow, LoadedConfig, loaded, unavailable, FaultBasis, basis_of,
  Diagnostic, Try, returned, continued, on_fault, try_config, try_fault, one_try, second_try,
  first_try, evaluate_stop, prepared_snapshot, ensured, refreshed, lacks_watermark,
  reading_snapshot, ensuring_watermarks, refreshing_snapshot, skipped, is_config_missing, answer,
}
use cairn_memory.Shadow.Stop.Laws.Writes.{Adds, IsOnce, fault-IsOnce, attempted-IsOnce}

-- The setting of watermarks leaves the verdicts as they are.
abbrev pub KeepsVerdicts : Outcome (Bool × StopStore) → StopStore → Type 0
KeepsVerdicts (failed fault) store = Unit
KeepsVerdicts (resolved (changed, after)) store = after.verdicts ≡ store.verdicts

module _ (env : StopEnv) where
  module _
      (others_keep : (again : Bool) (s : StopStore) → (env.others again s).verdicts ≡ s.verdicts)
      (watermarks_keep : (rules : List ShadowRule) (s : StopStore)
        → KeepsVerdicts (env.ensure_watermarks rules s) s) where
    config-IsOnce :
        (config : GateConfig) (again : Bool) (p : Outcome Snapshot × StopStore)
        → IsOnce p.1.verdicts (try_config env config again p)
    unfolding try_config
    config-IsOnce config again (failed fault, store) =
        subst (λ v. IsOnce v (try_config env config again (failed fault, store)))
          (others_keep again store)
          (fault-IsOnce env (basis_of config) again fault none (env.others again store))
    config-IsOnce config again (resolved snapshot, store) =
        subst (λ v. IsOnce v (try_config env config again (resolved snapshot, store)))
          (others_keep again store)
          (attempted-IsOnce env config again snapshot
            (evaluate_attempt (env.late again) (env.capture_digest again) snapshot config
              env.parse_date env.identity env.now env.stop_hook_active)
            (env.others again store))

    fault_try-IsOnce :
        (basis : FaultBasis) (fault : FaultCode) (again : Bool) (p : Outcome Snapshot × StopStore)
        → IsOnce p.1.verdicts (try_fault env basis fault again p)
    unfolding try_fault
    fault_try-IsOnce basis fault again (failed prepared, store) =
        subst (λ v. IsOnce v (try_fault env basis fault again (failed prepared, store)))
          (others_keep again store)
          (fault-IsOnce env basis again prepared none (env.others again store))
    fault_try-IsOnce basis fault again (resolved snapshot, store) =
        let after = env.others again store in
        subst (λ v. IsOnce v (try_fault env basis fault again (resolved snapshot, store)))
          (others_keep again store)
          (if_holds (IsOnce after.verdicts) (env.late again selecting none) _ _
            (fault-IsOnce env basis again deadline_exceeded (some snapshot) after)
            (if_holds (IsOnce after.verdicts)
              (is_config_missing env fault && length snapshot.rules == 0 && not env.entry_present)
              (answer env again skipped none none, after)
              (on_fault env basis again fault (some snapshot) after) refl
              (fault-IsOnce env basis again fault (some snapshot) after)))

    refreshed-verdicts :
        (sha : Text) (again : Bool) (snapshot : Snapshot) (store : StopStore)
        (o : Outcome (Bool × StopStore))
        → KeepsVerdicts o store
        → (refreshed env sha again snapshot store o).1.verdicts ≡ store.verdicts
    refreshed-verdicts sha again snapshot store (failed fault) h = refl
    refreshed-verdicts sha again snapshot store (resolved (false, after)) h = h
    refreshed-verdicts sha again snapshot store (resolved (true, after)) h =
        if_holds (λ (p : Outcome Snapshot × StopStore). p.1.verdicts ≡ store.verdicts)
          (env.late_store again refreshing_snapshot) _ _ h h

    ensured-verdicts :
        (sha : Text) (again : Bool) (store : StopStore) (o : Outcome Snapshot)
        → (ensured env sha again store o).1.verdicts ≡ store.verdicts
    ensured-verdicts sha again store (failed fault) = refl
    ensured-verdicts sha again store (resolved snapshot) =
        if_holds (λ (p : Outcome Snapshot × StopStore). p.1.verdicts ≡ store.verdicts)
          (not (any (lacks_watermark env) snapshot.rules)) _ _ refl
          (if_holds (λ (p : Outcome Snapshot × StopStore). p.1.verdicts ≡ store.verdicts)
            (env.late_store again ensuring_watermarks) _ _ refl
            (refreshed-verdicts sha again snapshot store
              (env.ensure_watermarks snapshot.rules store) (watermarks_keep snapshot.rules store)))

    prepared-verdicts :
        (sha : Text) (again : Bool) (store : StopStore)
        → (prepared_snapshot env sha again store).1.verdicts ≡ store.verdicts
    unfolding prepared_snapshot
    prepared-verdicts sha again store =
        if_holds (λ (p : Outcome Snapshot × StopStore). p.1.verdicts ≡ store.verdicts)
          (env.late_store again reading_snapshot) _ _ refl
          (ensured-verdicts sha again store (env.read_snapshot sha store))

    try-IsOnce :
        (config : LoadedConfig) (again : Bool) (store : StopStore)
        → IsOnce store.verdicts (one_try env config again store)
    unfolding one_try
    try-IsOnce (loaded config) again store =
        subst (λ v. IsOnce v (one_try env (loaded config) again store))
          (prepared-verdicts config.sha256 again store)
          (config-IsOnce config again (prepared_snapshot env config.sha256 again store))
    try-IsOnce (unavailable level fault) again store =
        subst (λ v. IsOnce v (one_try env (unavailable level fault) again store))
          (prepared-verdicts [] again store)
          (fault_try-IsOnce (record { default_level = level; path_rules = [] }) fault again
            (prepared_snapshot env [] again store))

    abbrev Answered : List VerdictRow → Option Diagnostic × StopStore → Type 0
    Answered before (none, store) = store.verdicts ≡ before
    Answered before (some diagnostic, store) = Adds diagnostic.status before store.verdicts

    second-Answered :
        (before : List VerdictRow) (r : Try × StopStore)
        → IsOnce before r
        → Answered before (second_try env r)
    second-Answered before (returned diagnostic, store) h = h
    second-Answered before (continued, store) h = h

    first-Answered :
        (before : List VerdictRow) (r : Try × StopStore)
        → IsOnce before r
        → Answered before (first_try env r)
    first-Answered before (returned diagnostic, store) h = h
    first-Answered before (continued, store) h =
        subst (λ v. Answered v (first_try env (continued, store))) h
          (second-Answered store.verdicts (one_try env env.config true store)
            (try-IsOnce env.config true store))

    stop-Answered : (store : StopStore) → Answered store.verdicts (evaluate_stop env store)
    unfolding evaluate_stop
    stop-Answered store =
        first-Answered store.verdicts (one_try env env.config false store)
          (try-IsOnce env.config false store)

    stop-Adds :
        (before : List VerdictRow) (r : Option Diagnostic × StopStore) (diagnostic : Diagnostic)
        → Answered before r
        → r.0 ≡ some diagnostic
        → Adds diagnostic.status before r.1.verdicts
    stop-Adds before (none, store) diagnostic h e = absurd (cc)
    stop-Adds before (some found, store) diagnostic h e =
        subst (λ (d : Diagnostic). Adds d.status before store.verdicts)
          (ap (λ o. or_else o found) e) h

-- Where the setting of watermarks and other connections leave the verdicts as they are, a Stop's
-- evaluation adds one verdict to the table when it says that it is persisted, and otherwise none,
-- over both of its tries.
pub evaluate_stop-Adds :
    (env : StopEnv) (store : StopStore) (diagnostic : Diagnostic)
    → ((again : Bool) (s : StopStore) → (env.others again s).verdicts ≡ s.verdicts)
    → ((rules : List ShadowRule) (s : StopStore) → KeepsVerdicts (env.ensure_watermarks rules s) s)
    → (evaluate_stop env store).0 ≡ some diagnostic
    → Adds diagnostic.status store.verdicts (evaluate_stop env store).1.verdicts
evaluate_stop-Adds env store diagnostic others_keep watermarks_keep e =
    stop-Adds env others_keep watermarks_keep store.verdicts (evaluate_stop env store) diagnostic
      (stop-Answered env others_keep watermarks_keep store) e
