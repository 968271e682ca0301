-- ===== src/Shadow/Stop.antt =====
-- `evaluateShadowStop` of src/governance/shadow-evaluator.ts, with the preparation of its snapshot
-- and the persisting of its verdict in shadow-evaluator-runtime.ts and shadow-verdict-store.ts.
-- A try is the first or the second one; the flag `again` marks the second. What other connections
-- write between a try's snapshot and its last transaction is a function of the tables.
pub mod Laws
use cairn_memory.Base.{
  ℕ, Bool, true, false, not, ◌&&◌, ◌||◌, Option, none, some, List, [], ◌∷◌, ◌++◌, ◌==◌,
  if◌then◌else◌, any, length, is_some,
}
use cairn_memory.Base.Text.{Text}
use cairn_memory.Capability.{Instant}
use cairn_memory.Evidence.{WorktreeDigest, PathRule}
use cairn_memory.Evidence.Selection.{Selection}
use cairn_memory.Verdict.{
  FaultCode, config_missing, deadline_exceeded, rule_malformed, concurrent_mutation,
  audit_write_failed, Intent, advise,
}
use cairn_memory.Shadow.{
  Stage, selecting, Sequence, ShadowRule, Snapshot, GateConfig, Outcome, failed, resolved,
  select_shadow_requirements, resolve_shadow_intent,
}
use cairn_memory.Shadow.Attempt.{
  ShadowVerdict, AttemptContext, Identity, evaluate_attempt, fault_verdict,
}

pub data StoreStage : Type 0 where
  reading_snapshot ensuring_watermarks refreshing_snapshot persisting : StoreStage

pub record VerdictRow : Type 0 where
  pub verdict : ShadowVerdict
  pub evaluated_through : Sequence
  pub retried : Bool

-- The project's sequence and the verdicts of the audit table.
pub record StopStore : Type 0 where
  pub sequence : Sequence
  pub verdicts : List VerdictRow

-- The loader may fault after it has read a configuration; the level is that one's, or `advise`.
pub data LoadedConfig : Type 0 where
  loaded : GateConfig → LoadedConfig
  unavailable : (level : Intent) → FaultCode → LoadedConfig

-- What the intent of a fault is resolved from.
pub record FaultBasis : Type 0 where
  pub default_level : Intent
  pub path_rules : List PathRule

abbrev pub basis_of : GateConfig → FaultBasis
basis_of config = record { default_level = config.default_level; path_rules = config.path_rules }

-- The results of the repository's calls, and what a call of the evaluation is given.
pub record StopEnv : Type 0 where
  pub late : Bool → Stage → Option Text → Bool
  pub late_store : Bool → StoreStage → Bool
  pub capture_digest : Bool → List Text → WorktreeDigest
  pub read_snapshot : Text → StopStore → Outcome Snapshot
  pub ensure_watermarks : List ShadowRule → StopStore → Outcome (Bool × StopStore)
  pub others : Bool → StopStore → StopStore
  pub payload_fault : ShadowVerdict → Option FaultCode
  pub insert_fails : Bool → Bool
  pub parse_date : Text → Option Instant
  pub identity : Identity
  pub now : ℕ
  pub stop_hook_active : Bool
  pub entry_present : Bool
  pub persist : Bool
  pub config : LoadedConfig

pub data Persistence : Type 0 where
  persisted must_retry : Persistence
  self_error : FaultCode → Persistence

pub data StopStatus : Type 0 where
  skipped was_persisted not_persisted : StopStatus

pub record Diagnostic : Type 0 where
  pub status : StopStatus
  pub verdict : Option ShadowVerdict
  pub persistence : Option Persistence
  pub retried : Bool

-- A round of the loop returns, or continues.
pub data Try : Type 0 where
  returned : Diagnostic → Try
  continued : Try

abbrev pub same_sequence : Sequence → Sequence → Bool
same_sequence a b = a.event_seq == b.event_seq && a.mutation_seq == b.mutation_seq

abbrev pub moved : Bool → Persistence
moved true = self_error concurrent_mutation
moved false = must_retry

unfoldable pub recheck_sequence : Sequence → Bool → StopStore → Option Persistence
recheck_sequence expected again store =
    if same_sequence store.sequence expected then none else some (moved again)

unfoldable pub write_verdict :
    Bool → Option FaultCode → ShadowVerdict → Sequence → Bool → StopStore → Persistence × StopStore
write_verdict fails (some fault) verdict evaluated again store = (self_error fault, store)
write_verdict fails none verdict evaluated again store =
    if not (same_sequence store.sequence evaluated)
    then (moved again, store)
    else if fails
    then (self_error audit_write_failed, store)
    else (
      persisted,
      record store {
        verdicts =
            store.verdicts
            ++ record { verdict = verdict; evaluated_through = evaluated; retried = again } ∷ [];
      },
    )

module _ (env : StopEnv) where
  unfoldable pub persist_verdict :
      ShadowVerdict → Sequence → Bool → StopStore → Persistence × StopStore
  unfolding write_verdict
  persist_verdict verdict evaluated again store =
      write_verdict (env.insert_fails again) (env.payload_fault verdict) verdict evaluated again
        store

  abbrev pub lacks_watermark : ShadowRule → Bool
  lacks_watermark rule = not (is_some rule.watermark)

  abbrev checked_snapshot : Outcome Snapshot → Outcome Snapshot
  checked_snapshot (failed fault) = failed fault
  checked_snapshot (resolved snapshot) =
      if any lacks_watermark snapshot.rules then failed rule_malformed else resolved snapshot

  abbrev refreshed :
      Text → Bool → Snapshot → StopStore → Outcome (Bool × StopStore) → Outcome Snapshot × StopStore
  refreshed sha again snapshot store (failed fault) = (failed fault, store)
  refreshed sha again snapshot store (resolved (false, after)) =
      (checked_snapshot (resolved snapshot), after)
  refreshed sha again snapshot store (resolved (true, after)) =
      if env.late_store again refreshing_snapshot
      then (failed deadline_exceeded, after)
      else (checked_snapshot (env.read_snapshot sha after), after)

  abbrev ensured : Text → Bool → StopStore → Outcome Snapshot → Outcome Snapshot × StopStore
  ensured sha again store (failed fault) = (failed fault, store)
  ensured sha again store (resolved snapshot) =
      if not (any lacks_watermark snapshot.rules)
      then (resolved snapshot, store)
      else if env.late_store again ensuring_watermarks
      then (failed deadline_exceeded, store)
      else refreshed sha again snapshot store (env.ensure_watermarks snapshot.rules store)

  unfoldable pub prepared_snapshot : Text → Bool → StopStore → Outcome Snapshot × StopStore
  prepared_snapshot sha again store =
      if env.late_store again reading_snapshot
      then (failed deadline_exceeded, store)
      else ensured sha again store (env.read_snapshot sha store)

  -- The intent of a fault: the snapshot's only once its selection is there.
  unfoldable pub fault_intent : FaultBasis → Bool → Option Snapshot → Intent
  fault_intent basis again none = basis.default_level
  fault_intent basis again (some snapshot) =
      if env.late again selecting none
      then basis.default_level
      else resolve_shadow_intent snapshot
          (select_shadow_requirements snapshot basis.path_rules).applicable_rules
          basis.default_level

  abbrev pub status_of : Persistence → StopStatus
  status_of persisted = was_persisted
  status_of _ = not_persisted

  abbrev pub answer : Bool → StopStatus → Option ShadowVerdict → Option Persistence → Try
  answer again status verdict persistence =
      returned
        (record { status = status; verdict = verdict; persistence = persistence; retried = again })

  -- The end of `catch`: `persistFault` where there is a snapshot.
  unfoldable pub after_fault_write :
      Bool → ShadowVerdict → Persistence × StopStore → Try × StopStore
  after_fault_write false verdict (must_retry, store) = (continued, store)
  after_fault_write again verdict (persistence, store) =
      (answer again (status_of persistence) (some verdict) (some persistence), store)

  unfoldable pub on_fault :
      FaultBasis → Bool → FaultCode → Option Snapshot → StopStore → Try × StopStore
  unfolding fault_intent after_fault_write persist_verdict
  on_fault basis again fault none store = (
    answer again not_persisted (some (fault_verdict fault (fault_intent basis again none))) none,
    store,
  )
  on_fault basis again fault (some snapshot) store =
      let verdict = fault_verdict fault (fault_intent basis again (some snapshot)) in
      if not env.persist
      then (answer again not_persisted (some verdict) none, store)
      else after_fault_write again verdict (persist_verdict verdict snapshot.sequence again store)

  -- What follows an attempt that gave a verdict, when it is not to be persisted and when it is.
  unfoldable pub after_recheck : Bool → ShadowVerdict → Option Persistence → Try
  after_recheck false verdict (some must_retry) = continued
  after_recheck again verdict (some (self_error fault)) =
      answer again not_persisted (some (fault_verdict fault verdict.intent)) none
  after_recheck again verdict _ = answer again not_persisted (some verdict) none

  unfoldable pub after_write : Bool → ShadowVerdict → Persistence × StopStore → Try × StopStore
  after_write false verdict (must_retry, store) = (continued, store)
  after_write again verdict (self_error fault, store) = (
    answer again not_persisted (some (fault_verdict fault verdict.intent))
        (some (self_error fault)),
    store,
  )
  after_write again verdict (persistence, store) =
      (answer again was_persisted (some verdict) (some persistence), store)

  unfoldable pub on_verdict :
      GateConfig → Bool → Snapshot → ShadowVerdict → StopStore → Try × StopStore
  unfolding after_recheck after_write persist_verdict recheck_sequence on_fault
  on_verdict config again snapshot verdict store =
      if not env.persist
      then (after_recheck again verdict (recheck_sequence snapshot.sequence again store), store)
      else if env.late_store again persisting
      then on_fault (basis_of config) again deadline_exceeded (some snapshot) store
      else after_write again verdict (persist_verdict verdict snapshot.sequence again store)

  -- What `onContext` has handed out when an attempt ends in a fault: nothing, if the time was over
  -- before the selection.
  abbrev pub handed_out : Bool → Snapshot → Option Snapshot
  handed_out again snapshot = if env.late again selecting none then none else some snapshot

  abbrev pub attempted :
      GateConfig → Bool → Snapshot → Outcome AttemptContext → StopStore → Try × StopStore
  attempted config again snapshot (failed fault) store =
      on_fault (basis_of config) again fault (handed_out again snapshot) store
  attempted config again snapshot (resolved context) store =
      on_verdict config again snapshot context.verdict store

  unfoldable pub try_config : GateConfig → Bool → Outcome Snapshot × StopStore → Try × StopStore
  unfolding on_fault on_verdict
  try_config config again (failed fault, store) =
      on_fault (basis_of config) again fault none (env.others again store)
  try_config config again (resolved snapshot, store) =
      attempted config again snapshot
        (evaluate_attempt (env.late again) (env.capture_digest again) snapshot config env.parse_date
          env.identity env.now env.stop_hook_active)
        (env.others again store)

  abbrev pub is_config_missing : FaultCode → Bool
  is_config_missing config_missing = true
  is_config_missing _ = false

  -- A try after the loader's fault: skipped where no entry is there and no rule needs one. The
  -- requirements are selected without path rules.
  unfoldable pub try_fault :
      FaultBasis → FaultCode → Bool → Outcome Snapshot × StopStore → Try × StopStore
  unfolding on_fault
  try_fault basis fault again (failed prepared, store) =
      on_fault basis again prepared none (env.others again store)
  try_fault basis fault again (resolved snapshot, store) =
      if env.late again selecting none
      then on_fault basis again deadline_exceeded (some snapshot) (env.others again store)
      else if is_config_missing fault && length snapshot.rules == 0 && not env.entry_present
      then (answer again skipped none none, env.others again store)
      else on_fault basis again fault (some snapshot) (env.others again store)

  unfoldable pub one_try : LoadedConfig → Bool → StopStore → Try × StopStore
  unfolding try_config try_fault prepared_snapshot
  one_try (loaded config) again store =
      try_config config again (prepared_snapshot config.sha256 again store)
  one_try (unavailable level fault) again store =
      try_fault (record { default_level = level; path_rules = [] }) fault again
        (prepared_snapshot [] again store)

  abbrev pub second_try : Try × StopStore → Option Diagnostic × StopStore
  second_try (returned diagnostic, store) = (some diagnostic, store)
  second_try (continued, store) = (none, store)

  abbrev pub first_try : Try × StopStore → Option Diagnostic × StopStore
  first_try (returned diagnostic, store) = (some diagnostic, store)
  first_try (continued, store) = second_try (one_try env.config true store)

  -- `none` is the error of a loop that ends without a return.
  unfoldable pub evaluate_stop : StopStore → Option Diagnostic × StopStore
  unfolding one_try
  evaluate_stop store = first_try (one_try env.config false store)
