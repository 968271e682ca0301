-- ===== src/Capability.antt =====
-- src/governance/capability-status.ts: what a client's recorded capabilities allow, and since when.
-- `Date.parse` is a parameter.
pub mod Laws
use cairn_memory.Base.{
  ℕ, ◌+◌, ◌*◌, Bool, true, false, not, ◌&&◌, ◌||◌, Option, none, some, List, [], ◌∷◌, ◌++◌, leb,
  ◌==◌, if◌then◌else◌, any, keep, is_some,
}
use cairn_memory.Base.Text.{Text, text_eq, codes}
use cairn_memory.Verdict.{
  DegradationReason, unsupported_client, missing_post_tool_use, missing_post_tool_failure,
  missing_file_changed, missing_stop, async_only_stop, blocking_unavailable, stale_heartbeat,
  missing_settings_source,
}

pub data CapabilityObservation : Type 0 where
  observed unsupported not_observed available unavailable current stale : CapabilityObservation

pub record CapabilityRow : Type 0 where
  pub client_name : Text
  pub supports_post_tool_use : Option Bool
  pub supports_post_tool_failure : Option Bool
  pub supports_file_changed : Option Bool
  pub supports_structured_output : Option Bool
  pub supports_stop : Option Bool
  pub supports_blocking : Option Bool
  pub adapter_version : ℕ
  pub settings_source : Option Text
  pub last_session_id : Option Text
  pub last_heartbeat_at : Option Text
  pub last_probe_result : Option Text

pub record Observations : Type 0 where
  pub post_tool_use : CapabilityObservation
  pub post_tool_failure : CapabilityObservation
  pub file_changed : CapabilityObservation
  pub structured_output : CapabilityObservation
  pub stop : CapabilityObservation
  pub blocking : CapabilityObservation
  pub heartbeat : CapabilityObservation
  pub settings : CapabilityObservation

pub record CapabilityStatus : Type 0 where
  pub supported_client : Bool
  pub is_degraded : Bool
  pub reasons : List DegradationReason
  pub observations : Observations

-- A moment as milliseconds since the epoch, or before it.
pub data Instant : Type 0 where
  after before : ℕ → Instant

abbrev pub future_skew_ms : ℕ
future_skew_ms = 60000

abbrev pub max_age_ms : ℕ
max_age_ms = 1800000

abbrev pub claude_code : Text
claude_code = codes "claude-code"

abbrev pub settings_source_missing : Text
settings_source_missing = codes "settings-source-missing"

abbrev reason_code : DegradationReason → ℕ
reason_code unsupported_client = 0
reason_code missing_post_tool_use = 1
reason_code missing_post_tool_failure = 2
reason_code missing_file_changed = 3
reason_code missing_stop = 4
reason_code async_only_stop = 5
reason_code blocking_unavailable = 6
reason_code stale_heartbeat = 7
reason_code missing_settings_source = 8

abbrev pub reason_eq : DegradationReason → DegradationReason → Bool
reason_eq a b = reason_code a == reason_code b

abbrev pub reason_priority : List DegradationReason
reason_priority =
    unsupported_client ∷ stale_heartbeat ∷ missing_post_tool_use ∷ missing_post_tool_failure
    ∷ missing_file_changed ∷ missing_stop ∷ async_only_stop ∷ blocking_unavailable
    ∷ missing_settings_source ∷ []

-- Tests of an optional field of an optional row: `row?.field === true` and the like.
abbrev pub is_yes : Option Bool → Bool
is_yes (some true) = true
is_yes _ = false

abbrev pub is_no : Option Bool → Bool
is_no (some false) = true
is_no _ = false

abbrev pub is_text : Option Text → Text → Bool
is_text none wanted = false
is_text (some found) wanted = text_eq found wanted

-- `row?.field ?? null`.
unfoldable pub field : {A : Type 0} → (CapabilityRow → Option A) → Option CapabilityRow → Option A
field get none = none
field get (some row) = get row

unfoldable pub observation : Option Bool → CapabilityObservation
observation (some true) = observed
observation (some false) = unsupported
observation none = not_observed

unfoldable pub age_is_current : ℕ → Option Instant → Bool
age_is_current now none = false
age_is_current now (some (after at)) = leb at (now + future_skew_ms) && leb now (at + max_age_ms)
age_is_current now (some (before at)) = leb (now + at) max_age_ms

unfoldable pub heartbeat_is_current : (Text → Option Instant) → ℕ → Option Text → Bool
unfolding age_is_current
heartbeat_is_current parse_date now none = false
heartbeat_is_current parse_date now (some at) = age_is_current now (parse_date at)

unfoldable pub current_heartbeat :
    (Text → Option Instant) → Option CapabilityRow → Text → ℕ → Bool → Bool
unfolding field heartbeat_is_current
current_heartbeat parse_date row session now stop_observed =
    stop_observed
    || is_text (field CapabilityRow.last_session_id row) session
      && heartbeat_is_current parse_date now (field CapabilityRow.last_heartbeat_at row)

unfoldable pub row_is_supported : Option CapabilityRow → Bool
row_is_supported none = true
row_is_supported (some row) = text_eq row.client_name claude_code

-- A run of lines `if (test) reasons.add(reason)`.
unfoldable pub collect : List (Bool × DegradationReason) → List DegradationReason
collect [] = []
collect ((test, reason) ∷ tests) = let rest = collect tests in if test then reason ∷ rest else rest

abbrev pub reason_tests :
    Option CapabilityRow → Bool → Bool → Bool → List (Bool × DegradationReason)
reason_tests row supported heartbeat stop =
    (not supported, unsupported_client)
    ∷ (not heartbeat, stale_heartbeat)
    ∷ (not (is_yes (field CapabilityRow.supports_post_tool_use row)), missing_post_tool_use)
    ∷ (not (is_yes (field CapabilityRow.supports_post_tool_failure row)), missing_post_tool_failure)
    ∷ (not (is_yes (field CapabilityRow.supports_file_changed row)), missing_file_changed)
    ∷ (not stop, missing_stop)
    ∷ (stop && is_no (field CapabilityRow.supports_blocking row), async_only_stop)
    ∷ (not (is_yes (field CapabilityRow.supports_blocking row)), blocking_unavailable)
    ∷ (
      is_text (field CapabilityRow.last_probe_result row) settings_source_missing,
      missing_settings_source,
    )
    ∷ []

unfoldable pub found_reasons : Option CapabilityRow → Bool → Bool → Bool → List DegradationReason
found_reasons row supported heartbeat stop = collect (reason_tests row supported heartbeat stop)

unfoldable pub order_reasons : List DegradationReason → List DegradationReason
order_reasons found = keep (λ reason. any (reason_eq reason) found) reason_priority

unfoldable pub heartbeat_observation : Option CapabilityRow → Bool → CapabilityObservation
unfolding field
heartbeat_observation row heartbeat =
    if heartbeat
    then current
    else if is_some (field CapabilityRow.last_heartbeat_at row)
    then stale
    else not_observed

unfoldable pub observe : Option CapabilityRow → Bool → Bool → Observations
unfolding field observation heartbeat_observation
observe row heartbeat current_stop = record {
  post_tool_use = observation (field CapabilityRow.supports_post_tool_use row);
  post_tool_failure = observation (field CapabilityRow.supports_post_tool_failure row);
  file_changed = observation (field CapabilityRow.supports_file_changed row);
  structured_output = observation (field CapabilityRow.supports_structured_output row);
  stop = if current_stop then observed else observation (field CapabilityRow.supports_stop row);
  blocking = if is_yes (field CapabilityRow.supports_blocking row) then available else unavailable;
  heartbeat = heartbeat_observation row heartbeat;
  settings = if is_some (field CapabilityRow.settings_source row) then observed else not_observed;
}

abbrev pub status : Bool → List DegradationReason → Observations → CapabilityStatus
status supported [] observations = record {
  supported_client = supported;
  is_degraded = false;
  reasons = [];
  observations = observations;
}
status supported (reason ∷ reasons) observations = record {
  supported_client = supported;
  is_degraded = true;
  reasons = reason ∷ reasons;
  observations = observations;
}

unfoldable pub resolve_capability_status :
    (Text → Option Instant) → Option CapabilityRow → Text → Text → ℕ → Bool → CapabilityStatus
unfolding current_heartbeat row_is_supported field found_reasons order_reasons observe
resolve_capability_status parse_date row client session now current_stop =
    let supported = text_eq client claude_code && row_is_supported row in
    let heartbeat = current_heartbeat parse_date row session now current_stop in
    let stop = current_stop || is_yes (field CapabilityRow.supports_stop row) in
    status supported (order_reasons (found_reasons row supported heartbeat stop))
      (observe row heartbeat current_stop)
