-- ===== src/Mode.antt =====
-- src/governance/effective-mode.ts: the mode a Stop is governed in.
pub mod Laws
use cairn_memory.Base.{
  Bool, true, false, not, ◌&&◌, Option, List, [], ◌∷◌, ◌++◌, is_some, if◌then◌else◌,
}
use cairn_memory.Verdict.{DegradationReason, FaultCode, Intent, advise, block}
use cairn_memory.Capability.{CapabilityObservation, observed, CapabilityStatus, Observations}

pub data EffectiveMode : Type 0 where
  advisory warn : EffectiveMode

pub data EffectiveModeReason : Type 0 where
  intent_advisory config_unavailable capability_degraded : EffectiveModeReason
  structured_output_unavailable settings_source_unavailable : EffectiveModeReason
  evaluator_faulted block_clamped_to_warn stop_hook_active_non_controlling : EffectiveModeReason

pub record EffectiveModeResolution : Type 0 where
  pub intent : Intent
  pub effective_mode : EffectiveMode
  pub clamped_from_block : Bool
  pub is_degraded : Bool
  pub reasons : List EffectiveModeReason
  pub capability_reasons : List DegradationReason
  pub fault : Option FaultCode
  pub stop_hook_active : Bool

abbrev pub is_advise : Intent → Bool
is_advise advise = true
is_advise _ = false

abbrev pub is_block : Intent → Bool
is_block block = true
is_block _ = false

abbrev pub is_observed : CapabilityObservation → Bool
is_observed observed = true
is_observed _ = false

-- `if (test) reasons.push(reason)`.
unfoldable pub push_if : Bool → EffectiveModeReason → List EffectiveModeReason
push_if test reason = if test then reason ∷ [] else []

unfoldable pub warn_eligible : Intent → Bool → CapabilityStatus → Option FaultCode → Bool
warn_eligible intent config_valid capability fault =
    not (is_advise intent)
    && config_valid
    && not capability.is_degraded
    && not (is_some fault)
    && is_observed capability.observations.structured_output
    && is_observed capability.observations.settings

unfoldable pub mode_reasons :
    Intent → Bool → CapabilityStatus → Option FaultCode → Bool → Bool → List EffectiveModeReason
unfolding push_if
mode_reasons intent config_valid capability fault stop_hook_active eligible =
    push_if (is_advise intent) intent_advisory
    ++ push_if (not config_valid) config_unavailable
    ++ push_if capability.is_degraded capability_degraded
    ++ push_if (not (is_observed capability.observations.structured_output))
        structured_output_unavailable
    ++ push_if (not (is_observed capability.observations.settings)) settings_source_unavailable
    ++ push_if (is_some fault) evaluator_faulted
    ++ push_if (eligible && is_block intent) block_clamped_to_warn
    ++ push_if (eligible && stop_hook_active) stop_hook_active_non_controlling

unfoldable pub resolve_effective_mode :
    Intent → Bool → CapabilityStatus → Option FaultCode → Bool → EffectiveModeResolution
unfolding warn_eligible mode_reasons
resolve_effective_mode intent config_valid capability fault stop_hook_active =
    let eligible = warn_eligible intent config_valid capability fault in
    record {
      intent = intent;
      effective_mode = if eligible then warn else advisory;
      clamped_from_block = eligible && is_block intent;
      is_degraded = not eligible && not (is_advise intent);
      reasons = mode_reasons intent config_valid capability fault stop_hook_active eligible;
      capability_reasons = capability.reasons;
      fault = fault;
      stop_hook_active = stop_hook_active;
    }
