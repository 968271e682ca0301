-- ===== src/Mode/Laws.antt =====
-- The outputs of the mode's resolution, for any capability status.
use cairn_memory.Base.{
  ◌≡◌, refl, ◌↔◌, ◌≢◌, inl, inr, Bool, true, false, Option, none, arith, Bool-cases,
}
use cairn_memory.Verdict.{Intent, advise, block, FaultCode}
use cairn_memory.Capability.{CapabilityStatus, CapabilityObservation, observed}
use cairn_memory.Mode.{
  warn, is_advise, is_block, is_observed, warn_eligible, resolve_effective_mode,
}

-- What a warning needs.
pub record MayWarn (intent : Intent) (config_valid : Bool) (capability : CapabilityStatus)
    (fault : Option FaultCode) : Type 0 where
  pub asked : intent ≢ advise
  pub valid : config_valid ≡ true
  pub capable : capability.is_degraded ≡ false
  pub no_fault : fault ≡ none
  pub structured : capability.observations.structured_output ≡ observed
  pub settings : capability.observations.settings ≡ observed

is_observed_iff : (o : CapabilityObservation) → (is_observed o ≡ true) ↔ (o ≡ observed)
is_observed_iff o = ground arith

is_advise_iff : (i : Intent) → (is_advise i ≡ false) ↔ (i ≢ advise)
is_advise_iff advise = (λ h. absurd (cc), λ n. absurd (n refl))
is_advise_iff Intent.warn = (λ h e. cc e, λ n. refl)
is_advise_iff block = (λ h e. cc e, λ n. refl)

warn_eligible_iff :
    (intent : Intent) (config_valid : Bool) (capability : CapabilityStatus)
    (fault : Option FaultCode)
    → (warn_eligible intent config_valid capability fault ≡ true)
      ↔ MayWarn intent config_valid capability fault
unfolding warn_eligible
warn_eligible_iff intent config_valid capability fault =
    let structured = is_observed_iff capability.observations.structured_output in
    let settings = is_observed_iff capability.observations.settings in
    let asked = is_advise_iff intent in
    (
      λ h. record {
        asked = asked.0 (ground arith);
        valid = ground arith;
        capable = ground arith;
        no_fault = ground arith;
        structured = structured.0 (ground arith);
        settings = settings.0 (ground arith);
      },
      λ p.
          rw
            (
              asked.1 p.asked,
              p.valid,
              p.capable,
              p.no_fault,
              structured.1 p.structured,
              settings.1 p.settings,
            )
            refl,
    )

is_block_iff : (i : Intent) → (is_block i ≡ true) ↔ (i ≡ block)
is_block_iff i = ground arith

-- The mode is `warn` exactly when a warning may be given; the resolution is clamped exactly when
-- it warns for an intent to block, and degraded exactly when it does not warn though more than
-- advice was asked for.
pub effective_mode_lem :
    (intent : Intent) (config_valid : Bool) (capability : CapabilityStatus)
    (fault : Option FaultCode) (stop_hook_active : Bool)
    → let r = resolve_effective_mode intent config_valid capability fault stop_hook_active in
      let may = MayWarn intent config_valid capability fault in
      ((r.effective_mode ≡ warn) ↔ may)
      × ((r.clamped_from_block ≡ true) ↔ (may × (intent ≡ block)))
      × ((r.is_degraded ≡ true) ↔ (¬ may × (intent ≢ advise)))
unfolding resolve_effective_mode
effective_mode_lem intent config_valid capability fault stop_hook_active =
    let eligible = warn_eligible_iff intent config_valid capability fault in
    elim (Bool-cases (warn_eligible intent config_valid capability fault)) [
      | inl e ↦ (
        (λ h. eligible.0 e, λ p. rw e refl),
        (
          λ h. (eligible.0 e, (is_block_iff intent).0 (rw e at h)),
          λ (p, b). rw (e, (is_block_iff intent).1 b) refl,
        ),
        (λ h. absurd (cc (rw e at h)), λ (n, a). absurd (n (eligible.0 e))),
      )
      | inr e ↦ (
        (λ h. absurd (cc (rw e at h)), λ p. absurd (cc (e, eligible.1 p))),
        (λ h. absurd (cc (rw e at h)), λ (p, b). absurd (cc (e, eligible.1 p))),
        (
          λ h. (λ p. cc (e, eligible.1 p), (is_advise_iff intent).0 (ground (arith, rw e at h))),
          λ (n, a). rw (e, (is_advise_iff intent).1 a) refl,
        ),
      )
    ]
