-- ===== src/Capability/Laws.antt =====
-- When a client is capable.
use cairn_memory.Base.{
  ℕ, ◌+◌, ◌≤◌, ◌≡◌, refl, ap, ◌↔◌, ◌≢◌, ◌⊎◌, inl, inr, Bool, true, false, not, ◌&&◌, ◌||◌, Option,
  none, some, List, [], ◌∷◌, arith, any, All, Memᴰ, mem-keep, Bool-cases, Option-cases, ==_refl,
  and-eq-true, subst,
}
use cairn_memory.Base.Text.{Text, text_eq, text_eq_iff}
use cairn_memory.Verdict.{
  DegradationReason, unsupported_client, missing_post_tool_use, missing_post_tool_failure,
  missing_file_changed, missing_stop, async_only_stop, blocking_unavailable, stale_heartbeat,
  missing_settings_source,
}
use cairn_memory.Capability.{
  CapabilityRow, Observations, status, Instant, after, before, future_skew_ms, max_age_ms,
  claude_code, settings_source_missing, reason_code, reason_eq, reason_priority, is_yes, is_no,
  is_text, field, age_is_current, heartbeat_is_current, current_heartbeat, row_is_supported,
  collect, reason_tests, found_reasons, order_reasons, resolve_capability_status,
}

-- A heartbeat of this moment counts: at most a minute ahead, at most half an hour old.
abbrev pub IsCurrent : ℕ → Instant → Type 0
IsCurrent now (after at) = (at ≤ now + future_skew_ms) × (now ≤ at + max_age_ms)
IsCurrent now (before at) = now + at ≤ max_age_ms

age_is_current_iff :
    (now : ℕ) (at : Instant) → (age_is_current now (some at) ≡ true) ↔ IsCurrent now at
unfolding age_is_current
age_is_current_iff now (after at) = ground arith
age_is_current_iff now (before at) = ground arith

pub is_yes_iff : (o : Option Bool) → (is_yes o ≡ true) ↔ (o ≡ some true)
is_yes_iff none = ground arith
is_yes_iff (some true) = ground arith
is_yes_iff (some false) = ground arith

is_text_iff : (o : Option Text) (t : Text) → (is_text o t ≡ true) ↔ (o ≡ some t)
is_text_iff none t = ground arith
is_text_iff (some s) t = (λ h. ap some ((text_eq_iff s t).0 h), λ e. (text_eq_iff s t).1 (cc))

module _ (parse_date : Text → Option Instant) where
  -- A heartbeat in the given session, as recorded.
  abbrev pub HasHeartbeat : CapabilityRow → Text → ℕ → Type 0
  HasHeartbeat row session now =
      (row.last_session_id ≡ some session)
      × ((t : Text) × (at : Instant) × (row.last_heartbeat_at ≡ some t)
          × (parse_date t ≡ some at)
          × IsCurrent now at)

  heartbeat_is_current_iff :
      (now : ℕ) (beat : Option Text)
      → (heartbeat_is_current parse_date now beat ≡ true) ↔ (
          (t : Text) × (at : Instant) × (beat ≡ some t)
          × (parse_date t ≡ some at)
          × IsCurrent now at)
  unfolding heartbeat_is_current
  heartbeat_is_current_iff now none = (λ h. absurd (cc), λ p. absurd (cc p.2))
  heartbeat_is_current_iff now (some t) = (
    λ h. elim (Option-cases (parse_date t)) [
      | inl e ↦ absurd (cc (rw (e, age_is_current) at h))
      | inr (at, e) ↦ (t, at, refl, e, (age_is_current_iff now at).0 (rw e at h))
    ],
    λ (s, at, same, e, c).
        let parsed : parse_date t ≡ some at = ground arith in
        rw parsed ((age_is_current_iff now at).1 c),
  )

  current_heartbeat_iff :
      (row : CapabilityRow) (session : Text) (now : ℕ) (stop : Bool)
      → (current_heartbeat parse_date (some row) session now stop ≡ true)
        ↔ ((stop ≡ true) ⊎ HasHeartbeat row session now)
  unfolding current_heartbeat field
  current_heartbeat_iff row session now true = (λ h. inl refl, λ h. refl)
  current_heartbeat_iff row session now false =
      let same = is_text_iff row.last_session_id session in
      let beat = heartbeat_is_current_iff now row.last_heartbeat_at in
      (
        λ h. inr (same.0 (ground arith), beat.0 (ground arith)),
        λ h. elim h [ inl e ↦ absurd (cc) | inr (s, b) ↦ rw (same.1 s, beat.1 b) refl ],
      )

priority_complete : (r : DegradationReason) → Memᴰ r reason_priority
priority_complete unsupported_client = Memᴰ.head refl
priority_complete stale_heartbeat = Memᴰ.tail (Memᴰ.head refl)
priority_complete missing_post_tool_use = Memᴰ.tail (Memᴰ.tail (Memᴰ.head refl))
priority_complete missing_post_tool_failure = Memᴰ.tail (Memᴰ.tail (Memᴰ.tail (Memᴰ.head refl)))
priority_complete missing_file_changed =
    Memᴰ.tail (Memᴰ.tail (Memᴰ.tail (Memᴰ.tail (Memᴰ.head refl))))
priority_complete missing_stop =
    Memᴰ.tail (Memᴰ.tail (Memᴰ.tail (Memᴰ.tail (Memᴰ.tail (Memᴰ.head refl)))))
priority_complete async_only_stop =
    Memᴰ.tail (Memᴰ.tail (Memᴰ.tail (Memᴰ.tail (Memᴰ.tail (Memᴰ.tail (Memᴰ.head refl))))))
priority_complete blocking_unavailable =
    Memᴰ.tail
      (Memᴰ.tail (Memᴰ.tail (Memᴰ.tail (Memᴰ.tail (Memᴰ.tail (Memᴰ.tail (Memᴰ.head refl)))))))
priority_complete missing_settings_source = Memᴰ.tail (
    Memᴰ.tail
      (Memᴰ.tail (Memᴰ.tail (Memᴰ.tail (Memᴰ.tail (Memᴰ.tail (Memᴰ.tail (Memᴰ.head refl))))))))

no_mem : {r : DegradationReason} (xs : List DegradationReason) → xs ≡ [] → ¬ Memᴰ r xs
no_mem [] e m = elim m [ ]
no_mem (x ∷ xs) e m = cc e

order_reasons-nil : (found : List DegradationReason) → order_reasons found ≡ [] → found ≡ []
unfolding order_reasons
order_reasons-nil [] h = refl
order_reasons-nil (r ∷ found) h = absurd (
    no_mem _ h (
      mem-keep (λ x. any (reason_eq x) (r ∷ found)) reason_priority r (priority_complete r)
        (rw (==_refl (reason_code r)) refl)))

collect_nil :
    (tests : List (Bool × DegradationReason)) → (collect tests ≡ []) ↔ All (λ t. t.0 ≡ false) tests
unfolding collect
collect_nil [] = (λ h. tt, λ h. refl)
collect_nil ((true, r) ∷ tests) = (λ h. absurd (cc), λ p. absurd (cc p.0))
collect_nil ((false, r) ∷ tests) =
    (λ h. (refl, (collect_nil tests).0 h), λ p. (collect_nil tests).1 p.1)

-- What a row has to record, structured output not included.
pub record SupportsAll (row : CapabilityRow) : Type 0 where
  pub is_claude : row.client_name ≡ claude_code
  pub post_tool_use : row.supports_post_tool_use ≡ some true
  pub post_tool_failure : row.supports_post_tool_failure ≡ some true
  pub file_changed : row.supports_file_changed ≡ some true
  pub blocking : row.supports_blocking ≡ some true
  pub probe : row.last_probe_result ≢ some settings_source_missing

not-eq-false : (b : Bool) → not b ≡ false → b ≡ true
not-eq-false b h = ground arith

found_reasons_nil :
    (row : Option CapabilityRow) (supported heartbeat stop : Bool)
    → found_reasons row supported heartbeat stop ≡ []
    → (supported ≡ true)
      × (heartbeat ≡ true)
      × (stop ≡ true)
      × (is_yes (field CapabilityRow.supports_post_tool_use row) ≡ true)
      × (is_yes (field CapabilityRow.supports_post_tool_failure row) ≡ true)
      × (is_yes (field CapabilityRow.supports_file_changed row) ≡ true)
      × (is_yes (field CapabilityRow.supports_blocking row) ≡ true)
      × (is_text (field CapabilityRow.last_probe_result row) settings_source_missing ≡ false)
unfolding found_reasons
found_reasons_nil row supported heartbeat stop h =
    let (a, (b, (c, (d, (e, (f, (g, (i, (j, _))))))))) =
      (collect_nil (reason_tests row supported heartbeat stop)).0 h in
    (
      not-eq-false _ a,
      not-eq-false _ b,
      not-eq-false _ f,
      not-eq-false _ c,
      not-eq-false _ d,
      not-eq-false _ e,
      not-eq-false _ i,
      j,
    )

is_yes-is_no : (o : Option Bool) → is_yes o ≡ true → is_no o ≡ false
is_yes-is_no o h = ground arith

capable_of_found :
    (supported : Bool) (found : List DegradationReason) (o : Observations)
    → ((status supported found o).is_degraded ≡ false) ↔ (found ≡ [])
capable_of_found supported [] o = (λ h. refl, λ h. refl)
capable_of_found supported (r ∷ found) o = ground arith

found_reasons_iff :
    (row : CapabilityRow) (supported heartbeat stop : Bool)
    → (found_reasons (some row) supported heartbeat stop ≡ []) ↔ (
        (supported ≡ true)
        × (heartbeat ≡ true)
        × (stop ≡ true)
        × (is_yes row.supports_post_tool_use ≡ true)
        × (is_yes row.supports_post_tool_failure ≡ true)
        × (is_yes row.supports_file_changed ≡ true)
        × (is_yes row.supports_blocking ≡ true)
        × (is_text row.last_probe_result settings_source_missing ≡ false))
unfolding found_reasons field collect
found_reasons_iff row supported heartbeat stop = (
  found_reasons_nil (some row) supported heartbeat stop,
  λ (a, b, c, d, e, f, g, i). rw (a, b, c, d, e, f, g, i, is_yes-is_no _ g, collect) refl,
)

order_reasons_iff : (found : List DegradationReason) → (order_reasons found ≡ []) ↔ (found ≡ [])
unfolding order_reasons
order_reasons_iff found = (order_reasons-nil found, λ e. rw e refl)

supported_iff :
    (row : CapabilityRow) (client : Text)
    → ((text_eq client claude_code && row_is_supported (some row)) ≡ true)
      ↔ ((client ≡ claude_code) × (row.client_name ≡ claude_code))
unfolding row_is_supported
supported_iff row client =
    let wanted = text_eq_iff client claude_code in
    let recorded = text_eq_iff row.client_name claude_code in
    (
      λ h. let (a, b) = and-eq-true _ _ h in (wanted.0 a, recorded.0 b),
      λ (a, b). rw (wanted.1 a, recorded.1 b) refl,
    )

stop_iff :
    (row : CapabilityRow) (stop : Bool)
    → ((stop || is_yes row.supports_stop) ≡ true)
      ↔ ((stop ≡ true) ⊎ (row.supports_stop ≡ some true))
stop_iff row true = (λ h. inl refl, λ h. refl)
stop_iff row false = (
  λ h. inr ((is_yes_iff _).0 h),
  λ h. elim h [ inl e ↦ absurd (cc) | inr e ↦ (is_yes_iff _).1 e ],
)

probe_iff :
    (o : Option Text)
    → (is_text o settings_source_missing ≡ false) ↔ (o ≢ some settings_source_missing)
probe_iff o = (
  λ h e. cc (h, (is_text_iff o settings_source_missing).1 e),
  λ n. elim (Bool-cases (is_text o settings_source_missing)) [
    | inl e ↦ absurd (n ((is_text_iff o settings_source_missing).0 e))
    | inr e ↦ e
  ],
)

row_capable_iff :
    (parse_date : Text → Option Instant) (row : CapabilityRow) (client session : Text) (now : ℕ)
    (stop : Bool)
    → ((resolve_capability_status parse_date (some row) client session now stop).is_degraded
        ≡ false)
      ↔ ((client ≡ claude_code)
          × SupportsAll row
          × ((stop ≡ true) ⊎ (row.supports_stop ≡ some true))
          × ((stop ≡ true) ⊎ HasHeartbeat parse_date row session now))
unfolding resolve_capability_status field
row_capable_iff parse_date row client session now stop =
    let supported = supported_iff row client in
    let stopped = stop_iff row stop in
    let beats = current_heartbeat_iff parse_date row session now stop in
    let probed = probe_iff row.last_probe_result in
    (
      λ h.
          let (a, b, c, d, e, f, g, i) =
            (found_reasons_iff row _ _ _).0
              ((order_reasons_iff _).0 ((capable_of_found _ _ _).0 h)) in
          (
            (supported.0 a).0,
            record {
              is_claude = (supported.0 a).1;
              post_tool_use = (is_yes_iff _).0 d;
              post_tool_failure = (is_yes_iff _).0 e;
              file_changed = (is_yes_iff _).0 f;
              blocking = (is_yes_iff _).0 g;
              probe = probed.0 i;
            },
            stopped.0 c,
            beats.0 b,
          ),
      λ (named, all, s, b). (capable_of_found _ _ _).1 (
          (order_reasons_iff _).1 (
            (found_reasons_iff row _ _ _).1 (
              supported.1 (named, all.is_claude),
              beats.1 b,
              stopped.1 s,
              (is_yes_iff _).1 all.post_tool_use,
              (is_yes_iff _).1 all.post_tool_failure,
              (is_yes_iff _).1 all.file_changed,
              (is_yes_iff _).1 all.blocking,
              probed.1 all.probe,
            ))),
    )

no_row_degraded :
    (parse_date : Text → Option Instant) (client session : Text) (now : ℕ) (stop : Bool)
    → (resolve_capability_status parse_date none client session now stop).is_degraded ≢ false
unfolding resolve_capability_status field
no_row_degraded parse_date client session now stop h =
    let (a, b, c, d, _, _, _, _) =
      found_reasons_nil none _ _ _ ((order_reasons_iff _).0 ((capable_of_found _ _ _).0 h)) in
    cc d

-- A client is not degraded exactly when it is Claude Code, there is a row of that client which
-- records support for tool use, tool failures, changed files and blocking and no probe that missed
-- the settings source, and besides either a Stop is observed now, or the row records the Stop hook
-- and a heartbeat of the session that is current. Structured output is not asked for.
pub capable_iff :
    (parse_date : Text → Option Instant) (row : Option CapabilityRow) (client session : Text)
    (now : ℕ) (stop : Bool)
    → ((resolve_capability_status parse_date row client session now stop).is_degraded ≡ false) ↔ (
        (client ≡ claude_code)
        × ((r : CapabilityRow) × (row ≡ some r)
            × SupportsAll r
            × ((stop ≡ true) ⊎ (r.supports_stop ≡ some true))
            × ((stop ≡ true) ⊎ HasHeartbeat parse_date r session now)))
capable_iff parse_date none client session now stop = (
  λ h. absurd (no_row_degraded parse_date client session now stop h),
  λ (named, (r, same, all, stopped, beat)). absurd (cc same),
)
capable_iff parse_date (some row) client session now stop =
    let known = row_capable_iff parse_date row client session now stop in
    (
      λ h. let (named, all, stopped, beat) = known.0 h in (named, (row, refl, all, stopped, beat)),
      λ (named, (r, same, all, stopped, beat)).
          let here : r ≡ row = cc in
          known.1 (
            named,
            subst SupportsAll here all,
            subst (λ x. (stop ≡ true) ⊎ (x.supports_stop ≡ some true)) here stopped,
            subst (λ x. (stop ≡ true) ⊎ HasHeartbeat parse_date x session now) here beat,
          ),
    )
