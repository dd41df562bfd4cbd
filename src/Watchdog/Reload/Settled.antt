-- ===== src/Watchdog/Reload/Settled.antt =====
-- What `keepalive` of .patroni/patroni/watchdog/base.py leaves of a change of the configuration.
use otus_hightload.Prelude.Int.{eq_ℤ, eq_ℤ_self, eq_of_eq_ℤ}
use otus_hightload.Prelude.{arith, Bool-cases, inl, inr, Bool, true, false, not, ◌≡◌, refl}
use otus_hightload.Prelude.Text.{text_eq_refl}
use otus_hightload.Watchdog.{
  Mode, mode_off, mode_automatic, mode_required, WatchdogConfig, timeout, Device, null_watchdog,
  Watchdog,
}
use otus_hightload.Watchdog.Reload.{
  Platform, is_off, same_mode, same_driver, same_config, reload_config, keepalive, after_sent, sent,
  changed, settled, new_timeout, set_timeout, new_driver, turned_on,
}

same_mode_self : (m : Mode) → same_mode m m ≡ true
unfolding same_mode is_off
same_mode_self mode_off = refl
same_mode_self mode_automatic = refl
same_mode_self mode_required = refl

same_config_self : (c : WatchdogConfig) → same_config c c ≡ true
unfolding same_config same_driver
same_config_self c =
    rw (same_mode_self c.mode, eq_ℤ_self c.safety_margin, text_eq_refl c.driver) (ground arith)

same_timeout :
    (a b : WatchdogConfig)
    → a.ttl ≡ b.ttl
    → a.safety_margin ≡ b.safety_margin
    → timeout a ≡ timeout b
unfolding timeout
same_timeout a b p q = rw (p, q) refl

same_parts :
    (a b : WatchdogConfig)
    → same_config a b ≡ true
    → (a.ttl ≡ b.ttl) × (eq_ℤ a.safety_margin b.safety_margin ≡ true)
unfolding same_config
same_parts a b h = ground arith

same_timeouts :
    (a b : WatchdogConfig) → same_config a b ≡ true → eq_ℤ (timeout a) (timeout b) ≡ true
same_timeouts a b h =
    let (p, q) = same_parts a b h in
    cc (same_timeout a b p (eq_of_eq_ℤ _ _ q), eq_ℤ_self (timeout b))

other_timeout :
    (a b : WatchdogConfig) → eq_ℤ (timeout a) (timeout b) ≡ false → same_config a b ≡ false
other_timeout a b h = elim (Bool-cases (same_config a b)) [
  | inl e ↦ cc (same_timeouts a b e, h)
  | inr e ↦ e
]

module _ {D : Type 0} (dev : Device D) (platform : Platform D) where
  unarmed : WatchdogConfig → WatchdogConfig → Watchdog D
  unarmed c a = record { config = c; active_config = a; active = true; impl = null_watchdog }

  not_turned_on :
      (c a : WatchdogConfig)
      → is_off a.mode ≡ false
      → turned_on dev platform (unarmed c a) ≡ unarmed c a
  unfolding turned_on
  not_turned_on c a on = unfold unarmed in (rw on (ground arith))

  kept_driver :
      (c a : WatchdogConfig)
      → same_driver c a ≡ true
      → new_driver dev platform (unarmed c a) ≡ unarmed c a
  unfolding new_driver
  kept_driver c a kept = unfold unarmed in (rw kept refl)

  timeout_of_none :
      (c a : WatchdogConfig)
      → new_timeout dev platform (unarmed c a) ≡ (unarmed c a, not (eq_ℤ (timeout c) (timeout a)))
  unfolding new_timeout unarmed set_timeout
  timeout_of_none c a = elim (Bool-cases (eq_ℤ (timeout c) (timeout a))) [
    | inl e ↦ rw e refl
    | inr e ↦ rw e refl
  ]

  -- whether an error was logged, and whether the configuration is the active one
  unfoldable pub outcome : Watchdog D × Bool → Bool × Bool
  outcome (w, raised) = (raised, same_config w.config w.active_config)

  settled_none :
      (c a : WatchdogConfig) (b : Bool)
      → eq_ℤ (timeout c) (timeout a) ≡ b
      → outcome (settled dev platform (unarmed c a, not b)) ≡ (not b, b)
  unfolding settled outcome unarmed
  settled_none c a true e = rw (same_config_self c) refl
  settled_none c a false e = rw (other_timeout c a e) refl

  -- nothing has changed
  same_none :
      (c a : WatchdogConfig)
      → same_config c a ≡ true
      → outcome (changed dev platform (unarmed c a)) ≡ (false, true)
  unfolding changed outcome unarmed
  same_none c a h = rw (h, h) refl

  other_none :
      (c a : WatchdogConfig)
      → same_config c a ≡ false
      → is_off a.mode ≡ false
      → same_driver c a ≡ true
      → changed dev platform (unarmed c a)
        ≡ settled dev platform (unarmed c a, not (eq_ℤ (timeout c) (timeout a)))
  unfolding changed
  other_none c a h on kept =
      rw (not_turned_on c a on, kept_driver c a kept, timeout_of_none c a)
        (unfold unarmed in (rw h refl))

  changed_none :
      (c a : WatchdogConfig) (b : Bool)
      → is_off a.mode ≡ false
      → same_driver c a ≡ true
      → eq_ℤ (timeout c) (timeout a) ≡ b
      → outcome (changed dev platform (unarmed c a)) ≡ (not b, b)
  changed_none c a b on kept e = elim (Bool-cases (same_config c a)) [
    | inl h ↦ rw (← e, same_timeouts c a h) (same_none c a h)
    | inr h ↦ rw (other_none c a h on kept, e) (settled_none c a b e)
  ]

  reloaded :
      (w : Watchdog D) (c : WatchdogConfig)
      → w.active ≡ true
      → w.impl ≡ null_watchdog
      → is_off c.mode ≡ false
      → reload_config dev platform c w ≡ unarmed c w.active_config
  unfolding reload_config unarmed
  reloaded w c active no_impl on = rw (on, active, no_impl) refl

  -- Without a device, the `keepalive` after a change of the configuration of an active watchdog that
  -- is on, and stays on with its driver, logs an error exactly when the timeout changes, and makes the
  -- configuration the active one exactly when it does not.
  pub keepalive-reload_config :
      (w : Watchdog D) (c : WatchdogConfig)
      → w.active ≡ true
      → w.impl ≡ null_watchdog
      → is_off w.active_config.mode ≡ false
      → is_off c.mode ≡ false
      → same_driver c w.active_config ≡ true
      → outcome (keepalive dev platform (reload_config dev platform c w)) ≡ (
        not (eq_ℤ (timeout c) (timeout w.active_config)),
        eq_ℤ (timeout c) (timeout w.active_config),
      )
  unfolding keepalive after_sent
  keepalive-reload_config w c active no_impl on kept_on kept =
      rw (reloaded w c active no_impl kept_on)
        (unfold unarmed sent in (changed_none c w.active_config _ on kept refl))
