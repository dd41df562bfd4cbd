-- ===== src/Watchdog/Activation.antt =====
-- What an activation of the watchdog ensures.
use otus_hightload.Prelude.{ℕ, true, false, Option, none, some, ◌≡◌, arith, if◌then◌else◌}
use otus_hightload.Prelude.Int.{pos, ◌≤ℤ◌, ltb_ℤ, -ℤ_parts}
use otus_hightload.Watchdog.{
  is_required, Watchdog, activate_impl, exceeds, timeout, timing_slack, activate, opened, running,
  set_timeout_of, WatchdogConfig, Device, Impl, null_watchdog, device, checked_timeout, caught,
}

module _ {D : Type 0} (dev : Device D) where
  -- the timeout that was read is the one that the device has
  Reports : Impl D → Option ℕ → Type 0
  Reports null_watchdog a = Unit
  Reports (device d) none = ⊥
  Reports (device d) (some t) = dev.get_timeout d ≡ some t

  checked-Reports :
      (c : WatchdogConfig) (d : D)
      → Reports (caught dev (checked_timeout dev c d)).0 (caught dev (checked_timeout dev c d)).1
  unfolding checked_timeout Reports
  checked-Reports c d = ground arith

  set_timeout-Reports :
      (c : WatchdogConfig) (d : D)
      → Reports (caught dev (set_timeout_of dev c d)).0 (caught dev (set_timeout_of dev c d)).1
  unfolding set_timeout_of
  set_timeout-Reports c d =
      let plain = checked-Reports c d in
      let changed = checked-Reports c (dev.set_timeout (timeout c) d).0 in
      unfold Reports in ground arith

  opened-Reports : (c : WatchdogConfig) (i : Impl D) → Reports (opened dev c i).0 (opened dev c i).1
  unfolding opened
  opened-Reports c null_watchdog = unfold Reports in tt
  opened-Reports c (device d) =
      let rest = set_timeout-Reports c (dev.open_device d).0 in unfold Reports in ground arith

  InTime : WatchdogConfig → Option ℕ → Type 0
  InTime c none = ⊥
  InTime c (some t) = pos t ≤ℤ timeout c

  -- a device that runs, with a timeout within that of the configuration, which a pass fits in
  pub Guards : WatchdogConfig → Impl D → Type 0
  Guards c null_watchdog = ⊥
  Guards c (device d) =
      (dev.is_running d ≡ true) × InTime c (dev.get_timeout d) × (pos c.loop_wait ≤ℤ timeout c)

  -- A device that passed the tests of `_activate` guards.
  tested-Guards :
      (c : WatchdogConfig) (i : Impl D) (a : Option ℕ)
      → Reports i a
      → pos c.loop_wait ≤ℤ timeout c
      → running dev i ≡ true
      → exceeds dev a c ≡ false
      → Guards c i
  unfolding running exceeds Reports Guards InTime
  tested-Guards c null_watchdog a rep slack run fits = ground arith
  tested-Guards c (device d) none rep slack run fits = elim rep [ ]
  tested-Guards c (device d) (some t) rep slack run fits = (run, ground arith, slack)

  -- what `_activate` opens
  used : WatchdogConfig → Impl D → Impl D
  used c i = if ltb_ℤ (timing_slack c) (pos 0) then null_watchdog else i

  slack_of_running :
      (c : WatchdogConfig) (i : Impl D)
      → running dev (opened dev c (used c i)).0 ≡ true
      → pos c.loop_wait ≤ℤ timeout c
  slack_of_running c i run =
      let parts = -ℤ_parts (timeout c) (pos c.loop_wait) in
      unfold used timing_slack opened running in ground arith

  passed :
      (w : Watchdog D)
      → is_required w.config.mode ≡ true
      → (activate dev w).1 ≡ true
      → let o = opened dev w.config (used w.config w.impl) in
        (running dev o.0 ≡ true) × (exceeds dev o.1 w.config ≡ false)
  unfolding activate activate_impl used
  passed w required ready = (ground arith, ground arith)

  -- Where a watchdog is required, an activation that answers that it is ready, whatever the device
  -- does, leaves a device that runs and whose timeout is no longer than the one that the
  -- configuration leaves to the leader key, which is no shorter than loop_wait.
  pub activate-Guards :
      (w : Watchdog D)
      → is_required w.config.mode ≡ true
      → (activate dev w).1 ≡ true
      → Guards (activate dev w).0.config (activate dev w).0.impl
  unfolding activate activate_impl
  activate-Guards w required ready =
      let c = w.config in
      let (run, fits) = passed w required ready in
      let o = opened dev c (used c w.impl) in
      let rep = opened-Reports c (used c w.impl) in
      unfold used in tested-Guards c o.0 o.1 rep (slack_of_running c w.impl run) run fits
