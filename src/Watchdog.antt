-- ===== src/Watchdog.antt =====
-- The configuration and the activation of the watchdog, of .patroni/patroni/watchdog/base.py: the
-- device that resets the machine when Patroni no longer answers for its leader key.
pub mod Activation
pub mod Reload
use otus_hightload.Prelude.{
  [], is_some, ◌∷◌, ℕ, ◌/◌, Bool, true, false, not, ◌&&◌, ◌||◌, ◌==◌, Option, none, some,
  if◌then◌else◌,
}
use otus_hightload.Prelude.Int.{ℤ, pos, negsuc, ◌-ℤ◌, ltb_ℤ}
use otus_hightload.Prelude.Text.{Text, codes, mem_text, lower}

pub data Mode : Type 0 where
  mode_off : Mode
  mode_automatic : Mode
  mode_required : Mode

abbrev pub is_required : Mode → Bool
is_required mode_required = true
is_required _ = false

-- the mode in the configuration: `False`, or the text of another value
unfoldable pub parse_mode : Option Text → Mode
parse_mode none = mode_off
parse_mode (some s) =
    if mem_text (lower s) (codes "require" ∷ codes "required" ∷ [])
    then mode_required
    else if mem_text (lower s) (codes "auto" ∷ codes "automatic" ∷ [])
    then mode_automatic
    else mode_off

pub record WatchdogConfig : Type 0 where
  pub mode : Mode
  pub ttl : ℕ
  pub loop_wait : ℕ
  pub safety_margin : ℤ
  pub driver : Text
  pub driver_config : ℕ  -- dictionaries are told apart by numbers

abbrev is_minus_one : ℤ → Bool
is_minus_one (negsuc n) = n == 0
is_minus_one (pos n) = false

unfoldable pub timeout : WatchdogConfig → ℤ
timeout c = if is_minus_one c.safety_margin then pos (c.ttl / 2) else pos c.ttl -ℤ c.safety_margin

unfoldable pub timing_slack : WatchdogConfig → ℤ
timing_slack c = timeout c -ℤ pos c.loop_wait

-- `WatchdogBase`: what a device does, as a state. A flag tells that `WatchdogError` was raised; no
-- timeout is that error.
pub record Device (D : Type 0) : Type 0 where
  pub is_running : D → Bool
  pub is_healthy : D → Bool
  pub can_be_disabled : D → Bool
  pub has_set_timeout : D → Bool
  pub open_device : D → D × Bool
  pub close_device : D → D × Bool
  pub keepalive : D → D × Bool
  pub set_timeout : ℤ → D → D × Bool
  pub get_timeout : D → Option ℕ

-- `NullWatchdog`, or a device
pub data Impl (D : Type 0) : Type 0 where
  null_watchdog : Impl D
  device : D → Impl D

pub record Watchdog (D : Type 0) : Type 0 where
  pub config : WatchdogConfig
  pub active_config : WatchdogConfig
  pub active : Bool
  pub impl : Impl D

module _ {D : Type 0} (dev : Device D) where
  unfoldable pub running : Impl D → Bool
  running null_watchdog = false
  running (device d) = dev.is_running d

  -- from the reading of the timeout on; none is `WatchdogError`
  unfoldable pub checked_timeout : WatchdogConfig → D → Option (Impl D × Option ℕ)
  checked_timeout c d = elim (dev.get_timeout d) [
    | none ↦ none
    | some t ↦
        if dev.is_running d && ltb_ℤ (pos t) (pos c.loop_wait) && dev.can_be_disabled d
        then (if (dev.close_device d).1 then none else some (null_watchdog, none))
        else some (device d, some t)
  ]

  -- `_set_timeout`
  unfoldable pub set_timeout_of : WatchdogConfig → D → Option (Impl D × Option ℕ)
  set_timeout_of c d =
      if dev.has_set_timeout d
      then (let (d', raised) = dev.set_timeout (timeout c) d in
          if raised then none else checked_timeout c d')
      else checked_timeout c d

  abbrev pub caught : Option (Impl D × Option ℕ) → Impl D × Option ℕ
  caught (some r) = r
  caught none = (null_watchdog, some 1000000000)

  -- the block under `try`, with its handler
  unfoldable pub opened : WatchdogConfig → Impl D → Impl D × Option ℕ
  opened c null_watchdog = (null_watchdog, some 1000000000)
  opened c (device d) =
      let (d', raised) = dev.open_device d in caught (if raised then none else set_timeout_of c d')

  unfoldable pub exceeds : Option ℕ → WatchdogConfig → Bool
  exceeds none c = false
  exceeds (some t) c = not (t == 0) && ltb_ℤ (timeout c) (pos t)

  -- `_activate`
  unfoldable pub activate_impl : WatchdogConfig → Impl D → Impl D × Bool
  activate_impl c impl =
      let (now, actual) =
        opened c (if ltb_ℤ (timing_slack c) (pos 0) then null_watchdog else impl) in
      (
        now,
        if (not (running now) || exceeds actual c) && is_required c.mode
            then false
            else if running now
            then true
            else not (is_required c.mode),
      )

  unfoldable pub activate : Watchdog D → Watchdog D × Bool
  activate w =
      let (now, ready) = activate_impl w.config w.impl in
      (record w { active_config = w.config; active = true; impl = now }, ready)

  -- `_disable`
  unfoldable pub disable_impl : Impl D → Impl D
  disable_impl null_watchdog = null_watchdog
  disable_impl (device d) =
      if dev.is_running d && not (dev.can_be_disabled d)
      then (let (d', raised) = dev.keepalive d in
          device
            (if raised || not (is_some (dev.get_timeout d')) then d' else (dev.close_device d').0))
      else device (dev.close_device d).0

  unfoldable pub disable : Watchdog D → Watchdog D
  disable w = record w { active = false; impl = disable_impl w.impl }

  abbrev healthy : Impl D → Bool
  healthy null_watchdog = false
  healthy (device d) = dev.is_healthy d

  -- `is_healthy`
  unfoldable pub watchdog_healthy : Watchdog D → Bool
  watchdog_healthy w =
      if is_required w.config.mode
      then not (ltb_ℤ (timing_slack w.config) (pos 0)) && healthy w.impl
      else true
