-- ===== src/Watchdog/Reload.antt =====
-- `get_impl`, `reload_config` and `keepalive` of .patroni/patroni/watchdog/base.py: how a change of
-- the configuration reaches the device. The start, which ends the program where a watchdog is
-- required and there is none, is `start`.
pub mod Settled
use otus_hightload.Prelude.Int.{eq_ℤ}
use otus_hightload.Prelude.{
  ℕ, Bool, true, false, not, ◌&&◌, ◌||◌, ◌==◌, Option, none, some, is_some, if◌then◌else◌,
}
use otus_hightload.Prelude.Text.{codes, text_eq}
use otus_hightload.Watchdog.{
  Mode, mode_off, mode_automatic, mode_required, is_required, WatchdogConfig, timeout, Device, Impl,
  null_watchdog, device, Watchdog, activate_impl,
}

-- the devices that the platform has
pub record Platform (D : Type 0) : Type 0 where
  pub is_linux : Bool
  pub linux : ℕ → D  -- `LinuxWatchdogDevice.from_config`
  pub testing : ℕ → D

unfoldable pub is_off : Mode → Bool
is_off mode_off = true
is_off _ = false

unfoldable pub same_mode : Mode → Mode → Bool
same_mode mode_off b = is_off b
same_mode mode_required b = is_required b
same_mode mode_automatic b = not (is_off b) && not (is_required b)

unfoldable pub same_driver : WatchdogConfig → WatchdogConfig → Bool
same_driver a b = text_eq a.driver b.driver && (a.driver_config == b.driver_config)

-- `__eq__`
unfoldable pub same_config : WatchdogConfig → WatchdogConfig → Bool
unfolding same_mode is_off eq_ℤ
same_config a b =
    same_mode a.mode b.mode
    && (a.ttl == b.ttl)
    && (a.loop_wait == b.loop_wait)
    && eq_ℤ a.safety_margin b.safety_margin
    && same_driver a b

module _ {D : Type 0} (dev : Device D) (platform : Platform D) where
  unfoldable pub get_impl : WatchdogConfig → Impl D
  get_impl c =
      if text_eq c.driver (codes "testing")
      then device (platform.testing c.driver_config)
      else if platform.is_linux && text_eq c.driver (codes "default")
      then device (platform.linux c.driver_config)
      else null_watchdog

  is_null : Impl D → Bool
  is_null null_watchdog = true
  is_null (device d) = false

  -- `__init__`; none is the end of the program
  unfoldable pub start : WatchdogConfig → Option (Watchdog D)
  unfolding is_null is_off
  start c =
      let impl = if is_off c.mode then null_watchdog else get_impl c in
      if is_required c.mode && is_null impl
      then none
      else some (record { config = c; active_config = c; active = false; impl = impl })

  turned_off : Watchdog D → Watchdog D
  turned_off w =
      if is_off w.config.mode
      then record w { active_config = w.config; impl = null_watchdog }
      else w

  -- The device that is turned off is disabled before; what that leaves of it is not looked at.
  unfoldable pub reload_config : WatchdogConfig → Watchdog D → Watchdog D
  unfolding turned_off is_off
  reload_config c w =
      let w' = turned_off (record w { config = c }) in
      if w'.active then w' else record w' {
        active_config = c;
        impl = if same_driver c w'.active_config then w'.impl else get_impl c;
      }

  -- `_activate`, which makes the configuration the active one
  unfoldable pub reactivated : Watchdog D → Impl D → Watchdog D
  reactivated w impl =
      let (now, _) = activate_impl dev w.config impl in
      record w { active_config = w.config; impl = now }

  unfoldable pub sent : Impl D → Impl D × Bool
  sent null_watchdog = (null_watchdog, false)
  sent (device d) = let (d', raised) = dev.keepalive d in (device d', raised)

  unfoldable pub turned_on : Watchdog D → Watchdog D
  turned_on w =
      if not (is_off w.config.mode) && is_off w.active_config.mode
      then reactivated w (get_impl w.config)
      else w

  unfoldable pub new_driver : Watchdog D → Watchdog D
  new_driver w =
      if same_driver w.config w.active_config then w else reactivated w (get_impl w.config)

  -- `NullWatchdog` cannot set a timeout; a device that runs is asked for it once more.
  unfoldable pub set_timeout : WatchdogConfig → Impl D → Impl D × Bool
  set_timeout c null_watchdog = (null_watchdog, true)
  set_timeout c (device d) =
      let (d', raised) = dev.set_timeout (timeout c) d in
      (device d', raised || dev.is_running d' && not (is_some (dev.get_timeout d')))

  unfoldable pub new_timeout : Watchdog D → Watchdog D × Bool
  new_timeout w =
      if eq_ℤ (timeout w.config) (timeout w.active_config)
      then (w, false)
      else (let (impl, raised) = set_timeout w.config w.impl in (record w { impl = impl }, raised))

  unfoldable pub settled : Watchdog D × Bool → Watchdog D × Bool
  settled (w, true) = (w, true)
  settled (w, false) = (record w { active_config = w.config }, false)

  unfoldable pub changed : Watchdog D → Watchdog D × Bool
  changed w =
      if same_config w.config w.active_config
      then (w, false)
      else settled (new_timeout (new_driver (turned_on w)))

  unfoldable pub after_sent : Watchdog D → Impl D × Bool → Watchdog D × Bool
  after_sent w (impl, true) = (record w { impl = impl }, true)
  after_sent w (impl, false) = changed (record w { impl = impl })

  -- the flag tells that an error was logged
  unfoldable pub keepalive : Watchdog D → Watchdog D × Bool
  unfolding after_sent sent changed settled new_timeout set_timeout new_driver turned_on reactivated
      is_off eq_ℤ
  keepalive w = if w.active then after_sent w (sent w.impl) else (w, false)
