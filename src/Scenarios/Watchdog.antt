-- ===== src/Scenarios/Watchdog.antt =====
-- An activation of the watchdog at a concrete device.
use otus_hightload.Prelude.Int.{eq_ℤ}
use otus_hightload.Prelude.{ℕ, Bool, true, false, some, ◌≡◌, refl}
use otus_hightload.Prelude.Int.{pos, pos_part, ◌-ℤ◌}
use otus_hightload.Watchdog.{
  mode_required, mode_automatic, parse_mode, WatchdogConfig, Device, device, Watchdog, activate,
  timeout, timing_slack, activate_impl, opened, set_timeout_of, checked_timeout, exceeds, running,
}
use otus_hightload.Watchdog.{null_watchdog}
use otus_hightload.Watchdog.Reload.{Platform, is_off, same_driver, keepalive, reload_config}
use otus_hightload.Watchdog.Reload.Settled.{outcome, keepalive-reload_config}
use otus_hightload.Watchdog.Activation.{Guards, activate-Guards}
use otus_hightload.Prelude.Text.{codes, mem_text, text_eq, lower}

-- whether it is open, and its timeout
record Timer : Type 0 where
  started : Bool
  seconds : ℕ

abbrev timer : Device Timer
timer = record {
  is_running = λ d. d.started;
  is_healthy = λ d. true;
  can_be_disabled = λ d. true;
  has_set_timeout = λ d. true;
  open_device = λ d. (record d { started = true }, false);
  close_device = λ d. (record d { started = false }, false);
  keepalive = λ d. (d, false);
  set_timeout = λ t d. (record d { seconds = pos_part t }, false);
  get_timeout = λ d. some d.seconds;
}

abbrev usual : WatchdogConfig
usual = record {
  mode = mode_required;
  ttl = 30;
  loop_wait = 10;
  safety_margin = pos 5;
  driver = codes "default";
  driver_config = 0;
}

abbrev idle : Watchdog Timer
idle = record {
  config = usual;
  active_config = usual;
  active = false;
  impl = device (record { started = false; seconds = 60 });
}

parse_mode_auto : parse_mode (some (codes "Auto")) ≡ mode_automatic
unfolding parse_mode mem_text text_eq lower
parse_mode_auto = refl

timeout-usual : timeout usual ≡ pos 25
unfolding timeout ◌-ℤ◌
timeout-usual = refl

ready : (activate timer idle).1 ≡ true
unfolding activate activate_impl opened set_timeout_of checked_timeout exceeds running timing_slack
    timeout ◌-ℤ◌
ready = refl

activate-Guards_example : Guards timer (activate timer idle).0.config (activate timer idle).0.impl
activate-Guards_example = activate-Guards timer idle refl ready

-- no device, and a longer time to live
abbrev platform : Platform Timer
platform = record {
  is_linux = false;
  linux = λ n. record { started = false; seconds = 60 };
  testing = λ n. record { started = false; seconds = 60 };
}

abbrev longer : WatchdogConfig
longer = record {
  mode = mode_automatic;
  ttl = 60;
  loop_wait = 10;
  safety_margin = pos 5;
  driver = codes "default";
  driver_config = 0;
}

abbrev without_device : Watchdog Timer
without_device = record {
  config = record longer { ttl = 30 };
  active_config = record longer { ttl = 30 };
  active = true;
  impl = null_watchdog;
}

keepalive-reload_config_example :
    outcome timer platform
      (keepalive timer platform (reload_config timer platform longer without_device))
    ≡ (true, false)
unfolding is_off same_driver text_eq eq_ℤ timeout ◌-ℤ◌
keepalive-reload_config_example =
    keepalive-reload_config timer platform without_device longer refl refl refl refl refl
