-- ===== src/Ha/Cycle/Plain/Lead.antt =====
-- The plain procedures of Ha/Cycle/Lead.
use otus_hightload.Ha.Cycle.Calls.{async_result}
use otus_hightload.Py.{Fields}
use otus_hightload.Ha.Cycle.Plain.{call-IsPlain, IsPlain, plain_rules}
use otus_hightload.Ha.Cycle.Lead.{claim_sync, script_failed, watchdog_ready}

pub watchdog_ready-IsPlain : (o : Fields) → IsPlain o watchdog_ready
unfolding watchdog_ready
watchdog_ready-IsPlain o = search (plain_rules) depth 40 fits 6000

pub script_failed-IsPlain : (o : Fields) → IsPlain o script_failed
unfolding script_failed
script_failed-IsPlain o = search (plain_rules, call-IsPlain o async_result tt) depth 40 fits 6000

pub claim_sync-IsPlain : (o : Fields) → IsPlain o claim_sync
unfolding claim_sync
claim_sync-IsPlain o = search (plain_rules) depth 40 fits 6000
