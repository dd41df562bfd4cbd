-- ===== src/Ha/Cycle/Plain/Main.antt =====
-- The plain procedures of Ha/Cycle/Main and Ha/Cycle/Idle.
use otus_hightload.Py.{Fields}
use otus_hightload.Ha.Cycle.Plain.{IsPlain, plain_rules}
use otus_hightload.Ha.Cycle.Main.{conclude, fill_keys, note_pause}
use otus_hightload.Ha.Cycle.Idle.{stays_down}
use otus_hightload.Ha.Cycle.Plain.Lock.{is_leader-IsPlain}

pub note_pause-IsPlain : (o : Fields) → IsPlain o note_pause
unfolding note_pause
note_pause-IsPlain o = search (plain_rules) depth 40 fits 6000

pub fill_keys-IsPlain : (o : Fields) → IsPlain o fill_keys
unfolding fill_keys
fill_keys-IsPlain o = search (plain_rules) depth 40 fits 6000

pub stays_down-IsPlain : (o : Fields) → IsPlain o stays_down
unfolding stays_down
stays_down-IsPlain o = search (plain_rules) depth 40 fits 6000

pub conclude-IsPlain : (o : Fields) → IsPlain o conclude
unfolding conclude
conclude-IsPlain o = search (plain_rules, is_leader-IsPlain) depth 40 fits 6000
