-- ===== src/Ha/Cycle/Plain/Lock.antt =====
-- The plain procedures of Ha/Cycle/Lock.
use otus_hightload.Ha.Cycle.Calls.{View}
use otus_hightload.Prelude.{Bool, true, false}
use otus_hightload.Py.{Fields}
use otus_hightload.Prelude.Int.{ℤ}
use otus_hightload.Ha.Cycle.Plain.{IsPlain, plain_rules}
use otus_hightload.Ha.Cycle.Lock.{
  failover_possible, injected, is_leader, load_cluster_from_dcs, set_is_leader,
}

pub is_leader-IsPlain : (o : Fields) → IsPlain o is_leader
unfolding is_leader
is_leader-IsPlain o = search (plain_rules) depth 40 fits 6000

pub set_is_leader-IsPlain : (o : Fields) (b : Bool) → IsPlain o (set_is_leader b)
unfolding set_is_leader
set_is_leader-IsPlain o true = search (plain_rules) depth 40 fits 6000
set_is_leader-IsPlain o false = search (plain_rules) depth 40 fits 6000

pub injected-IsPlain : (o : Fields) (a : View) → IsPlain o (injected a)
unfolding injected
injected-IsPlain o a = search (plain_rules) depth 40 fits 6000

pub load_cluster_from_dcs-IsPlain : (o : Fields) → IsPlain o load_cluster_from_dcs
unfolding load_cluster_from_dcs
load_cluster_from_dcs-IsPlain o =
    search (plain_rules, set_is_leader-IsPlain, injected-IsPlain) depth 40 fits 6000

pub failover_possible-IsPlain : (o : Fields) (a : ℤ) → IsPlain o (failover_possible a)
unfolding failover_possible
failover_possible-IsPlain o a = search (plain_rules) depth 40 fits 6000
