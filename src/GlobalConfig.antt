-- ===== src/GlobalConfig.antt =====
-- .patroni/patroni/global_config.py: the dynamic configuration of the cluster, a dictionary that
-- is read key by key.
use otus_hightload.Prelude.{Bool, true, false, Option, none, some, ◌&&◌, ◌||◌, not, if◌then◌else◌}
use otus_hightload.Prelude.Int.{ℤ, pos, negsuc, ltb_ℤ}
use otus_hightload.Prelude.Text.{Text, codes}
use otus_hightload.Py.{Value, bool, dict, Fields, get, has, or_null, truthy}
use otus_hightload.Tags.{as_dict}
use otus_hightload.Utils.{parse_int, parse_bool}

or_false : Option Bool → Bool
or_false none = false
or_false (some b) = b

unfoldable pub check_mode : Fields → Text → Bool
unfolding or_false
check_mode config mode = or_false (parse_bool (or_null (get mode config)))

unfoldable pub is_paused : Fields → Bool
is_paused config = check_mode config (codes "pause")

names_remote : Value → Bool
names_remote (dict d) =
    truthy (or_null (get (codes "host") d))
    || truthy (or_null (get (codes "port") d))
    || truthy (or_null (get (codes "restore_command") d))
names_remote _ = false

unfoldable pub is_standby_cluster : Fields → Bool
unfolding names_remote
is_standby_cluster config = names_remote (or_null (get (codes "standby_cluster") config))

unfoldable pub is_synchronous_mode : Fields → Bool
is_synchronous_mode config =
    check_mode config (codes "synchronous_mode") && not (is_standby_cluster config)

unfoldable pub is_synchronous_mode_strict : Fields → Bool
is_synchronous_mode_strict config = check_mode config (codes "synchronous_mode_strict")

or_default : ℤ → Option ℤ → ℤ
or_default default none = default
or_default default (some n) = n

unfoldable pub get_int : Fields → Text → ℤ → ℤ
unfolding or_default
get_int config name default = or_default default (parse_int (or_null (get name config)))

max_ℤ : ℤ → ℤ → ℤ
max_ℤ a b = if ltb_ℤ a b then b else a

unfoldable pub min_synchronous_nodes : Fields → ℤ
min_synchronous_nodes config = if is_synchronous_mode_strict config then pos 1 else pos 0

unfoldable pub synchronous_node_count : Fields → ℤ
unfolding max_ℤ
synchronous_node_count config =
    max_ℤ (get_int config (codes "synchronous_node_count") (pos 1)) (min_synchronous_nodes config)

unfoldable pub maximum_lag_on_failover : Fields → ℤ
maximum_lag_on_failover config = get_int config (codes "maximum_lag_on_failover") (pos 1048576)

unfoldable pub maximum_lag_on_syncnode : Fields → ℤ
maximum_lag_on_syncnode config = get_int config (codes "maximum_lag_on_syncnode") (negsuc 0)

unfoldable pub primary_start_timeout : Fields → ℤ
primary_start_timeout config =
    if has (codes "primary_start_timeout") config
    then get_int config (codes "primary_start_timeout") (pos 300)
    else get_int config (codes "master_start_timeout") (pos 300)

unfoldable pub primary_stop_timeout : Fields → ℤ
primary_stop_timeout config =
    if has (codes "primary_stop_timeout") config
    then get_int config (codes "primary_stop_timeout") (pos 0)
    else get_int config (codes "master_stop_timeout") (pos 0)

unfoldable pub max_timelines_history : Fields → ℤ
max_timelines_history config = get_int config (codes "max_timelines_history") (pos 0)

-- `(self.get('postgresql') or EMPTY_DICT).get('use_slots', True)`
or_true : Option Value → Value
or_true none = bool true
or_true (some v) = v

unfoldable pub use_slots : Fields → Bool
unfolding or_true or_false
use_slots config = or_false (
    parse_bool
      (or_true (get (codes "use_slots") (as_dict (or_null (get (codes "postgresql") config))))))
