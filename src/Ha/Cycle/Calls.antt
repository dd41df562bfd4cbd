-- ===== src/Ha/Cycle/Calls.antt =====
-- What the `Ha` object of .patroni/patroni/ha.py calls: the methods of the other objects, with the
-- values that they answer. A message is its text before any values are formatted into it.
use otus_hightload.Prelude.{ℕ, Bool, Option, String}
use otus_hightload.Prelude.Int.{ℤ}
use otus_hightload.Prelude.Text.{Text}
use otus_hightload.Py.{Fields}
use otus_hightload.Dcs.Cluster.{Cluster, Leader}
use otus_hightload.Ha.Node.{Node}

-- the `/config` key
pub record ConfigKey : Type 0 where
  pub settings : Fields
  pub modify_version : ℕ

-- what one read of the store gives, with the configuration and whether there are workers
pub record View : Type 0 where
  pub cluster : Cluster
  pub config : Option ConfigKey
  pub has_workers : Bool

-- `Postgresql.role`; `primary` stands for its old name `master` too
pub data Role : Type 0 where
  primary : Role
  promoted : Role
  standby_leader : Role
  replica : Role
  demoted : Role
  uninitialized : Role

-- `Postgresql.state`
pub data PgState : Type 0 where
  running : PgState
  starting : PgState
  stopped : PgState
  crashed : PgState
  other_state : PgState

-- the data directory
pub data Directory : Type 0 where
  filled : Directory
  empty : Directory
  inaccessible : Directory

-- the database cluster state of pg_controldata
pub data ControlState : Type 0 where
  in_production : ControlState
  in_crash_recovery : ControlState
  shutting_down : ControlState
  shut_down : ControlState
  in_archive_recovery : ControlState
  other_control : ControlState

-- the background actions
pub data Action : Type 0 where
  bootstrap_cluster : Action
  bootstrap_standby : Action
  bootstrap_from : Action
  bootstrap_without_leader : Action
  crash_recovery : Action
  pg_rewind : Action
  reinitialize_diverged : Action
  start_primary : Action
  restart_after_failure : Action
  change_conninfo : Action
  demote_graceful : Action
  demote_offline : Action
  start_after_demotion : Action
  promote : Action
  bootstrap_done : Action
  restart : Action
  reinitialize_node : Action
  copy_logical_slots : Action

pub data DemoteMode : Type 0 where
  offline : DemoteMode
  graceful : DemoteMode
  immediate : DemoteMode
  immediate_nolock : DemoteMode

-- whom PostgreSQL follows
pub data Upstream : Type 0 where
  nobody : Upstream
  member_named : Text → Upstream
  remote_member : Upstream

-- the result of a critical task
pub data TaskResult : Type 0 where
  no_result : TaskResult
  is_false : TaskResult
  is_true : TaskResult

-- the questions that are answered yes or no
pub data Query : Type 0 where
  -- the store
  attempt_to_acquire_leader : Query
  update_leader : Bool → Query
  initialize : Bool → Query
  write_sync_state : Option ℕ → Query
  -- PostgreSQL
  is_primary : Query
  pg_is_running : Query
  is_starting : Query
  is_healthy : Query
  check_for_startup : Query
  recovery_conf_exists : Query
  cb_called : Query
  is_bootstrapping : Query
  has_history_after : Query
  has_conn_url : Upstream → Query
  sync_slots : Bool → Query
  -- pg_rewind
  rewind_is_needed : Query
  rewind_executed : Query
  rewind_failed : Query
  can_rewind : Query
  can_rewind_or_reinitialize : Query
  rewind_needed_and_possible : Query
  remove_on_diverged : Query
  -- the watchdog
  watchdog_is_running : Query
  watchdog_activate : Query
  -- the background executor
  is_busy : Query
  try_run : Action → Query
  cancel_async : Query
  -- the node itself: methods that are modelled elsewhere, or that only prepare data
  can_bootstrap_without_leader : Query
  has_clone_member : Query
  has_bootstrap_section : Query
  check_failsafe_topology : Query
  is_raft : Query
  evaluate_scheduled_restart : Query

-- the commands
pub data Act : Type 0 where
  -- the store
  delete_leader : Act
  cancel_initialize : Act
  set_config_value : Act
  take_leader : Act
  manual_failover : Option Text → Option ℤ → Option ℕ → Act
  touch_member : Act
  reset_cluster : Act
  -- PostgreSQL
  set_state : PgState → Act
  set_role : Role → Act
  stop : Act
  follow_node : Upstream → Role → Act
  set_bootstrapping : Bool → Act
  call_nowait : Act
  handle_parameter_change : Act
  move_data_directory : Act
  set_standby_names : Bool → Act
  cancel_cancellable : Act
  terminate_starting : Act
  -- pg_rewind
  reset_rewind : Act
  trigger_check_diverged_lsn : Act
  ensure_checkpoint_after_promote : Act
  -- the watchdog
  watchdog_disable : Act
  watchdog_keepalive : Act
  -- the background executor
  reset_async : Act
  -- the node itself: methods that are modelled elsewhere, or that only prepare data
  process_sync_replication : Act
  update_cluster_history : Act
  sync_meta_data : Act
  set_failsafe_active : Bool → Act
  reset_cluster_info : Bool → Act
  schedule_sanity_checks : Act

pub data Call : Type 0 where
  asks : Query → Call
  acts : Act → Call
  get_cluster : Call
  time_in_state : Call
  pg_state : Call
  pg_role : Call
  stop_to_demote : DemoteMode → Call
  recovery_conf_change : Upstream → Call
  control_state : Call
  data_directory : Call
  sysid : Call
  scheduled_action : Call
  async_result : Call
  cancel_critical : Call
  observe : Call
  failsafe_leader : Call
  time : Call

-- what a call answers
abbrev pub Value : Call → Type 0
Value (asks _) = Bool
Value (acts _) = Unit
Value get_cluster = View
Value time_in_state = ℤ
Value pg_state = PgState
Value pg_role = Role
Value (stop_to_demote _) = Option ℤ
Value (recovery_conf_change _) = Bool × Bool
Value control_state = ControlState
Value data_directory = Directory
Value sysid = Text
Value scheduled_action = Option Action
Value async_result = TaskResult
Value cancel_critical = Bool × Bool
Value observe = Node
Value failsafe_leader = Option Leader
Value time = ℕ

pub data Failure : Type 0 where
  dcs_error : Failure
  postgres_error : Failure
  fatal : String → Failure
  other_exception : Failure

-- the call answers or raises
pub data Reply (A : Type 0) : Type 0 where
  answers : A → Reply A
  throws : Failure → Reply A
