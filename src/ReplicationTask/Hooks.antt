-- ===== src/ReplicationTask/Hooks.antt =====
-- The decisions of hooks.go: when a replication task is started and when it is stopped.
use ack_dms_controller.ReplicationTask.TaskStatus
use ack_dms_controller.Base.{
  Bool, List, Option, String, [], contains, false, if◌then◌else◌, is_none, is_some, is_value, none,
  not, or_default, some, true, ◌&&◌, ◌==◌, ◌||◌, ◌∷◌,
}
use ack_dms_controller.Compare.{DeltaOps}
use ack_dms_controller.Go.{Go, deref, returns, ◌>>=◌}
use ack_dms_controller.ReplicationTask.TaskStatus.{
  failed, ready, running, starting, stopped, stopping,
}
use ack_dms_controller.ReplicationTask.Types.{ReplicationTask}

abbrev pub connection_status_successful : String
connection_status_successful = "successful"

-- `svcsdktypes.MigrationTypeValueFullLoad`, as in apis/v1alpha1/enums.go.
abbrev pub migration_type_full_load : String
migration_type_full_load = "full-load"

abbrev steady_statuses : List String
steady_statuses =
    TaskStatus.failed ∷ TaskStatus.ready ∷ TaskStatus.running ∷ TaskStatus.stopped ∷ []

unfoldable pub has_steady_state : ReplicationTask → Bool
has_steady_state ko = elim ko.status.task_status [
  | none ↦ false
  | some s ↦ contains steady_statuses s
]

unfoldable pub endpoint_connections_tested : ReplicationTask → Bool
endpoint_connections_tested ko =
    is_value ko.status.source_endpoint_connection_status connection_status_successful
    && is_value ko.status.target_endpoint_connection_status connection_status_successful

abbrev pub delete_requested : ReplicationTask → Bool
delete_requested ko = is_some ko.deletion_timestamp

-- `ko.Spec.StartReplicationTask != nil && *ko.Spec.StartReplicationTask`
abbrev pub start_requested : ReplicationTask → Bool
start_requested ko = or_default ko.spec.start_replication_task false

unfoldable pub update_requires_stop : {D : Type 0} → DeltaOps D → Option D → Bool
update_requires_stop ops none = false
update_requires_stop ops (some d) =
    ops.different_except d ("Spec.StartReplicationTask" ∷ "Spec.Tags" ∷ [])

-- `c1`
abbrev is_running_or_starting : String → Bool
is_running_or_starting s = s == TaskStatus.running || s == TaskStatus.starting

-- `ko.Status.Stats != nil && ko.Status.Stats.FullLoadFinishDate != nil`
abbrev pub full_load_finished : ReplicationTask → Bool
full_load_finished ko = elim ko.status.stats [
  | none ↦ false
  | some stats ↦ is_some stats.full_load_finish_date
]

-- `c2`, which reads `*ko.Spec.MigrationType` once the status is stopping or stopped.
abbrev full_load_only_finished : ReplicationTask → String → Go Bool
full_load_only_finished ko s =
    if s == TaskStatus.stopping || s == TaskStatus.stopped
    then (do
      migration_type ← deref ko.spec.migration_type
      returns (migration_type == migration_type_full_load && full_load_finished ko))
    else returns false

unfoldable pub already_started : ReplicationTask → Go Bool
already_started ko = elim ko.status.task_status [
  | none ↦ returns false
  | some s ↦ do c2 ← full_load_only_finished ko s; returns (is_running_or_starting s || c2)
]

unfoldable pub already_stopped : ReplicationTask → Bool
already_stopped ko = elim ko.status.task_status [
  | none ↦ true
  | some s ↦ not (s == TaskStatus.running) && not (s == TaskStatus.starting)
]

unfoldable pub should_start_replication_task : ReplicationTask → Go Bool
unfolding has_steady_state already_started endpoint_connections_tested
should_start_replication_task ko =
    if is_none ko.spec.start_replication_task
    then returns false
    else if not (has_steady_state ko)
    then returns false
    else (do
      started ← already_started ko
      returns (
          if started
          then false
          else if delete_requested ko || not (start_requested ko)
          then false
          else endpoint_connections_tested ko))

unfoldable pub should_stop_replication_task :
    {D : Type 0} → DeltaOps D → ReplicationTask → Option D → Go Bool
unfolding has_steady_state already_stopped update_requires_stop
should_stop_replication_task ops ko delta =
    if is_none ko.spec.start_replication_task && not (delete_requested ko)
    then returns false
    else if not (has_steady_state ko) || already_stopped ko
    then returns false
    else if delete_requested ko
    then returns true
    else (do
      start ← deref ko.spec.start_replication_task
      returns (if not start then true else update_requires_stop ops delta))
