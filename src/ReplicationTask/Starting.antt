-- ===== src/ReplicationTask/Starting.antt =====
-- When a replication task is started, as conditions on the resource.
use ack_dms_controller.Base.{
  Bool-cases, Option, Option-cases, String, ap, arith, eq_iff, false, inl, inr, is_some, is_value,
  none, some, true, ◌&&◌, ◌==◌, ◌↔◌, ◌≡◌, ◌≢◌, ◌⊎◌,
}
use ack_dms_controller.Go.{panics, returns}
use ack_dms_controller.ReplicationTask.Hooks.{full_load_finished, should_start_replication_task}
use ack_dms_controller.ReplicationTask.StatusView.{
  View, failed, other, ready, running, starting, stopped, stopping, view,
}
use ack_dms_controller.ReplicationTask.Types.{ReplicationTask, ReplicationTaskStats}

-- A full-load task that has finished its load.
abbrev pub IsLoaded : ReplicationTask → Type 0
IsLoaded ko =
    (ko.spec.migration_type ≡ some "full-load")
    × (stats : ReplicationTaskStats) × (ko.status.stats ≡ some stats)
    × (is_some stats.full_load_finish_date ≡ true)

-- When a task is to be started.
pub record CanStart (ko : ReplicationTask) : Type 0 where
  pub wanted : ko.spec.start_replication_task ≡ some true
  pub kept : ko.deletion_timestamp ≡ none
  pub source_tested : ko.status.source_endpoint_connection_status ≡ some "successful"
  pub target_tested : ko.status.target_endpoint_connection_status ≡ some "successful"
  pub resting :
      (ko.status.task_status ≡ some "failed")
      ⊎ ((ko.status.task_status ≡ some "ready")
          ⊎ ((ko.status.task_status ≡ some "stopped")
              × (ko.spec.migration_type ≢ none)
              × (¬ IsLoaded ko)))

is_value-some : (o : Option String) (s : String) → is_value o s ≡ true → o ≡ some s
is_value-some none s h = cc
is_value-some (some t) s h = ap some ((eq_iff t s).0 h)

no_start_unknown :
    (ko : ReplicationTask)
    → ko.status.task_status ≡ none
    → should_start_replication_task ko ≡ returns true
    → ⊥
unfolding should_start_replication_task
no_start_unknown ko e h = ground arith

stopped_unloaded :
    (ko : ReplicationTask)
    → ko.status.task_status ≡ some "stopped"
    → should_start_replication_task ko ≡ returns true
    → (ko.spec.migration_type ≢ none) × (¬ IsLoaded ko)
unfolding should_start_replication_task
stopped_unloaded ko e h =
    (λ absent. ground arith, λ (full, stats, has_stats, finished). ground arith)

start_of_view :
    (ko : ReplicationTask) (s : String)
    → View s
    → ko.status.task_status ≡ some s
    → should_start_replication_task ko ≡ returns true
    → CanStart ko
unfolding should_start_replication_task
start_of_view ko _ failed e h = ground (
  arith,
  is_value-some ko.status.source_endpoint_connection_status "successful",
  is_value-some ko.status.target_endpoint_connection_status "successful",
)
start_of_view ko _ ready e h = ground (
  arith,
  is_value-some ko.status.source_endpoint_connection_status "successful",
  is_value-some ko.status.target_endpoint_connection_status "successful",
)
start_of_view ko _ running e h = ground arith
start_of_view ko _ stopped e h = ground (
  arith,
  is_value-some ko.status.source_endpoint_connection_status "successful",
  is_value-some ko.status.target_endpoint_connection_status "successful",
  stopped_unloaded ko e h,
)
start_of_view ko _ starting e h = ground arith
start_of_view ko _ stopping e h = ground arith
start_of_view ko _ (other s n1 n2 n3 n4 n5 n6) e h = ground (
  arith,
  eq_iff "failed" s,
  eq_iff "ready" s,
  eq_iff "running" s,
  eq_iff "stopped" s,
  eq_iff s "failed",
  eq_iff s "ready",
  eq_iff s "running",
  eq_iff s "stopped",
)

unloaded_test :
    (ko : ReplicationTask) (t : String)
    → ko.spec.migration_type ≡ some t
    → ¬ IsLoaded ko
    → (t == "full-load" && full_load_finished ko) ≡ false
unloaded_test ko t e unloaded = elim (Option-cases ko.status.stats) [
  | inl no_stats ↦ ground arith
  | inr (stats, has_stats) ↦ elim (Bool-cases (t == "full-load" && full_load_finished ko)) [
    | inr false_test ↦ false_test
    | inl true_test ↦
        absurd (unloaded (ground (arith, eq_iff t "full-load"), stats, has_stats, ground arith))
  ]
]

start_of_stopped :
    (ko : ReplicationTask) (t : String)
    → CanStart ko
    → ko.status.task_status ≡ some "stopped"
    → ko.spec.migration_type ≡ some t
    → ¬ IsLoaded ko
    → should_start_replication_task ko ≡ returns true
unfolding should_start_replication_task
start_of_stopped ko t c e typed unloaded =
    ground
      (arith, unloaded_test ko t typed unloaded, c.wanted, c.kept, c.source_tested, c.target_tested)

start_of_CanStart :
    (ko : ReplicationTask) → CanStart ko → should_start_replication_task ko ≡ returns true
unfolding should_start_replication_task
start_of_CanStart ko c = elim c.resting [
  | inl failed_status ↦ ground arith
  | inr (inl ready_status) ↦ ground arith
  | inr (inr (stopped_status, has_type, unloaded)) ↦ elim (Option-cases ko.spec.migration_type) [
    | inl no_type ↦ absurd (has_type no_type)
    | inr (t, typed) ↦ start_of_stopped ko t c stopped_status typed unloaded
  ]
]

-- shouldStartReplicationTask answers yes exactly for a task whose start is requested, whose deletion
-- is not, whose two endpoint connections are successful, and whose status is failed, ready, or
-- stopped with a migration type and without being a full-load migration that has finished its load.
pub should_start_iff :
    (ko : ReplicationTask) → (should_start_replication_task ko ≡ returns true) ↔ CanStart ko
should_start_iff ko = (
  λ h. elim (Option-cases ko.status.task_status) [
    | inl no_status ↦ absurd (no_start_unknown ko no_status h)
    | inr (s, e) ↦ start_of_view ko s (view s) e h
  ],
  start_of_CanStart ko,
)

-- With a migration type, shouldStartReplicationTask reads no nil pointer.
pub should_start_total :
    (ko : ReplicationTask) (type : String)
    → ko.spec.migration_type ≡ some type
    → should_start_replication_task ko ≢ panics
unfolding should_start_replication_task
should_start_total ko type typed = ground arith
