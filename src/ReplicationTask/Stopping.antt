-- ===== src/ReplicationTask/Stopping.antt =====
-- When a replication task is stopped, and that the two decisions never agree to act.
use ack_dms_controller.Base.{
  Option, Option-cases, String, arith, eq_iff, false, inl, inr, none, some, true, ◌↔◌, ◌≡◌, ◌≢◌,
  ◌⊎◌,
}
use ack_dms_controller.Compare.{DeltaOps}
use ack_dms_controller.Go.{Go-cases, panics, returns}
use ack_dms_controller.ReplicationTask.Hooks.{
  delete_requested, should_start_replication_task, should_stop_replication_task,
  update_requires_stop,
}
use ack_dms_controller.ReplicationTask.Starting.{should_start_iff}
use ack_dms_controller.ReplicationTask.StatusView.{
  View, failed, other, ready, running, starting, stopped, stopping, view,
}
use ack_dms_controller.ReplicationTask.Types.{ReplicationTask}

module _ {D : Type 0} (ops : DeltaOps D) where
  -- When a task is to be stopped.
  pub record MustStop (ko : ReplicationTask) (delta : Option D) : Type 0 where
    pub runs : ko.status.task_status ≡ some "running"
    pub cause :
        (delete_requested ko ≡ true)
        ⊎ ((ko.spec.start_replication_task ≡ some false)
            ⊎ ((ko.spec.start_replication_task ≡ some true)
                × (update_requires_stop ops delta ≡ true)))

  stop_of_view :
      (ko : ReplicationTask) (delta : Option D) (s : String)
      → View s
      → ko.status.task_status ≡ some s
      → should_stop_replication_task ops ko delta ≡ returns true
      → MustStop ko delta
  unfolding should_stop_replication_task
  stop_of_view ko delta _ failed e h = ground arith
  stop_of_view ko delta _ ready e h = ground arith
  stop_of_view ko delta _ running e h = ground arith
  stop_of_view ko delta _ stopped e h = ground arith
  stop_of_view ko delta _ starting e h = ground arith
  stop_of_view ko delta _ stopping e h = ground arith
  stop_of_view ko delta _ (other s n1 n2 n3 n4 n5 n6) e h = ground (
    arith,
    eq_iff "failed" s,
    eq_iff "ready" s,
    eq_iff "running" s,
    eq_iff "stopped" s,
    eq_iff s "failed",
    eq_iff s "ready",
    eq_iff s "running",
    eq_iff s "stopped",
  )

  no_stop_unknown :
      (ko : ReplicationTask) (delta : Option D)
      → ko.status.task_status ≡ none
      → should_stop_replication_task ops ko delta ≡ returns true
      → ⊥
  unfolding should_stop_replication_task
  no_stop_unknown ko delta e h = ground arith

  stop_of_MustStop :
      (ko : ReplicationTask) (delta : Option D)
      → MustStop ko delta
      → should_stop_replication_task ops ko delta ≡ returns true
  unfolding should_stop_replication_task
  stop_of_MustStop ko delta c = ground arith

  -- shouldStopReplicationTask answers yes exactly for a task that is running and whose deletion is
  -- requested, or whose start is requested not to be, or whose start is requested while the delta
  -- holds a change that needs a stop.
  pub should_stop_iff :
      (ko : ReplicationTask) (delta : Option D)
      → (should_stop_replication_task ops ko delta ≡ returns true) ↔ MustStop ko delta
  should_stop_iff ko delta = (
    λ h. elim (Option-cases ko.status.task_status) [
      | inl no_status ↦ absurd (no_stop_unknown ko delta no_status h)
      | inr (s, e) ↦ stop_of_view ko delta s (view s) e h
    ],
    stop_of_MustStop ko delta,
  )

  -- shouldStopReplicationTask reads no nil pointer.
  pub should_stop_total :
      (ko : ReplicationTask) (delta : Option D) → should_stop_replication_task ops ko delta ≢ panics
  unfolding should_stop_replication_task
  should_stop_total ko delta = ground arith

  -- A task that is to be started is not to be stopped, whatever the delta.
  pub start_excludes_stop :
      (ko : ReplicationTask) (delta : Option D)
      → should_start_replication_task ko ≡ returns true
      → should_stop_replication_task ops ko delta ≡ returns false
  start_excludes_stop ko delta h =
      let c = (should_start_iff ko).0 h in
      elim (Go-cases (should_stop_replication_task ops ko delta)) [
        | inl bad ↦ absurd (should_stop_total ko delta bad)
        | inr (true, e) ↦
            let m = (should_stop_iff ko delta).0 e in
            absurd (
              ground (
                arith,
                c.resting,
                m.runs,
                eq_iff "running" "failed",
                eq_iff "running" "ready",
                eq_iff "running" "stopped",
              ))
        | inr (false, e) ↦ e
      ]
