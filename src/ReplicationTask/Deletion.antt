-- ===== src/ReplicationTask/Deletion.antt =====
-- Which API calls a deletion of a replication task makes, and that it never reports success: the
-- resource stays managed until sdkFind no longer finds it.
use ack_dms_controller.Base.{
  Bool-cases, Option, Option-cases, String, ap, arith, contains, eq_iff, false, inl, inr, is_value,
  none, refl, some, true, ◌∙◌, ◌≡◌, ◌≢◌, ◌⊎◌,
}
use ack_dms_controller.Compare.{DeltaOps}
use ack_dms_controller.Go.{Go-cases, returns}
use ack_dms_controller.ReplicationTask.Api.{TaskEnv}
use ack_dms_controller.ReplicationTask.Delete.{
  deletable_statuses, delete_at_status, delete_if_deletable, requeue_in, sdk_delete, send_delete,
}
use ack_dms_controller.ReplicationTask.Hooks.{delete_requested, should_stop_replication_task}
use ack_dms_controller.ReplicationTask.Payload.{
  new_delete_request_payload, new_stop_replication_task_request_payload,
}
use ack_dms_controller.ReplicationTask.Sdk.{Result}
use ack_dms_controller.ReplicationTask.Stopping.{should_stop_iff, should_stop_total}
use ack_dms_controller.ReplicationTask.TaskStatus.{deleting}
use ack_dms_controller.ReplicationTask.Types.{ReplicationTask, with_task_status}
use ack_dms_controller.Runtime.{AtMostOneCall, M, Reply-cases, World, after_call}
use ack_dms_controller.Status.{ResourceManager, deref_arn}

-- The call that a deletion may make, by the state of the resource.
pub data DeleteStep (r : ReplicationTask) : String → Type 0 where
  stop : r.status.task_status ≡ some "running" → DeleteStep r "StopReplicationTask"
  remove :
      (r.status.task_status ≡ none)
        ⊎ ((r.status.task_status ≡ some "failed")
            ⊎ ((r.status.task_status ≡ some "ready") ⊎ (r.status.task_status ≡ some "stopped")))
      → DeleteStep r "DeleteReplicationTask"

deletable_cases :
    (s : String)
    → contains deletable_statuses s ≡ true
    → (s ≡ "running") ⊎ ((s ≡ "failed") ⊎ ((s ≡ "ready") ⊎ (s ≡ "stopped")))
deletable_cases s h =
    ground (arith, eq_iff "failed" s, eq_iff "ready" s, eq_iff "running" s, eq_iff "stopped" s)

idle_cases :
    (r : ReplicationTask) (s : String)
    → r.status.task_status ≡ some s
    → contains deletable_statuses s ≡ true
    → r.status.task_status ≢ some "running"
    → (r.status.task_status ≡ none)
      ⊎ ((r.status.task_status ≡ some "failed")
          ⊎ ((r.status.task_status ≡ some "ready") ⊎ (r.status.task_status ≡ some "stopped")))
idle_cases r s e free idle = elim (deletable_cases s free) [
  | inl runs ↦ absurd (idle (e ∙ ap some runs))
  | inr (inl is_failed) ↦ inr (inl (e ∙ ap some is_failed))
  | inr (inr (inl is_ready)) ↦ inr (inr (inl (e ∙ ap some is_ready)))
  | inr (inr (inr is_stopped)) ↦ inr (inr (inr (e ∙ ap some is_stopped)))
]

not_running :
    {D : Type 0} (ops : DeltaOps D) (r : ReplicationTask)
    → delete_requested r ≡ true
    → should_stop_replication_task ops r none ≡ returns false
    → r.status.task_status ≢ some "running"
not_running ops r asked no_stop runs =
    absurd
      (cc (no_stop, (should_stop_iff ops r none).1 (record { runs = runs; cause = inl asked })))

module _ {W E D : Type 0} (env : TaskEnv W E D) (rm : ResourceManager) where
  -- The method returns an error, having made at most one call, of those that `P` permits.
  abbrev pub Requeues : World W E → (String → Type 0) → M W E (ReplicationTask × Result E) → Type 0
  Requeues w P m =
      (r' : ReplicationTask) × (res : Option ReplicationTask) × (err : E) × (w' : World W E) × (m w
        ≡ returns ((r', (res, some err)), w'))
      × AtMostOneCall w.metrics w'.metrics P

  send_delete-Requeues :
      (r : ReplicationTask) (w : World W E)
      → DeleteStep r "DeleteReplicationTask"
      → Requeues w (DeleteStep r) (send_delete env rm r)
  unfolding send_delete
  send_delete-Requeues r w step =
      let answer = env.api.delete_replication_task (new_delete_request_payload r) w.cloud in
      let w' = after_call "DELETE" "DeleteReplicationTask" answer w in
      let r' = with_task_status "deleting" r in
      elim (Reply-cases answer.0) [
        | inl (u, good) ↦ (
          r',
          some r',
          requeue_in env rm "deleting" 30 " state",
          w',
          rw good refl,
          inr (_, refl, step),
        )
        | inr (e, bad) ↦ (r, none, e, w', rw bad refl, inr (_, refl, step))
      ]

  delete_if_deletable-Requeues :
      (r : ReplicationTask) (w : World W E)
      → r.status.task_status ≢ some "running"
      → Requeues w (DeleteStep r) (delete_if_deletable env rm r)
  unfolding delete_at_status
  delete_if_deletable-Requeues r w idle = elim (Option-cases r.status.task_status) [
    | inl no_status ↦
        let (r', res, err, w', ran, calls) = send_delete-Requeues r w (remove (inl no_status)) in
        (r', res, err, w', ap (λ o. delete_at_status env rm o r w) no_status ∙ ran, calls)
    | inr (s, e) ↦ elim (Bool-cases (contains deletable_statuses s)) [
      | inr busy ↦ (
        r,
        none,
        requeue_in env rm s 30 " state, cannot be deleted",
        w,
        ap (λ o. delete_at_status env rm o r w) e ∙ rw busy refl,
        inl refl,
      )
      | inl free ↦
          let (r', res, err, w', ran, calls) =
            send_delete-Requeues r w (remove (idle_cases r s e free idle)) in
          (r', res, err, w', ap (λ o. delete_at_status env rm o r w) e ∙ rw free ran, calls)
    ]
  ]

  stopping-Requeues :
      (r : ReplicationTask) (arn : String) (w : World W E)
      → is_value r.status.task_status "deleting" ≡ false
      → deref_arn r.status.ack ≡ returns arn
      → should_stop_replication_task env.delta_ops r none ≡ returns true
      → Requeues w (DeleteStep r) (sdk_delete env rm r)
  unfolding sdk_delete new_stop_replication_task_request_payload
  stopping-Requeues r arn w present has_arn yes_stop =
      let answer = env.api.stop_replication_task (some arn) w.cloud in
      let w' = after_call "UPDATE" "StopReplicationTask" answer w in
      let step = stop ((should_stop_iff env.delta_ops r none).0 yes_stop).runs in
      elim (Reply-cases answer.0) [
        | inl (u, good) ↦ (
          with_task_status "stopping" r,
          none,
          requeue_in env rm "stopping" 30 " state, cannot be deleted",
          w',
          rw (present, yes_stop, has_arn, good) refl,
          inr (_, refl, step),
        )
        | inr (e, bad) ↦
            (r, none, e, w', rw (present, yes_stop, has_arn, bad) refl, inr (_, refl, step))
      ]

  -- For a task whose deletion is requested and which has an ARN, sdkDelete returns an error always,
  -- and it makes at most one API call: StopReplicationTask only for a running task, and
  -- DeleteReplicationTask only for a task whose status is failed, ready, stopped or not known, so
  -- never for a running one.
  pub sdk_delete-Requeues :
      (r : ReplicationTask) (arn : String) (w : World W E)
      → delete_requested r ≡ true
      → deref_arn r.status.ack ≡ returns arn
      → Requeues w (DeleteStep r) (sdk_delete env rm r)
  unfolding sdk_delete
  sdk_delete-Requeues r arn w asked has_arn =
      elim (Bool-cases (is_value r.status.task_status "deleting")) [
        | inl deleting ↦
            (r, some r, requeue_in env rm "deleting" 60 " state", w, rw deleting refl, inl refl)
        | inr present ↦ elim (Go-cases (should_stop_replication_task env.delta_ops r none)) [
          | inl bad ↦ absurd (should_stop_total env.delta_ops r none bad)
          | inr (true, yes_stop) ↦ stopping-Requeues r arn w present has_arn yes_stop
          | inr (false, no_stop) ↦
              let (r', res, err, w', ran, calls) =
                delete_if_deletable-Requeues r w (not_running env.delta_ops r asked no_stop) in
              (r', res, err, w', rw (present, no_stop) ran, calls)
        ]
      ]
