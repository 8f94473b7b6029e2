-- ===== src/ReplicationTask/Routing.antt =====
-- Which API calls an update of a replication task makes, and in which state of the task.
use ack_dms_controller.Base.{
  Bool-cases, Option-cases, String, [], arith, false, if◌then◌else◌, inl, inr, is_some, is_value,
  none, not, refl, some, true, ◌&&◌, ◌∷◌, ◌≡◌, ◌≢◌, ◌⊎◌,
}
use ack_dms_controller.Go.{Go-cases, panics, returns}
use ack_dms_controller.ReplicationTask.Api.{StartReplicationTaskInput, TaskEnv}
use ack_dms_controller.ReplicationTask.Hooks.{
  already_stopped, should_stop_replication_task, update_requires_stop,
}
use ack_dms_controller.ReplicationTask.Merge.{merge_modified}
use ack_dms_controller.ReplicationTask.Payload.{
  new_start_replication_task_request_payload, new_stop_replication_task_request_payload,
  new_update_request_payload, resume_processing, start_replication,
}
use ack_dms_controller.ReplicationTask.Sdk.{Result, finish}
use ack_dms_controller.ReplicationTask.Starting.{CanStart, should_start_iff, should_start_total}
use ack_dms_controller.ReplicationTask.Stopping.{MustStop, should_stop_iff, should_stop_total}
use ack_dms_controller.ReplicationTask.Types.{ReplicationTask, with_task_status}
use ack_dms_controller.ReplicationTask.Update.{
  cannot_update, modify_stopped, modify_task, start_now, start_task, stop_task, update_task,
}
use ack_dms_controller.Runtime.{AtMostOneCall, M, Reply-cases, World, after_call}
use ack_dms_controller.Status.{ResourceManager, deref_arn}

pub start_payload-total :
    (latest : ReplicationTask) (arn : String)
    → deref_arn latest.status.ack ≡ returns arn
    → (input : StartReplicationTaskInput) × (new_start_replication_task_request_payload latest
        ≡ returns input)
unfolding new_start_replication_task_request_payload
start_payload-total latest arn has_arn = (
  record {
    replication_task_arn = some arn;
    start_replication_task_type =
        if is_some latest.status.task_status && not (is_value latest.status.task_status "ready")
        then resume_processing
        else start_replication;
  },
  rw has_arn refl,
)

-- A task that is not stopped has a status.
running_status :
    (latest : ReplicationTask)
    → already_stopped latest ≡ false
    → (s : String) × (latest.status.task_status ≡ some s)
unfolding already_stopped
running_status latest h = elim (Option-cases latest.status.task_status) [
  | inl no_status ↦ absurd (ground arith)
  | inr found ↦ found
]

module _ {W E D : Type 0} (env : TaskEnv W E D) (rm : ResourceManager) where
  -- The call that an update may make, by the state of the latest resource.
  pub data Permitted (latest : ReplicationTask) (delta : D) : String → Type 0 where
    stop : MustStop env.delta_ops latest (some delta) → Permitted latest delta "StopReplicationTask"
    start :
        CanStart latest
        → env.delta_ops.different_except delta ("Spec.StartReplicationTask" ∷ []) ≡ false
        → Permitted latest delta "StartReplicationTask"
    modify :
        should_stop_replication_task env.delta_ops latest (some delta) ≡ returns false
        → (update_requires_stop env.delta_ops (some delta) ≡ false)
          ⊎ (already_stopped latest ≡ true)
        → Permitted latest delta "ModifyReplicationTask"

  -- The method returns, having made at most one call, of those that are permitted.
  abbrev pub MakesPermittedCall : ReplicationTask → D → World W E → M W E (Result E) → Type 0
  MakesPermittedCall latest delta w m =
      (res : Result E) × (w' : World W E) × (m w ≡ returns (res, w'))
      × AtMostOneCall w.metrics w'.metrics (Permitted latest delta)

  stop_task-Permitted :
      (latest : ReplicationTask) (delta : D) (arn : String) (w : World W E)
      → deref_arn latest.status.ack ≡ returns arn
      → MustStop env.delta_ops latest (some delta)
      → MakesPermittedCall latest delta w (stop_task env rm latest)
  unfolding stop_task new_stop_replication_task_request_payload
  stop_task-Permitted latest delta arn w has_arn must =
      let answer = env.api.stop_replication_task (some arn) w.cloud in
      let w' = after_call "UPDATE" "StopReplicationTask" answer w in
      elim (Reply-cases answer.0) [
        | inl (u, good) ↦ (
          (some (with_task_status "stopping" latest), none),
          w',
          rw (has_arn, good) refl,
          inr (_, refl, stop must),
        )
        | inr (e, bad) ↦ ((none, some e), w', rw (has_arn, bad) refl, inr (_, refl, stop must))
      ]

  start_task-Permitted :
      (latest : ReplicationTask) (delta : D) (arn : String) (w : World W E)
      → deref_arn latest.status.ack ≡ returns arn
      → CanStart latest
      → env.delta_ops.different_except delta ("Spec.StartReplicationTask" ∷ []) ≡ false
      → MakesPermittedCall latest delta w (start_task env rm latest)
  unfolding start_task
  start_task-Permitted latest delta arn w has_arn can only =
      let (input, built) = start_payload-total latest arn has_arn in
      let answer = env.api.start_replication_task input w.cloud in
      let w' = after_call "UPDATE" "StartReplicationTask" answer w in
      elim (Reply-cases answer.0) [
        | inl (u, good) ↦ (
          (some (with_task_status "starting" latest), none),
          w',
          rw (built, good) refl,
          inr (_, refl, start can only),
        )
        | inr (e, bad) ↦ ((none, some e), w', rw (built, bad) refl, inr (_, refl, start can only))
      ]

  modify_task-Permitted :
      (desired latest : ReplicationTask) (delta : D) (w : World W E)
      → Permitted latest delta "ModifyReplicationTask"
      → MakesPermittedCall latest delta w (modify_task env rm desired)
  unfolding modify_task
  modify_task-Permitted desired latest delta w p =
      let answer = env.api.modify_replication_task (new_update_request_payload desired) w.cloud in
      let w' = after_call "UPDATE" "ModifyReplicationTask" answer w in
      elim (Reply-cases answer.0) [
        | inl (task, good) ↦ (
          finish env rm "resource updated, requeue for start" (merge_modified task desired),
          w',
          rw good refl,
          inr (_, refl, p),
        )
        | inr (e, bad) ↦ ((none, some e), w', rw bad refl, inr (_, refl, p))
      ]

  modify_stopped-Permitted :
      (desired latest : ReplicationTask) (delta : D) (w : World W E)
      → should_stop_replication_task env.delta_ops latest (some delta) ≡ returns false
      → MakesPermittedCall latest delta w (modify_stopped env rm desired latest delta)
  unfolding modify_stopped
  modify_stopped-Permitted desired latest delta w no_stop =
      elim (Bool-cases
        (update_requires_stop env.delta_ops (some delta) && not (already_stopped latest))) [
          | inl refused ↦
              let (s, e) = running_status latest (ground (arith, refused)) in
              ((none, some (cannot_update env rm s)), w, rw (refused, e) refl, inl refl)
          | inr free ↦
              rw free (
                modify_task-Permitted desired latest delta w
                  (modify no_stop (ground (arith, free))))
        ]

  start_now-CanStart :
      (latest : ReplicationTask) (delta : D)
      → start_now env rm latest delta ≡ returns true
      → CanStart latest
        × (env.delta_ops.different_except delta ("Spec.StartReplicationTask" ∷ []) ≡ false)
  unfolding start_now
  start_now-CanStart latest delta h =
      elim (Bool-cases (env.delta_ops.different_except delta ("Spec.StartReplicationTask" ∷ []))) [
        | inl more ↦ absurd (cc (rw more at h))
        | inr only ↦ ((should_start_iff latest).0 (rw only at h), only)
      ]

  start_now-total :
      (latest : ReplicationTask) (delta : D) (type : String)
      → latest.spec.migration_type ≡ some type
      → start_now env rm latest delta ≢ panics
  unfolding start_now
  start_now-total latest delta type typed = ground (arith, should_start_total latest type typed)

  -- With an ARN and a migration type on the latest resource, the part of sdkUpdate after the tags
  -- returns, and it makes at most one API call, by the state of the latest resource:
  -- StopReplicationTask only for a task that is to be stopped, StartReplicationTask only for one
  -- that is to be started and where nothing but StartReplicationTask differs, and
  -- ModifyReplicationTask only where no stop is due and the task is stopped or the delta needs no stop.
  pub update_task-Permitted :
      (desired latest : ReplicationTask) (delta : D) (arn type : String) (w : World W E)
      → deref_arn latest.status.ack ≡ returns arn
      → latest.spec.migration_type ≡ some type
      → MakesPermittedCall latest delta w (update_task env rm desired latest delta)
  unfolding update_task
  update_task-Permitted desired latest delta arn type w has_arn typed =
      elim (Go-cases (should_stop_replication_task env.delta_ops latest (some delta))) [
        | inl bad ↦ absurd (should_stop_total env.delta_ops latest (some delta) bad)
        | inr (true, yes_stop) ↦ rw yes_stop (
            stop_task-Permitted latest delta arn w has_arn
              ((should_stop_iff env.delta_ops latest (some delta)).0 yes_stop))
        | inr (false, no_stop) ↦ rw no_stop (elim (Go-cases (start_now env rm latest delta)) [
          | inl bad ↦ absurd (start_now-total latest delta type typed bad)
          | inr (true, yes_start) ↦
              let (can, only) = start_now-CanStart latest delta yes_start in
              rw yes_start (start_task-Permitted latest delta arn w has_arn can only)
          | inr (false, no_start) ↦
              rw no_start (modify_stopped-Permitted desired latest delta w no_stop)
        ])
      ]
