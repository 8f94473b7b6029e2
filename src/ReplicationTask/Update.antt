-- ===== src/ReplicationTask/Update.antt =====
-- sdkUpdate of sdk.go: tags, stop, start, or modify. Stop and start write the transient status into
-- `latest`, and return it.
use ack_dms_controller.ReplicationTask.TaskStatus
use ack_dms_controller.Base.{
  Bool, Option, String, [], concat, elements, false, if◌then◌else◌, none, not, some, true, ◌&&◌,
  ◌∷◌,
}
use ack_dms_controller.Go.{Go, deref, returns}
use ack_dms_controller.ReplicationTask.Api.{TaskEnv}
use ack_dms_controller.ReplicationTask.Hooks.{
  already_stopped, should_start_replication_task, should_stop_replication_task,
  update_requires_stop,
}
use ack_dms_controller.ReplicationTask.Merge.{merge_modified}
use ack_dms_controller.ReplicationTask.Payload.{
  new_start_replication_task_request_payload, new_stop_replication_task_request_payload,
  new_update_request_payload,
}
use ack_dms_controller.ReplicationTask.Sdk.{Result, finish}
use ack_dms_controller.ReplicationTask.TaskStatus.{starting, stopping}
use ack_dms_controller.ReplicationTask.Types.{ReplicationTask, with_task_status}
use ack_dms_controller.Runtime.{M, call, fault, lift, pure, reply, ◌>>=◌}
use ack_dms_controller.Status.{ResourceManager}
use ack_dms_controller.TagSync.{sync_tags}

module _ {W E D : Type 0} (env : TaskEnv W E D) (rm : ResourceManager) where
  open env use {api, errors, delta_ops}

  -- The hook that stops the task; it returns `latest` with the status that it then has.
  unfoldable pub stop_task : ReplicationTask → M W E (Result E)
  stop_task latest = do
    arn ← lift (new_stop_replication_task_request_payload latest)
    resp ← call "UPDATE" "StopReplicationTask" (api.stop_replication_task arn)
    elim resp [
      | fault e ↦ pure (none, some e)
      | reply _ ↦ pure (some (with_task_status TaskStatus.stopping latest), none)
    ]

  -- The hook that starts the task.
  unfoldable pub start_task : ReplicationTask → M W E (Result E)
  start_task latest = do
    input ← lift (new_start_replication_task_request_payload latest)
    resp ← call "UPDATE" "StartReplicationTask" (api.start_replication_task input)
    elim resp [
      | fault e ↦ pure (none, some e)
      | reply _ ↦ pure (some (with_task_status TaskStatus.starting latest), none)
    ]

  -- The call of ModifyReplicationTask, and what follows it.
  unfoldable pub modify_task : ReplicationTask → M W E (Result E)
  modify_task desired = do
    resp ←
        call "UPDATE" "ModifyReplicationTask"
          (api.modify_replication_task (new_update_request_payload desired))
    elim resp [
      | fault e ↦ pure (none, some e)
      | reply task ↦
          pure (finish env rm "resource updated, requeue for start" (merge_modified task desired))
    ]

  abbrev pub cannot_update : String → E
  cannot_update status =
      errors.needed_after
        (some
          (errors.errorf (concat ("resource is in " ∷ status ∷ " state, cannot be updated" ∷ []))))
        30

  -- The third hook, which refuses to update a task that is not stopped, and what follows it.
  unfoldable pub modify_stopped : ReplicationTask → ReplicationTask → D → M W E (Result E)
  modify_stopped desired latest delta =
      if update_requires_stop delta_ops (some delta) && not (already_stopped latest)
      then (do
        status ← lift (deref latest.status.task_status)
        pure (none, some (cannot_update status)))
      else modify_task desired

  -- Whether the second hook starts the task.
  unfoldable pub start_now : ReplicationTask → D → Go Bool
  start_now latest delta =
      if not (delta_ops.different_except delta ("Spec.StartReplicationTask" ∷ []))
      then should_start_replication_task latest
      else returns false

  -- sdkUpdate once the tags are in sync and something else differs.
  unfoldable pub update_task : ReplicationTask → ReplicationTask → D → M W E (Result E)
  unfolding start_now
  update_task desired latest delta = do
    stop ← lift (should_stop_replication_task delta_ops latest (some delta))
    elim stop [
      | true ↦ stop_task latest
      | false ↦ do
        start ← lift (start_now latest delta)
        elim start [ true ↦ start_task latest | false ↦ modify_stopped desired latest delta ]
    ]

  unfoldable pub sync_task_tags : ReplicationTask → ReplicationTask → D → M W E (Option E)
  sync_task_tags desired latest delta =
      if delta_ops.different_at delta "Spec.Tags"
      then sync_tags api.tag_api (elements desired.spec.tags) latest.status.ack
          (elements latest.spec.tags)
      else pure none

  unfoldable pub sdk_update : ReplicationTask → ReplicationTask → D → M W E (Result E)
  unfolding sync_task_tags update_task
  sdk_update desired latest delta = do
    err ← sync_task_tags desired latest delta
    elim err [
      | some e ↦ pure (none, some e)
      | none ↦
          if not (delta_ops.different_except delta ("Spec.Tags" ∷ []))
          then pure (some desired, none)
          else update_task desired latest delta
    ]
