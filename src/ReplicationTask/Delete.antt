-- ===== src/ReplicationTask/Delete.antt =====
-- sdkDelete of sdk.go: stop, wait for a deletable status, delete. It writes the transient status
-- into the resource that it is given, which is returned first.
use ack_dms_controller.ReplicationTask.TaskStatus
use ack_dms_controller.Base.{
  List, Option, String, [], concat, contains, false, if◌then◌else◌, is_value, none, some, true, ℕ,
  ◌∷◌,
}
use ack_dms_controller.ReplicationTask.Api.{TaskEnv}
use ack_dms_controller.ReplicationTask.Hooks.{should_stop_replication_task}
use ack_dms_controller.ReplicationTask.Payload.{
  new_delete_request_payload, new_stop_replication_task_request_payload,
}
use ack_dms_controller.ReplicationTask.Sdk.{Result}
use ack_dms_controller.ReplicationTask.TaskStatus.{deleting, stopping}
use ack_dms_controller.ReplicationTask.Types.{ReplicationTask, with_task_status}
use ack_dms_controller.Runtime.{M, call, fault, lift, pure, reply, ◌>>=◌}
use ack_dms_controller.Status.{ResourceManager}

abbrev pub deletable_statuses : List String
deletable_statuses = "failed" ∷ "ready" ∷ "running" ∷ "stopped" ∷ []

module _ {W E D : Type 0} (env : TaskEnv W E D) (rm : ResourceManager) where
  open env use {api, errors, delta_ops}

  abbrev pub requeue_in : String → ℕ → String → E
  requeue_in status seconds rest =
      errors.needed_after (some (errors.errorf (concat ("resource is in " ∷ status ∷ rest ∷ []))))
        seconds

  -- The part of sdkDelete that sends DeleteReplicationTask.
  unfoldable pub send_delete : ReplicationTask → M W E (ReplicationTask × Result E)
  send_delete r = do
    resp ←
        call "DELETE" "DeleteReplicationTask"
          (api.delete_replication_task (new_delete_request_payload r))
    elim resp [
      | fault e ↦ pure (r, (none, some e))
      | reply _ ↦
          let r' = with_task_status TaskStatus.deleting r in
          pure (r', (some r', some (requeue_in TaskStatus.deleting 30 " state")))
    ]

  -- The test of the status before that.
  unfoldable pub delete_at_status :
      Option String → ReplicationTask → M W E (ReplicationTask × Result E)
  delete_at_status none r = send_delete r
  delete_at_status (some s) r =
      if contains deletable_statuses s
      then send_delete r
      else pure (r, (none, some (requeue_in s 30 " state, cannot be deleted")))

  abbrev pub delete_if_deletable : ReplicationTask → M W E (ReplicationTask × Result E)
  delete_if_deletable r = delete_at_status r.status.task_status r

  unfoldable pub sdk_delete : ReplicationTask → M W E (ReplicationTask × Result E)
  unfolding delete_at_status send_delete
  sdk_delete r =
      if is_value r.status.task_status TaskStatus.deleting
      then pure (r, (some r, some (requeue_in TaskStatus.deleting 60 " state")))
      else (do
        halt ← lift (should_stop_replication_task delta_ops r none)
        elim halt [
          | true ↦ do
            arn ← lift (new_stop_replication_task_request_payload r)
            resp ← call "UPDATE" "StopReplicationTask" (api.stop_replication_task arn)
            elim resp [
              | fault e ↦ pure (r, (none, some e))
              | reply _ ↦ delete_if_deletable (with_task_status TaskStatus.stopping r)
            ]
          | false ↦ delete_if_deletable r
        ])
