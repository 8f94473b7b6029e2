-- ===== src/Manager/TaskDeletion.antt =====
-- The manager's Delete on a replication task.
use ack_dms_controller.Base.{String, some, true, ◌≡◌}
use ack_dms_controller.Go.{returns}
use ack_dms_controller.Manager.{Outcome, delete_resource}
use ack_dms_controller.Manager.Failing.{delete_resource_fails}
use ack_dms_controller.Manager.TaskKind.{FindsApiError, task_kind, terminal_aws_error}
use ack_dms_controller.ReplicationTask.Api.{TaskEnv}
use ack_dms_controller.ReplicationTask.Delete.{sdk_delete}
use ack_dms_controller.ReplicationTask.Deletion.{DeleteStep, sdk_delete-Requeues}
use ack_dms_controller.ReplicationTask.Hooks.{delete_requested}
use ack_dms_controller.ReplicationTask.Types.{ReplicationTask}
use ack_dms_controller.Runtime.{AtMostOneCall, M, World}
use ack_dms_controller.Status.{ResourceManager, deref_arn}
use ack_dms_controller.Tags.{AckTags}

module _ {W E D : Type 0} (env : TaskEnv W E D) (rm : ResourceManager)
    (visit : AckTags → AckTags) where
  -- Delete of manager.go with sdkDelete of the replication task.
  abbrev pub delete_task : ReplicationTask → M W E (ReplicationTask × Outcome ReplicationTask E)
  delete_task r =
      delete_resource task_kind visit env.errors env.names (terminal_aws_error env.errors) rm
        (sdk_delete env rm) r

  -- For a replication task whose deletion is requested and which has an ARN, where AWSError finds
  -- the API error of every error with a code, the manager's Delete returns a resource and an error
  -- always, so the ACK runtime keeps the finalizer, and it makes at most one API call:
  -- StopReplicationTask only for a running task, and DeleteReplicationTask only for a task whose
  -- status is failed, ready, stopped or not known.
  pub delete_task-fails :
      (r : ReplicationTask) (arn : String) (w : World W E)
      → FindsApiError env.errors
      → delete_requested r ≡ true
      → deref_arn r.status.ack ≡ returns arn
      → (r' res : ReplicationTask) × (err : E) × (w' : World W E) × (delete_task r w
          ≡ returns ((r', (some res, some err)), w'))
        × AtMostOneCall w.metrics w'.metrics (DeleteStep r)
  unfolding delete_resource
  delete_task-fails r arn w finds asked has_arn =
      let (r', res, e, w', ran, calls) = sdk_delete-Requeues env rm r arn w asked has_arn in
      let (last, err, failure) =
        delete_resource_fails task_kind visit env.errors env.names rm (sdk_delete env rm) r r' res e
          w w' finds ran in
      (r', last, err, w', failure, calls)
