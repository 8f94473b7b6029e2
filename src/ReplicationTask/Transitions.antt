-- ===== src/ReplicationTask/Transitions.antt =====
-- What the hooks of sdkUpdate that start and stop a replication task do, for a task with an ARN.
use ack_dms_controller.Base.{
  Bool-cases, Option, Option-cases, String, [], if◌then◌else◌, inl, inr, none, refl, some, ◌++◌,
  ◌==◌, ◌∷◌, ◌≡◌,
}
use ack_dms_controller.Go.{Go, returns}
use ack_dms_controller.ReplicationTask.Api.{StartReplicationTaskInput, TaskEnv}
use ack_dms_controller.ReplicationTask.Payload.{
  new_start_replication_task_request_payload, new_stop_replication_task_request_payload,
}
use ack_dms_controller.ReplicationTask.Sdk.{Result}
use ack_dms_controller.ReplicationTask.Types.{ReplicationTask, with_task_status}
use ack_dms_controller.ReplicationTask.Update.{start_task, stop_task}
use ack_dms_controller.Runtime.{Reply, Reply-cases, World, error_of, fault, reply}
use ack_dms_controller.Status.{ResourceManager, deref_arn}

-- How a task is started: one without a status or that is ready anew, any other where it stopped.
abbrev pub start_kind : Option String → String
start_kind none = "start-replication"
start_kind (some s) = if s == "ready" then "start-replication" else "resume-processing"

-- The request that starts a task.
abbrev pub start_input : String → ReplicationTask → StartReplicationTaskInput
start_input arn latest = record {
  replication_task_arn = some arn;
  start_replication_task_type = start_kind latest.status.task_status;
}

start_payload-start_input :
    (latest : ReplicationTask) (arn : String)
    → deref_arn latest.status.ack ≡ returns arn
    → new_start_replication_task_request_payload latest ≡ returns (start_input arn latest)
unfolding new_start_replication_task_request_payload
start_payload-start_input latest arn has_arn =
    rw has_arn (elim (Option-cases latest.status.task_status) [
      | inl absent ↦ rw absent refl
      | inr (s, e) ↦ rw e (elim (Bool-cases (s == "ready")) [
        | inl anew ↦ rw anew refl
        | inr resumed ↦ rw resumed refl
      ])
    ])

-- What a call that starts or stops a task leads to: the task in its transient status, or the error.
abbrev pub in_transition : {E : Type 0} → String → ReplicationTask → Reply (Unit {0}) E → Result E
in_transition status latest (reply _) = (some (with_task_status status latest), none)
in_transition status latest (fault e) = (none, some e)

module _ {W E D : Type 0} (env : TaskEnv W E D) (rm : ResourceManager) where
  -- One call of StartReplicationTask, for the ARN and of the kind of the task's status, and nothing
  -- else.
  abbrev pub starting_call : String → ReplicationTask → World W E → Go (Result E × World W E)
  starting_call arn latest w =
      let answer = env.api.start_replication_task (start_input arn latest) w.cloud in
      returns (
        in_transition "starting" latest answer.0,
        record {
          cloud = answer.1;
          metrics =
              w.metrics
              ++ (record {
                op_type = "UPDATE";
                op_id = "StartReplicationTask";
                error = error_of answer.0;
              }
                  ∷ []);
        },
      )

  -- One call of StopReplicationTask, for the ARN, and nothing else.
  abbrev pub stopping_call : String → ReplicationTask → World W E → Go (Result E × World W E)
  stopping_call arn latest w =
      let answer = env.api.stop_replication_task (some arn) w.cloud in
      returns (
        in_transition "stopping" latest answer.0,
        record {
          cloud = answer.1;
          metrics =
              w.metrics
              ++ (record {
                op_type = "UPDATE";
                op_id = "StopReplicationTask";
                error = error_of answer.0;
              }
                  ∷ []);
        },
      )

  pub start_task-starting_call :
      (latest : ReplicationTask) (arn : String) (w : World W E)
      → deref_arn latest.status.ack ≡ returns arn
      → start_task env rm latest w ≡ starting_call arn latest w
  unfolding start_task
  start_task-starting_call latest arn w has_arn =
      let input = start_input arn latest in
      let built = start_payload-start_input latest arn has_arn in
      elim (Reply-cases (env.api.start_replication_task input w.cloud).0) [
        | inl (u, good) ↦ rw (built, good) refl
        | inr (e, bad) ↦ rw (built, bad) refl
      ]

  pub stop_task-stopping_call :
      (latest : ReplicationTask) (arn : String) (w : World W E)
      → deref_arn latest.status.ack ≡ returns arn
      → stop_task env rm latest w ≡ stopping_call arn latest w
  unfolding stop_task new_stop_replication_task_request_payload
  stop_task-stopping_call latest arn w has_arn =
      elim (Reply-cases (env.api.stop_replication_task (some arn) w.cloud).0) [
        | inl (u, good) ↦ rw (has_arn, good) refl
        | inr (e, bad) ↦ rw (has_arn, bad) refl
      ]
