-- ===== src/ReplicationTask/Syncing.antt =====
-- IsSynced of manager.go for a replication task, and the states that the hooks of sdkUpdate leave.
use ack_dms_controller.Base.{
  Bool, List, String, [], contains, false, inl, inr, none, refl, some, subst, ◌∷◌, ◌≡◌,
}
use ack_dms_controller.Go.{returns}
use ack_dms_controller.ReplicationTask.Api.{TaskEnv}
use ack_dms_controller.ReplicationTask.Creation.{some_injective}
use ack_dms_controller.ReplicationTask.Payload.{new_stop_replication_task_request_payload}
use ack_dms_controller.ReplicationTask.Routing.{start_payload-total}
use ack_dms_controller.ReplicationTask.Sdk.{Result}
use ack_dms_controller.ReplicationTask.Types.{ReplicationTask, with_task_status}
use ack_dms_controller.ReplicationTask.Update.{start_task, stop_task}
use ack_dms_controller.Runtime.{M, Reply-cases, World, after_call}
use ack_dms_controller.Status.{ResourceManager, deref_arn}

abbrev task_status_candidates : List String
task_status_candidates = "failed" ∷ "ready" ∷ "running" ∷ "stopped" ∷ []

unfoldable pub is_synced : ReplicationTask → Bool
is_synced ko = elim ko.status.task_status [
  | none ↦ false
  | some s ↦ contains task_status_candidates s
]

module _ {W E D : Type 0} (env : TaskEnv W E D) (rm : ResourceManager) where
  -- The method returns, and a resource that it returns is not synced.
  abbrev pub LeavesUnsynced : World W E → M W E (Result E) → Type 0
  LeavesUnsynced w m =
      (res : Result E) × (w' : World W E) × (m w ≡ returns (res, w'))
      × ((ko : ReplicationTask) → res.0 ≡ some ko → is_synced ko ≡ false)

  unsynced :
      (s : String) (latest ko : ReplicationTask)
      → contains task_status_candidates s ≡ false
      → some (with_task_status s latest) ≡ some ko
      → is_synced ko ≡ false
  unfolding is_synced
  unsynced s latest ko transient e =
      subst (λ t. is_synced t ≡ false) (some_injective (with_task_status s latest) ko e) transient

  -- For a task with an ARN, the hooks of sdkUpdate that stop and that start it return, and leave a
  -- resource that IsSynced does not call synced, so that the ACK runtime looks at it again.
  pub stop_start-LeavesUnsynced :
      (latest : ReplicationTask) (arn : String) (w : World W E)
      → deref_arn latest.status.ack ≡ returns arn
      → LeavesUnsynced w (stop_task env rm latest) × LeavesUnsynced w (start_task env rm latest)
  unfolding stop_task start_task new_stop_replication_task_request_payload
  stop_start-LeavesUnsynced latest arn w has_arn =
      let halt = env.api.stop_replication_task (some arn) w.cloud in
      let (input, built) = start_payload-total latest arn has_arn in
      let begin = env.api.start_replication_task input w.cloud in
      (
        elim (Reply-cases halt.0) [
          | inr (e, bad) ↦ (
            (none, some e),
            after_call "UPDATE" "StopReplicationTask" halt w,
            rw (has_arn, bad) refl,
            λ ko h. absurd (cc h),
          )
          | inl (u, good) ↦ (
            (some (with_task_status "stopping" latest), none),
            after_call "UPDATE" "StopReplicationTask" halt w,
            rw (has_arn, good) refl,
            λ ko h. unsynced "stopping" latest ko refl h,
          )
        ],
        elim (Reply-cases begin.0) [
          | inr (e, bad) ↦ (
            (none, some e),
            after_call "UPDATE" "StartReplicationTask" begin w,
            rw (built, bad) refl,
            λ ko h. absurd (cc h),
          )
          | inl (u, good) ↦ (
            (some (with_task_status "starting" latest), none),
            after_call "UPDATE" "StartReplicationTask" begin w,
            rw (built, good) refl,
            λ ko h. unsynced "starting" latest ko refl h,
          )
        ],
      )
