-- ===== src/ReplicationTask/Creation.antt =====
-- What sdkCreate and a modification of a replication task return.
use ack_dms_controller.Base.{
  String, [], ap, false, if◌then◌else◌, inl, inr, none, or_default, refl, some, ◌++◌, ◌∷◌, ◌≡◌,
}
use ack_dms_controller.Go.{returns}
use ack_dms_controller.ReplicationTask.Api.{TaskEnv}
use ack_dms_controller.ReplicationTask.Merge.{merge_created}
use ack_dms_controller.ReplicationTask.Payload.{ensure_json_indented, new_create_request_payload}
use ack_dms_controller.ReplicationTask.Sdk.{Result, finish, sdk_create, with_status_defaults}
use ack_dms_controller.ReplicationTask.Types.{ReplicationTask}
use ack_dms_controller.Runtime.{ApiCall, Reply-cases, World, after_call}
use ack_dms_controller.Status.{ResourceManager}

pub some_injective : (a b : ReplicationTask) → some a ≡ some b → a ≡ b
some_injective a b h = ap (λ o. or_default o a) h

module _ {W E D : Type 0} (env : TaskEnv W E D) (rm : ResourceManager) where
  -- An error alone, or a resource: with one that is to be started, the error that has it looked at
  -- again after one second and that says `text`, with another one no error.
  pub data IsOutcome (text : String) : Result E → Type 0 where
    failure : (e : E) → IsOutcome text (none, some e)
    made :
        (ko : ReplicationTask)
        → IsOutcome text (
          some ko,
          if or_default ko.spec.start_replication_task false
              then some (env.errors.needed_after (some (env.errors.errorf text)) 1)
              else none,
        )

  finish-IsOutcome : (text : String) (ko : ReplicationTask) → IsOutcome text (finish env rm text ko)
  finish-IsOutcome text ko =
      elim (Reply-cases (ensure_json_indented env.json_indent (with_status_defaults env rm ko))) [
        | inr (e, bad) ↦ rw (bad, finish) (failure e)
        | inl (ko', good) ↦ rw (good, finish) (made ko')
      ]

  -- sdkCreate returns, having made the call CreateReplicationTask and no other; it returns a
  -- resource or an error; with a resource that is to be started it returns the error that has it
  -- looked at again after one second, with the text that it was created, and with another none.
  pub sdk_create-IsOutcome :
      (desired : ReplicationTask) (w : World W E)
      → (res : Result E) × (w' : World W E) × (c : ApiCall E) × (sdk_create env rm desired w
          ≡ returns (res, w'))
        × (w'.metrics ≡ w.metrics ++ (c ∷ []))
        × (c.op_id ≡ "CreateReplicationTask")
        × IsOutcome "resource created, requeue for start" res
  unfolding sdk_create
  sdk_create-IsOutcome desired w =
      let answer = env.api.create_replication_task (new_create_request_payload desired) w.cloud in
      let w' = after_call "CREATE" "CreateReplicationTask" answer w in
      elim (Reply-cases answer.0) [
        | inl (task, good) ↦
            let ko = merge_created task desired in
            let text : String = "resource created, requeue for start" in
            (finish env rm text ko, w', _, rw good refl, refl, refl, finish-IsOutcome text ko)
        | inr (e, bad) ↦ ((none, some e), w', _, rw bad refl, refl, refl, failure e)
      ]
