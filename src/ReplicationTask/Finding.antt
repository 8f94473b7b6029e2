-- ===== src/ReplicationTask/Finding.antt =====
-- What sdkFind returns.
use ack_dms_controller.Base.{
  [], if◌then◌else◌, inl, inr, is_value, none, or_default, refl, some, ◌∙◌, ◌∷◌,
}
use ack_dms_controller.ReplicationTask.Api.{SdkTask, TaskEnv}
use ack_dms_controller.ReplicationTask.FindParts.{
  AnswersCompletely, HasArns, IsComplete, ReturnsOutcome, ensure_json_indented-HasArns,
  find_connections-total, find_tags-total,
}
use ack_dms_controller.ReplicationTask.Merge.{merge_found}
use ack_dms_controller.ReplicationTask.Payload.{ensure_json_indented}
use ack_dms_controller.ReplicationTask.Sdk.{find_element, find_tags, sdk_find, with_status_defaults}
use ack_dms_controller.ReplicationTask.Types.{ReplicationTask}
use ack_dms_controller.Runtime.{>>=-returns, Reply-cases, World, after_call, reply}
use ack_dms_controller.Status.{ResourceManager}

module _ {W E D : Type 0} (env : TaskEnv W E D) (rm : ResourceManager) where
  find_element-total :
      (elem : SdkTask) (r : ReplicationTask) (w : World W E)
      → AnswersCompletely env.api
      → IsComplete elem
      → ReturnsOutcome w (find_element env rm elem r)
  unfolding find_element
  find_element-total elem r w complete (source, target, instance_arn) =
      let merged = with_status_defaults env rm (merge_found elem r) in
      let has_arns : HasArns merged.spec =
        unfold merge_found in
        record { source = source; target = target; instance_arn = instance_arn } in
      elim (Reply-cases (ensure_json_indented env.json_indent merged)) [
        | inr (e, bad) ↦ ((none, some e), w, rw bad refl, λ _ h. cc h)
        | inl (ko, good) ↦
            let h = ensure_json_indented-HasArns env.json_indent merged ko has_arns good in
            let (tagged, w1, ran, keeps) = find_tags-total env rm ko w h in
            elim (Reply-cases tagged) [
              | inr (e, failure) ↦ (
                (none, some e),
                w1,
                rw good (>>=-returns (find_tags env rm ko) _ ran ∙ rw failure refl),
                λ _ h. cc h,
              )
              | inl (ko', found) ↦
                  let (res, w2, ran2, loud) =
                    find_connections-total env rm ko' w1 complete (keeps ko' found) in
                  (res, w2, rw good (>>=-returns (find_tags env rm ko) _ ran ∙ rw found ran2), loud)
            ]
      ]

  -- Where every task that AWS lists has its endpoint and instance ARNs and every connection its
  -- endpoint ARN, sdkFind returns, and it returns a resource or an error.
  pub sdk_find-ReturnsOutcome :
      (r : ReplicationTask) (w : World W E)
      → AnswersCompletely env.api
      → ReturnsOutcome w (sdk_find env rm r)
  unfolding sdk_find
  sdk_find-ReturnsOutcome r w complete =
      let fs =
        record { name = "replication-task-id"; values = or_default r.spec.name "" ∷ [] } ∷ [] in
      let answer = env.api.describe_replication_tasks fs w.cloud in
      let w' = after_call "READ_MANY" "DescribeReplicationTasks" answer w in
      elim (Reply-cases answer.0) [
        | inr (e, bad) ↦ (
          (
            none,
            some (
                if is_value (env.errors.api_error_code e) "ResourceNotFoundFault"
                then env.errors.not_found
                else e),
          ),
          w',
          rw bad refl,
          λ _ h. cc h,
        )
        | inl ([], good) ↦ ((none, some env.errors.not_found), w', rw good refl, λ _ h. cc h)
        | inl (elem ∷ rest, good) ↦
            let (res, w2, ran, loud) =
              find_element-total elem r
                (after_call "READ_MANY" "DescribeReplicationTasks" (reply (elem ∷ rest), answer.1)
                  w)
                complete (complete.tasks fs w.cloud (elem ∷ rest) good).0 in
            (res, w2, rw good ran, loud)
      ]
