-- ===== src/Tests/InstanceTests.antt =====
-- The theorems on replication instances at concrete inputs.
use ack_dms_controller.Base.{
  List, Option, String, [], none, not, refl, some, starts_with, true, ◌&&◌, ◌==◌, ◌||◌, ◌∷◌, ◌≡◌,
}
use ack_dms_controller.Go.{returns}
use ack_dms_controller.Integer.{pos}
use ack_dms_controller.Manager.InstanceKind.{delete_instance, delete_instance-fails}
use ack_dms_controller.ReplicationInstance.Bounds.{Carries, instance_storage-Carries}
use ack_dms_controller.ReplicationInstance.Delta.{new_instance_delta}
use ack_dms_controller.ReplicationInstance.Guards.{
  DeleteCall, Proceeds, update_replication_instance-Proceeds,
}
use ack_dms_controller.ReplicationInstance.Hooks.{leading_digits}
use ack_dms_controller.ReplicationInstance.Payload.{
  if_different, new_create_instance_payload, new_modify_instance_payload,
}
use ack_dms_controller.ReplicationInstance.Sdk.{
  InstanceResult, sync_instance_tags, update_replication_instance,
}
use ack_dms_controller.ReplicationInstance.Types.{ReplicationInstance}
use ack_dms_controller.ReplicationInstance.Versions.{new_instance_delta-version}
use ack_dms_controller.Runtime.{AtMostOneCall, World}
use ack_dms_controller.Tags.{AckTags}
use ack_dms_controller.Tests.InstanceSamples.{
  instance_at, instance_comparisons, instance_comparisons-NilLaws, sample_instance_env,
}
use ack_dms_controller.Tests.SampleApi.{tag_world}
use ack_dms_controller.Tests.Samples.{account, in_order, sample_errors}
use ack_dms_controller.Tests.TaskSamples.{different_in, path_ops, path_ops-DeltaLaws}

-- A storage that is no int32, and a delta that is different at it.
abbrev too_large : ReplicationInstance
too_large = record (instance_at "3.5.2" "available") {
  spec = record ((instance_at "3.5.2" "available").spec) {
    allocated_storage = some (pos 4294967346);
  };
}

instance_storage-Carries_example :
    Carries sample_errors too_large.spec.allocated_storage
      (λ i. i.allocated_storage)
      (new_create_instance_payload sample_errors too_large)
    × Carries sample_errors
        (if_different sample_errors path_ops
          ("Spec.AllocatedStorage" ∷ [])
          "Spec.AllocatedStorage"
          too_large.spec.allocated_storage)
        (λ i. i.allocated_storage)
        (new_modify_instance_payload sample_errors path_ops too_large
          ("Spec.AllocatedStorage" ∷ []))
instance_storage-Carries_example =
    instance_storage-Carries sample_errors path_ops too_large ("Spec.AllocatedStorage" ∷ [])

new_instance_delta-version_example :
    (v : Option String) × (d : List String) × (new_instance_delta instance_comparisons path_ops
        (some (instance_at "3.6.0" "available"))
        (some (instance_at "3.5.2" "available"))
      ≡ returns (
        some (record (instance_at "3.6.0" "available") {
          spec = record ((instance_at "3.6.0" "available").spec) { engine_version = v };
        }),
        d,
      ))
    × (path_ops.different_at d "Spec.EngineVersion" ≡ (
        (not true || not (leading_digits "3.6.0" == leading_digits "3.5.2"))
        && not ("3.6.0" == "3.5.2")))
new_instance_delta-version_example =
    new_instance_delta-version instance_comparisons path_ops starts_with path_ops-DeltaLaws
      (instance_at "3.6.0" "available") (instance_at "3.5.2" "available") "3.6.0" "3.5.2"
      instance_comparisons-NilLaws refl refl

update_replication_instance-Proceeds_example :
    (res : InstanceResult String) × (w' : World AckTags String) × (update_replication_instance
        sample_instance_env account
        (instance_at "3.6.0" "available")
        (instance_at "3.5.2" "creating")
        ("Spec.MultiAZ" ∷ [])
        tag_world
      ≡ returns (res, w'))
    × Proceeds sample_instance_env account (some "creating") none tag_world res w'
unfolding sync_instance_tags different_in
update_replication_instance-Proceeds_example =
    update_replication_instance-Proceeds sample_instance_env account
      (instance_at "3.6.0" "available") (instance_at "3.5.2" "creating") ("Spec.MultiAZ" ∷ []) none
      tag_world tag_world refl

delete_instance-fails_example :
    (r' res : ReplicationInstance) × (err : String) × (w' : World AckTags String) × (delete_instance
        sample_instance_env account in_order
        (instance_at "3.5.2" "available")
        tag_world
      ≡ returns ((r', (some res, some err)), w'))
    × AtMostOneCall tag_world.metrics w'.metrics (DeleteCall (some "available"))
delete_instance-fails_example =
    delete_instance-fails sample_instance_env account in_order (instance_at "3.5.2" "available")
      tag_world (λ e code h. (e, refl))
