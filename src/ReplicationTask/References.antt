-- ===== src/ReplicationTask/References.antt =====
-- references.go of pkg/resource/replication_task.
pub mod RoundTrip
pub mod Resolved
use ack_dms_controller.Base.{Bool, List, Option, [], true, ◌∷◌}
use ack_dms_controller.Manager.TaskKind.{task_kind}
use ack_dms_controller.References.{
  ReferenceEnv, ReferenceField, ReferenceTarget, clear_resolved_references, resolve_references,
  validate_reference_fields,
}
use ack_dms_controller.References.Shapes.{scalar}
use ack_dms_controller.ReplicationTask.Types.{ReplicationTask}

abbrev pub replication_instance_target : ReferenceTarget
replication_instance_target = record {
  kind = "ReplicationInstance";
  field_name = "Status.ACKResourceMetadata.ARN";
}

abbrev pub endpoint_target : ReferenceTarget
endpoint_target = record { kind = "Endpoint"; field_name = "Status.ACKResourceMetadata.ARN" }

abbrev pub replication_instance_arn_field : ReferenceField ReplicationTask
replication_instance_arn_field =
    scalar "ReplicationInstanceARN" "ReplicationInstanceRef" true replication_instance_target
      (λ ko. ko.spec.replication_instance_ref) (λ ko. ko.spec.replication_instance_arn)
      (λ o ko. record ko { spec = record (ko.spec) { replication_instance_arn = o } })

abbrev pub source_endpoint_arn_field : ReferenceField ReplicationTask
source_endpoint_arn_field =
    scalar "SourceEndpointARN" "SourceEndpointRef" true endpoint_target
      (λ ko. ko.spec.source_endpoint_ref) (λ ko. ko.spec.source_endpoint_arn)
      (λ o ko. record ko { spec = record (ko.spec) { source_endpoint_arn = o } })

abbrev pub target_endpoint_arn_field : ReferenceField ReplicationTask
target_endpoint_arn_field =
    scalar "TargetEndpointARN" "TargetEndpointRef" true endpoint_target
      (λ ko. ko.spec.target_endpoint_ref) (λ ko. ko.spec.target_endpoint_arn)
      (λ o ko. record ko { spec = record (ko.spec) { target_endpoint_arn = o } })

abbrev pub task_reference_fields : List (ReferenceField ReplicationTask)
task_reference_fields =
    replication_instance_arn_field ∷ source_endpoint_arn_field ∷ target_endpoint_arn_field ∷ []

unfoldable pub clear_task_references : ReplicationTask → ReplicationTask
unfolding clear_resolved_references
clear_task_references = clear_resolved_references task_reference_fields

unfoldable pub validate_task_references : {E : Type 0} → ReferenceEnv E → ReplicationTask → Option E
unfolding validate_reference_fields
validate_task_references env = validate_reference_fields env task_reference_fields

unfoldable pub resolve_task_references :
    {E : Type 0} → ReferenceEnv E → ReplicationTask → ReplicationTask × Bool × Option E
unfolding resolve_references
resolve_task_references env =
    resolve_references env task_kind (λ ko. ko.namespace) task_reference_fields
