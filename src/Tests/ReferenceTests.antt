-- ===== src/Tests/ReferenceTests.antt =====
-- The theorems on references at concrete inputs.
use ack_dms_controller.Base.{[], none, refl, some, ◌↔◌, ◌∷◌, ◌≡◌}
use ack_dms_controller.Manager.TaskKind.{task_kind}
use ack_dms_controller.References.{
  condition_holds, get_referenced_resource_state, or_else, resolve_each, resolve_field,
  resolve_fields, resolve_reference, resolve_references, validate_reference_field,
  validate_reference_fields,
}
use ack_dms_controller.References.Resolving.{AllAnswers}
use ack_dms_controller.References.Targets.{IsSource, get_referenced_resource_state_iff}
use ack_dms_controller.References.Validity.{AllChosen, validate_reference_fields_iff}
use ack_dms_controller.ReplicationInstance.References.{
  clear_instance_references, resolve_instance_references,
}
use ack_dms_controller.ReplicationInstance.References.RoundTrip.{clear-resolve_instance_references}
use ack_dms_controller.ReplicationInstance.Types.{ReplicationInstance}
use ack_dms_controller.ReplicationTask.References.{
  clear_task_references, endpoint_target, resolve_task_references, task_reference_fields,
}
use ack_dms_controller.ReplicationTask.References.Resolved.{resolve_task_references-AllAnswers}
use ack_dms_controller.ReplicationTask.References.RoundTrip.{clear-resolve_task_references}
use ack_dms_controller.ReplicationTask.Types.{ReplicationTask}
use ack_dms_controller.Runtime.{reply}
use ack_dms_controller.Tests.InstanceSamples.{instance_at}
use ack_dms_controller.Tests.ReferenceSamples.{reference_env, reference_to}
use ack_dms_controller.Tests.TaskSamples.{task_at}

-- A task whose source endpoint is a reference.
abbrev referring_task : ReplicationTask
referring_task = record (task_at "ready") {
  spec = record ((task_at "ready").spec) {
    source_endpoint_arn = none;
    source_endpoint_ref = some (reference_to "source");
  };
}

-- An instance with two security groups by reference.
abbrev referring_instance : ReplicationInstance
referring_instance = record (instance_at "3.5.2" "available") {
  spec = record ((instance_at "3.5.2" "available").spec) {
    security_group_refs = some (reference_to "first" ∷ reference_to "second" ∷ []);
  };
}

resolves : (resolve_task_references reference_env referring_task).2 ≡ none
unfolding resolve_task_references resolve_references resolve_fields resolve_field resolve_each
    resolve_reference get_referenced_resource_state condition_holds validate_reference_fields
    validate_reference_field or_else
resolves = refl

resolve_task_references-AllAnswers_example :
    AllChosen task_reference_fields referring_task
    × AllAnswers reference_env task_kind
        (λ k. k.namespace)
        task_reference_fields
        referring_task
        (resolve_task_references reference_env referring_task).0
resolve_task_references-AllAnswers_example =
    resolve_task_references-AllAnswers reference_env referring_task resolves

clear-resolve_task_references_example :
    (clear_task_references (resolve_task_references reference_env referring_task).0).spec
    ≡ (clear_task_references referring_task).spec
clear-resolve_task_references_example = clear-resolve_task_references reference_env referring_task

clear-resolve_instance_references_example :
    (clear_instance_references
      (resolve_instance_references reference_env referring_instance).0).spec
    ≡ (clear_instance_references referring_instance).spec
clear-resolve_instance_references_example =
    clear-resolve_instance_references reference_env referring_instance

get_referenced_resource_state_iff_example :
    (get_referenced_resource_state reference_env endpoint_target "source" "default"
      ≡ reply "arn:found")
    ↔ IsSource reference_env endpoint_target "source" "default" "arn:found"
get_referenced_resource_state_iff_example =
    get_referenced_resource_state_iff reference_env endpoint_target "source" "default" "arn:found"

validate_reference_fields_iff_example :
    (validate_reference_fields reference_env task_reference_fields referring_task ≡ none)
    ↔ AllChosen task_reference_fields referring_task
validate_reference_fields_iff_example =
    validate_reference_fields_iff reference_env task_reference_fields referring_task
