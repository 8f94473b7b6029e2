-- ===== src/ReplicationSubnetGroup/References.antt =====
-- references.go of pkg/resource/replication_subnet_group.
use ack_dms_controller.Base.{Bool, List, Option, [], true, ◌∷◌}
use ack_dms_controller.References.{
  ReferenceEnv, ReferenceField, ReferenceTarget, clear_resolved_references, resolve_references,
  validate_reference_fields,
}
use ack_dms_controller.References.Shapes.{listed}
use ack_dms_controller.ReplicationSubnetGroup.Types.{
  ReplicationSubnetGroup, replication_subnet_group_kind,
}

abbrev pub subnet_target : ReferenceTarget
subnet_target = record { kind = "Subnet"; field_name = "Status.SubnetID" }

abbrev pub subnet_ids_field : ReferenceField ReplicationSubnetGroup
subnet_ids_field =
    listed "SubnetIDs" "SubnetRefs" true subnet_target (λ ko. ko.spec.subnet_refs)
      (λ ko. ko.spec.subnet_ids) (λ o ko. record ko { spec = record (ko.spec) { subnet_ids = o } })

abbrev pub replication_subnet_group_reference_fields : List (ReferenceField ReplicationSubnetGroup)
replication_subnet_group_reference_fields = subnet_ids_field ∷ []

unfoldable pub clear_replication_subnet_group_references :
    ReplicationSubnetGroup → ReplicationSubnetGroup
unfolding clear_resolved_references
clear_replication_subnet_group_references =
    clear_resolved_references replication_subnet_group_reference_fields

unfoldable pub validate_replication_subnet_group_references :
    {E : Type 0} → ReferenceEnv E → ReplicationSubnetGroup → Option E
unfolding validate_reference_fields
validate_replication_subnet_group_references env =
    validate_reference_fields env replication_subnet_group_reference_fields

unfoldable pub resolve_replication_subnet_group_references :
    {E : Type 0}
    → ReferenceEnv E
    → ReplicationSubnetGroup
    → ReplicationSubnetGroup × Bool × Option E
unfolding resolve_references
resolve_replication_subnet_group_references env =
    resolve_references env replication_subnet_group_kind (λ ko. ko.namespace)
      replication_subnet_group_reference_fields
