-- ===== src/ReplicationInstance/References.antt =====
-- references.go of pkg/resource/replication_instance.
pub mod RoundTrip
use ack_dms_controller.Base.{Bool, List, Option, [], false, ◌∷◌}
use ack_dms_controller.Manager.InstanceKind.{instance_kind}
use ack_dms_controller.References.{
  ReferenceEnv, ReferenceField, ReferenceTarget, clear_resolved_references, resolve_references,
  validate_reference_fields,
}
use ack_dms_controller.References.Shapes.{Slot, listed, nested, scalar}
use ack_dms_controller.ReplicationInstance.Types.{
  KerberosAuthenticationSettings, ReplicationInstance,
}

abbrev pub key_target : ReferenceTarget
key_target = record { kind = "Key"; field_name = "Status.KeyID" }

abbrev pub role_target : ReferenceTarget
role_target = record { kind = "Role"; field_name = "Status.ACKResourceMetadata.ARN" }

abbrev pub secret_target : ReferenceTarget
secret_target = record { kind = "Secret"; field_name = "Status.ACKResourceMetadata.ARN" }

abbrev pub security_group_target : ReferenceTarget
security_group_target = record { kind = "SecurityGroup"; field_name = "Status.ID" }

abbrev pub subnet_group_target : ReferenceTarget
subnet_group_target = record { kind = "ReplicationSubnetGroup"; field_name = "Spec.Name" }

abbrev pub kerberos_slot : Slot ReplicationInstance KerberosAuthenticationSettings
kerberos_slot = record {
  get = λ ko. ko.spec.kerberos_authentication_settings;
  set = λ o ko. record ko { spec = record (ko.spec) { kerberos_authentication_settings = o } };
}

abbrev pub kms_key_id_field : ReferenceField ReplicationInstance
kms_key_id_field =
    scalar "KMSKeyID" "KMSKeyRef" false key_target (λ ko. ko.spec.kms_key_ref)
      (λ ko. ko.spec.kms_key_id) (λ o ko. record ko { spec = record (ko.spec) { kms_key_id = o } })

abbrev pub key_cache_secret_iam_arn_field : ReferenceField ReplicationInstance
key_cache_secret_iam_arn_field = nested kerberos_slot (
    scalar "KerberosAuthenticationSettings.KeyCacheSecretIAMARN"
      "KerberosAuthenticationSettings.KeyCacheSecretIAMRef" false role_target
      (λ s. s.key_cache_secret_iam_ref) (λ s. s.key_cache_secret_iam_arn)
      (λ o s. record s { key_cache_secret_iam_arn = o }))

abbrev pub key_cache_secret_id_field : ReferenceField ReplicationInstance
key_cache_secret_id_field = nested kerberos_slot (
    scalar "KerberosAuthenticationSettings.KeyCacheSecretID"
      "KerberosAuthenticationSettings.KeyCacheSecretRef" false secret_target
      (λ s. s.key_cache_secret_ref) (λ s. s.key_cache_secret_id)
      (λ o s. record s { key_cache_secret_id = o }))

abbrev pub security_group_ids_field : ReferenceField ReplicationInstance
security_group_ids_field =
    listed "SecurityGroupIDs" "SecurityGroupRefs" false security_group_target
      (λ ko. ko.spec.security_group_refs) (λ ko. ko.spec.security_group_ids)
      (λ o ko. record ko { spec = record (ko.spec) { security_group_ids = o } })

abbrev pub subnet_group_id_field : ReferenceField ReplicationInstance
subnet_group_id_field =
    scalar "SubnetGroupID" "SubnetGroupRef" false subnet_group_target
      (λ ko. ko.spec.subnet_group_ref) (λ ko. ko.spec.subnet_group_id)
      (λ o ko. record ko { spec = record (ko.spec) { subnet_group_id = o } })

abbrev pub instance_reference_fields : List (ReferenceField ReplicationInstance)
instance_reference_fields =
    kms_key_id_field ∷ key_cache_secret_iam_arn_field ∷ key_cache_secret_id_field
    ∷ security_group_ids_field ∷ subnet_group_id_field ∷ []

unfoldable pub clear_instance_references : ReplicationInstance → ReplicationInstance
unfolding clear_resolved_references
clear_instance_references = clear_resolved_references instance_reference_fields

unfoldable pub validate_instance_references :
    {E : Type 0} → ReferenceEnv E → ReplicationInstance → Option E
unfolding validate_reference_fields
validate_instance_references env = validate_reference_fields env instance_reference_fields

unfoldable pub resolve_instance_references :
    {E : Type 0} → ReferenceEnv E → ReplicationInstance → ReplicationInstance × Bool × Option E
unfolding resolve_references
resolve_instance_references env =
    resolve_references env instance_kind (λ ko. ko.namespace) instance_reference_fields
