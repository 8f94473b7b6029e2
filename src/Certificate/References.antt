-- ===== src/Certificate/References.antt =====
-- references.go of pkg/resource/certificate.
use ack_dms_controller.Base.{Bool, List, Option, [], false, ◌∷◌}
use ack_dms_controller.Certificate.Types.{Certificate, certificate_kind}
use ack_dms_controller.References.{
  ReferenceEnv, ReferenceField, clear_resolved_references, resolve_references,
  validate_reference_fields,
}
use ack_dms_controller.References.Shapes.{scalar}
use ack_dms_controller.ReplicationInstance.References.{key_target}

abbrev pub certificate_kms_key_id_field : ReferenceField Certificate
certificate_kms_key_id_field =
    scalar "KMSKeyID" "KMSKeyRef" false key_target (λ ko. ko.spec.kms_key_ref)
      (λ ko. ko.spec.kms_key_id) (λ o ko. record ko { spec = record (ko.spec) { kms_key_id = o } })

abbrev pub certificate_reference_fields : List (ReferenceField Certificate)
certificate_reference_fields = certificate_kms_key_id_field ∷ []

unfoldable pub clear_certificate_references : Certificate → Certificate
unfolding clear_resolved_references
clear_certificate_references = clear_resolved_references certificate_reference_fields

unfoldable pub validate_certificate_references :
    {E : Type 0} → ReferenceEnv E → Certificate → Option E
unfolding validate_reference_fields
validate_certificate_references env = validate_reference_fields env certificate_reference_fields

unfoldable pub resolve_certificate_references :
    {E : Type 0} → ReferenceEnv E → Certificate → Certificate × Bool × Option E
unfolding resolve_references
resolve_certificate_references env =
    resolve_references env certificate_kind (λ ko. ko.namespace) certificate_reference_fields
