-- ===== src/Endpoint/FieldLaws/PostgreToSybase.antt =====
-- Writing an identifier changes nothing else: PostgreSQLSettings.SecretsManagerSecretID to
-- SybaseSettings.SecretsManagerSecretID.
use ack_dms_controller.Base.{refl}
use ack_dms_controller.Endpoint.Fields.OracleToSybase.{
  postgre_sql_secrets_manager_secret_id_field, postgre_sql_service_access_role_arn_field,
  redis_ssl_ca_certificate_arn_field, redshift_bucket_name_field,
  redshift_secrets_manager_access_role_arn_field, redshift_secrets_manager_secret_id_field,
  redshift_server_side_encryption_kms_key_id_field, redshift_service_access_role_arn_field,
  s3_bucket_name_field, s3_server_side_encryption_kms_key_id_field,
  s3_service_access_role_arn_field, service_access_role_arn_field,
  sybase_secrets_manager_access_role_arn_field, sybase_secrets_manager_secret_id_field,
}
use ack_dms_controller.Endpoint.Kept.{kept_spec}
use ack_dms_controller.Endpoint.SlotLaws.{
  postgre_sql_settings_slot-SlotLaws, redis_settings_slot-SlotLaws, redshift_settings_slot-SlotLaws,
  s3_settings_slot-SlotLaws, sybase_settings_slot-SlotLaws,
}
use ack_dms_controller.Endpoint.Slots.{
  postgre_sql_settings_slot, redis_settings_slot, redshift_settings_slot, s3_settings_slot,
  sybase_settings_slot,
}
use ack_dms_controller.Endpoint.Types.{endpoint_kind}
use ack_dms_controller.References.Clearing.{Fades, nested-Fades}
use ack_dms_controller.References.Shapes.{nested}

pub postgre_sql_secrets_manager_secret_id_field-Fades :
    Fades endpoint_kind
      (λ ko. kept_spec ko.spec)
      (nested postgre_sql_settings_slot postgre_sql_secrets_manager_secret_id_field)
unfolding kept_spec
postgre_sql_secrets_manager_secret_id_field-Fades =
    nested-Fades _ _ postgre_sql_settings_slot postgre_sql_settings_slot-SlotLaws _ (λ v s. refl)
      (λ v s ko h. rw (kept_spec, h) refl)

pub postgre_sql_service_access_role_arn_field-Fades :
    Fades endpoint_kind
      (λ ko. kept_spec ko.spec)
      (nested postgre_sql_settings_slot postgre_sql_service_access_role_arn_field)
unfolding kept_spec
postgre_sql_service_access_role_arn_field-Fades =
    nested-Fades _ _ postgre_sql_settings_slot postgre_sql_settings_slot-SlotLaws _ (λ v s. refl)
      (λ v s ko h. rw (kept_spec, h) refl)

pub redis_ssl_ca_certificate_arn_field-Fades :
    Fades endpoint_kind
      (λ ko. kept_spec ko.spec)
      (nested redis_settings_slot redis_ssl_ca_certificate_arn_field)
unfolding kept_spec
redis_ssl_ca_certificate_arn_field-Fades =
    nested-Fades _ _ redis_settings_slot redis_settings_slot-SlotLaws _ (λ v s. refl)
      (λ v s ko h. rw (kept_spec, h) refl)

pub redshift_bucket_name_field-Fades :
    Fades endpoint_kind
      (λ ko. kept_spec ko.spec)
      (nested redshift_settings_slot redshift_bucket_name_field)
unfolding kept_spec
redshift_bucket_name_field-Fades =
    nested-Fades _ _ redshift_settings_slot redshift_settings_slot-SlotLaws _ (λ v s. refl)
      (λ v s ko h. rw (kept_spec, h) refl)

pub redshift_secrets_manager_access_role_arn_field-Fades :
    Fades endpoint_kind
      (λ ko. kept_spec ko.spec)
      (nested redshift_settings_slot redshift_secrets_manager_access_role_arn_field)
unfolding kept_spec
redshift_secrets_manager_access_role_arn_field-Fades =
    nested-Fades _ _ redshift_settings_slot redshift_settings_slot-SlotLaws _ (λ v s. refl)
      (λ v s ko h. rw (kept_spec, h) refl)

pub redshift_secrets_manager_secret_id_field-Fades :
    Fades endpoint_kind
      (λ ko. kept_spec ko.spec)
      (nested redshift_settings_slot redshift_secrets_manager_secret_id_field)
unfolding kept_spec
redshift_secrets_manager_secret_id_field-Fades =
    nested-Fades _ _ redshift_settings_slot redshift_settings_slot-SlotLaws _ (λ v s. refl)
      (λ v s ko h. rw (kept_spec, h) refl)

pub redshift_server_side_encryption_kms_key_id_field-Fades :
    Fades endpoint_kind
      (λ ko. kept_spec ko.spec)
      (nested redshift_settings_slot redshift_server_side_encryption_kms_key_id_field)
unfolding kept_spec
redshift_server_side_encryption_kms_key_id_field-Fades =
    nested-Fades _ _ redshift_settings_slot redshift_settings_slot-SlotLaws _ (λ v s. refl)
      (λ v s ko h. rw (kept_spec, h) refl)

pub redshift_service_access_role_arn_field-Fades :
    Fades endpoint_kind
      (λ ko. kept_spec ko.spec)
      (nested redshift_settings_slot redshift_service_access_role_arn_field)
unfolding kept_spec
redshift_service_access_role_arn_field-Fades =
    nested-Fades _ _ redshift_settings_slot redshift_settings_slot-SlotLaws _ (λ v s. refl)
      (λ v s ko h. rw (kept_spec, h) refl)

pub s3_bucket_name_field-Fades :
    Fades endpoint_kind (λ ko. kept_spec ko.spec) (nested s3_settings_slot s3_bucket_name_field)
unfolding kept_spec
s3_bucket_name_field-Fades =
    nested-Fades _ _ s3_settings_slot s3_settings_slot-SlotLaws _ (λ v s. refl)
      (λ v s ko h. rw (kept_spec, h) refl)

pub s3_server_side_encryption_kms_key_id_field-Fades :
    Fades endpoint_kind
      (λ ko. kept_spec ko.spec)
      (nested s3_settings_slot s3_server_side_encryption_kms_key_id_field)
unfolding kept_spec
s3_server_side_encryption_kms_key_id_field-Fades =
    nested-Fades _ _ s3_settings_slot s3_settings_slot-SlotLaws _ (λ v s. refl)
      (λ v s ko h. rw (kept_spec, h) refl)

pub s3_service_access_role_arn_field-Fades :
    Fades endpoint_kind
      (λ ko. kept_spec ko.spec)
      (nested s3_settings_slot s3_service_access_role_arn_field)
unfolding kept_spec
s3_service_access_role_arn_field-Fades =
    nested-Fades _ _ s3_settings_slot s3_settings_slot-SlotLaws _ (λ v s. refl)
      (λ v s ko h. rw (kept_spec, h) refl)

pub service_access_role_arn_field-Fades :
    Fades endpoint_kind (λ ko. kept_spec ko.spec) service_access_role_arn_field
unfolding kept_spec
service_access_role_arn_field-Fades = record {
  refs_ack = λ s ko. refl;
  refs_put = λ v ko. refl;
  view_put = λ v ko h. rw (kept_spec, h) refl;
}

pub sybase_secrets_manager_access_role_arn_field-Fades :
    Fades endpoint_kind
      (λ ko. kept_spec ko.spec)
      (nested sybase_settings_slot sybase_secrets_manager_access_role_arn_field)
unfolding kept_spec
sybase_secrets_manager_access_role_arn_field-Fades =
    nested-Fades _ _ sybase_settings_slot sybase_settings_slot-SlotLaws _ (λ v s. refl)
      (λ v s ko h. rw (kept_spec, h) refl)

pub sybase_secrets_manager_secret_id_field-Fades :
    Fades endpoint_kind
      (λ ko. kept_spec ko.spec)
      (nested sybase_settings_slot sybase_secrets_manager_secret_id_field)
unfolding kept_spec
sybase_secrets_manager_secret_id_field-Fades =
    nested-Fades _ _ sybase_settings_slot sybase_settings_slot-SlotLaws _ (λ v s. refl)
      (λ v s ko h. rw (kept_spec, h) refl)
