-- ===== src/Endpoint/FieldLaws/KinesisToPostgre.antt =====
-- Writing an identifier changes nothing else: KinesisSettings.ServiceAccessRoleARN to
-- PostgreSQLSettings.SecretsManagerAccessRoleARN.
use ack_dms_controller.Base.{refl}
use ack_dms_controller.Endpoint.Fields.KmsToNeptune.{
  kinesis_service_access_role_arn_field, kinesis_stream_arn_field,
  microsoft_sql_server_secrets_manager_access_role_arn_field,
  microsoft_sql_server_secrets_manager_secret_id_field, mongo_db_kms_key_id_field,
  mongo_db_secrets_manager_access_role_arn_field, mongo_db_secrets_manager_secret_id_field,
  my_sql_secrets_manager_access_role_arn_field, my_sql_secrets_manager_secret_id_field,
  my_sql_service_access_role_arn_field, neptune_s3_bucket_name_field,
  neptune_service_access_role_arn_field,
}
use ack_dms_controller.Endpoint.Fields.OracleToSybase.{
  oracle_secrets_manager_access_role_arn_field, oracle_secrets_manager_secret_id_field,
  postgre_sql_secrets_manager_access_role_arn_field,
}
use ack_dms_controller.Endpoint.Kept.{kept_spec}
use ack_dms_controller.Endpoint.SlotLaws.{
  kinesis_settings_slot-SlotLaws, microsoft_sql_server_settings_slot-SlotLaws,
  mongo_db_settings_slot-SlotLaws, my_sql_settings_slot-SlotLaws, neptune_settings_slot-SlotLaws,
  oracle_settings_slot-SlotLaws, postgre_sql_settings_slot-SlotLaws,
}
use ack_dms_controller.Endpoint.Slots.{
  kinesis_settings_slot, microsoft_sql_server_settings_slot, mongo_db_settings_slot,
  my_sql_settings_slot, neptune_settings_slot, oracle_settings_slot, postgre_sql_settings_slot,
}
use ack_dms_controller.Endpoint.Types.{endpoint_kind}
use ack_dms_controller.References.Clearing.{Fades, nested-Fades}
use ack_dms_controller.References.Shapes.{nested}

pub kinesis_service_access_role_arn_field-Fades :
    Fades endpoint_kind
      (λ ko. kept_spec ko.spec)
      (nested kinesis_settings_slot kinesis_service_access_role_arn_field)
unfolding kept_spec
kinesis_service_access_role_arn_field-Fades =
    nested-Fades _ _ kinesis_settings_slot kinesis_settings_slot-SlotLaws _ (λ v s. refl)
      (λ v s ko h. rw (kept_spec, h) refl)

pub kinesis_stream_arn_field-Fades :
    Fades endpoint_kind
      (λ ko. kept_spec ko.spec)
      (nested kinesis_settings_slot kinesis_stream_arn_field)
unfolding kept_spec
kinesis_stream_arn_field-Fades =
    nested-Fades _ _ kinesis_settings_slot kinesis_settings_slot-SlotLaws _ (λ v s. refl)
      (λ v s ko h. rw (kept_spec, h) refl)

pub microsoft_sql_server_secrets_manager_access_role_arn_field-Fades :
    Fades endpoint_kind
      (λ ko. kept_spec ko.spec)
      (nested microsoft_sql_server_settings_slot
        microsoft_sql_server_secrets_manager_access_role_arn_field)
unfolding kept_spec
microsoft_sql_server_secrets_manager_access_role_arn_field-Fades =
    nested-Fades _ _ microsoft_sql_server_settings_slot microsoft_sql_server_settings_slot-SlotLaws
      _ (λ v s. refl) (λ v s ko h. rw (kept_spec, h) refl)

pub microsoft_sql_server_secrets_manager_secret_id_field-Fades :
    Fades endpoint_kind
      (λ ko. kept_spec ko.spec)
      (nested microsoft_sql_server_settings_slot
        microsoft_sql_server_secrets_manager_secret_id_field)
unfolding kept_spec
microsoft_sql_server_secrets_manager_secret_id_field-Fades =
    nested-Fades _ _ microsoft_sql_server_settings_slot microsoft_sql_server_settings_slot-SlotLaws
      _ (λ v s. refl) (λ v s ko h. rw (kept_spec, h) refl)

pub mongo_db_kms_key_id_field-Fades :
    Fades endpoint_kind
      (λ ko. kept_spec ko.spec)
      (nested mongo_db_settings_slot mongo_db_kms_key_id_field)
unfolding kept_spec
mongo_db_kms_key_id_field-Fades =
    nested-Fades _ _ mongo_db_settings_slot mongo_db_settings_slot-SlotLaws _ (λ v s. refl)
      (λ v s ko h. rw (kept_spec, h) refl)

pub mongo_db_secrets_manager_access_role_arn_field-Fades :
    Fades endpoint_kind
      (λ ko. kept_spec ko.spec)
      (nested mongo_db_settings_slot mongo_db_secrets_manager_access_role_arn_field)
unfolding kept_spec
mongo_db_secrets_manager_access_role_arn_field-Fades =
    nested-Fades _ _ mongo_db_settings_slot mongo_db_settings_slot-SlotLaws _ (λ v s. refl)
      (λ v s ko h. rw (kept_spec, h) refl)

pub mongo_db_secrets_manager_secret_id_field-Fades :
    Fades endpoint_kind
      (λ ko. kept_spec ko.spec)
      (nested mongo_db_settings_slot mongo_db_secrets_manager_secret_id_field)
unfolding kept_spec
mongo_db_secrets_manager_secret_id_field-Fades =
    nested-Fades _ _ mongo_db_settings_slot mongo_db_settings_slot-SlotLaws _ (λ v s. refl)
      (λ v s ko h. rw (kept_spec, h) refl)

pub my_sql_secrets_manager_access_role_arn_field-Fades :
    Fades endpoint_kind
      (λ ko. kept_spec ko.spec)
      (nested my_sql_settings_slot my_sql_secrets_manager_access_role_arn_field)
unfolding kept_spec
my_sql_secrets_manager_access_role_arn_field-Fades =
    nested-Fades _ _ my_sql_settings_slot my_sql_settings_slot-SlotLaws _ (λ v s. refl)
      (λ v s ko h. rw (kept_spec, h) refl)

pub my_sql_secrets_manager_secret_id_field-Fades :
    Fades endpoint_kind
      (λ ko. kept_spec ko.spec)
      (nested my_sql_settings_slot my_sql_secrets_manager_secret_id_field)
unfolding kept_spec
my_sql_secrets_manager_secret_id_field-Fades =
    nested-Fades _ _ my_sql_settings_slot my_sql_settings_slot-SlotLaws _ (λ v s. refl)
      (λ v s ko h. rw (kept_spec, h) refl)

pub my_sql_service_access_role_arn_field-Fades :
    Fades endpoint_kind
      (λ ko. kept_spec ko.spec)
      (nested my_sql_settings_slot my_sql_service_access_role_arn_field)
unfolding kept_spec
my_sql_service_access_role_arn_field-Fades =
    nested-Fades _ _ my_sql_settings_slot my_sql_settings_slot-SlotLaws _ (λ v s. refl)
      (λ v s ko h. rw (kept_spec, h) refl)

pub neptune_s3_bucket_name_field-Fades :
    Fades endpoint_kind
      (λ ko. kept_spec ko.spec)
      (nested neptune_settings_slot neptune_s3_bucket_name_field)
unfolding kept_spec
neptune_s3_bucket_name_field-Fades =
    nested-Fades _ _ neptune_settings_slot neptune_settings_slot-SlotLaws _ (λ v s. refl)
      (λ v s ko h. rw (kept_spec, h) refl)

pub neptune_service_access_role_arn_field-Fades :
    Fades endpoint_kind
      (λ ko. kept_spec ko.spec)
      (nested neptune_settings_slot neptune_service_access_role_arn_field)
unfolding kept_spec
neptune_service_access_role_arn_field-Fades =
    nested-Fades _ _ neptune_settings_slot neptune_settings_slot-SlotLaws _ (λ v s. refl)
      (λ v s ko h. rw (kept_spec, h) refl)

pub oracle_secrets_manager_access_role_arn_field-Fades :
    Fades endpoint_kind
      (λ ko. kept_spec ko.spec)
      (nested oracle_settings_slot oracle_secrets_manager_access_role_arn_field)
unfolding kept_spec
oracle_secrets_manager_access_role_arn_field-Fades =
    nested-Fades _ _ oracle_settings_slot oracle_settings_slot-SlotLaws _ (λ v s. refl)
      (λ v s ko h. rw (kept_spec, h) refl)

pub oracle_secrets_manager_secret_id_field-Fades :
    Fades endpoint_kind
      (λ ko. kept_spec ko.spec)
      (nested oracle_settings_slot oracle_secrets_manager_secret_id_field)
unfolding kept_spec
oracle_secrets_manager_secret_id_field-Fades =
    nested-Fades _ _ oracle_settings_slot oracle_settings_slot-SlotLaws _ (λ v s. refl)
      (λ v s ko h. rw (kept_spec, h) refl)

pub postgre_sql_secrets_manager_access_role_arn_field-Fades :
    Fades endpoint_kind
      (λ ko. kept_spec ko.spec)
      (nested postgre_sql_settings_slot postgre_sql_secrets_manager_access_role_arn_field)
unfolding kept_spec
postgre_sql_secrets_manager_access_role_arn_field-Fades =
    nested-Fades _ _ postgre_sql_settings_slot postgre_sql_settings_slot-SlotLaws _ (λ v s. refl)
      (λ v s ko h. rw (kept_spec, h) refl)
