-- ===== src/Endpoint/FieldLaws/CertificateToKafka.antt =====
-- Writing an identifier changes nothing else: CertificateARN to
-- KafkaSettings.SSLClientKeyARN.
use ack_dms_controller.Base.{refl}
use ack_dms_controller.Endpoint.Fields.CertificateToIbmdb2.{
  certificate_arn_field, dms_transfer_service_access_role_arn_field, doc_db_kms_key_id_field,
  doc_db_secrets_manager_access_role_arn_field, doc_db_secrets_manager_secret_id_field,
  dynamo_db_service_access_role_arn_field, elasticsearch_service_access_role_arn_field,
  gcp_my_sql_secrets_manager_access_role_arn_field, gcp_my_sql_secrets_manager_secret_id_field,
  ibmdb2_secrets_manager_access_role_arn_field, ibmdb2_secrets_manager_secret_id_field,
}
use ack_dms_controller.Endpoint.Fields.KmsToNeptune.{
  endpoint_kms_key_id_field, kafka_ssl_ca_certificate_arn_field,
  kafka_ssl_client_certificate_arn_field, kafka_ssl_client_key_arn_field,
}
use ack_dms_controller.Endpoint.Kept.{kept_spec}
use ack_dms_controller.Endpoint.SlotLaws.{
  dms_transfer_settings_slot-SlotLaws, doc_db_settings_slot-SlotLaws,
  dynamo_db_settings_slot-SlotLaws, elasticsearch_settings_slot-SlotLaws,
  gcp_my_sql_settings_slot-SlotLaws, ibmdb2_settings_slot-SlotLaws, kafka_settings_slot-SlotLaws,
}
use ack_dms_controller.Endpoint.Slots.{
  dms_transfer_settings_slot, doc_db_settings_slot, dynamo_db_settings_slot,
  elasticsearch_settings_slot, gcp_my_sql_settings_slot, ibmdb2_settings_slot, kafka_settings_slot,
}
use ack_dms_controller.Endpoint.Types.{endpoint_kind}
use ack_dms_controller.References.Clearing.{Fades, nested-Fades}
use ack_dms_controller.References.Shapes.{nested}

pub certificate_arn_field-Fades :
    Fades endpoint_kind (λ ko. kept_spec ko.spec) certificate_arn_field
unfolding kept_spec
certificate_arn_field-Fades = record {
  refs_ack = λ s ko. refl;
  refs_put = λ v ko. refl;
  view_put = λ v ko h. rw (kept_spec, h) refl;
}

pub dms_transfer_service_access_role_arn_field-Fades :
    Fades endpoint_kind
      (λ ko. kept_spec ko.spec)
      (nested dms_transfer_settings_slot dms_transfer_service_access_role_arn_field)
unfolding kept_spec
dms_transfer_service_access_role_arn_field-Fades =
    nested-Fades _ _ dms_transfer_settings_slot dms_transfer_settings_slot-SlotLaws _ (λ v s. refl)
      (λ v s ko h. rw (kept_spec, h) refl)

pub doc_db_kms_key_id_field-Fades :
    Fades endpoint_kind
      (λ ko. kept_spec ko.spec)
      (nested doc_db_settings_slot doc_db_kms_key_id_field)
unfolding kept_spec
doc_db_kms_key_id_field-Fades =
    nested-Fades _ _ doc_db_settings_slot doc_db_settings_slot-SlotLaws _ (λ v s. refl)
      (λ v s ko h. rw (kept_spec, h) refl)

pub doc_db_secrets_manager_access_role_arn_field-Fades :
    Fades endpoint_kind
      (λ ko. kept_spec ko.spec)
      (nested doc_db_settings_slot doc_db_secrets_manager_access_role_arn_field)
unfolding kept_spec
doc_db_secrets_manager_access_role_arn_field-Fades =
    nested-Fades _ _ doc_db_settings_slot doc_db_settings_slot-SlotLaws _ (λ v s. refl)
      (λ v s ko h. rw (kept_spec, h) refl)

pub doc_db_secrets_manager_secret_id_field-Fades :
    Fades endpoint_kind
      (λ ko. kept_spec ko.spec)
      (nested doc_db_settings_slot doc_db_secrets_manager_secret_id_field)
unfolding kept_spec
doc_db_secrets_manager_secret_id_field-Fades =
    nested-Fades _ _ doc_db_settings_slot doc_db_settings_slot-SlotLaws _ (λ v s. refl)
      (λ v s ko h. rw (kept_spec, h) refl)

pub dynamo_db_service_access_role_arn_field-Fades :
    Fades endpoint_kind
      (λ ko. kept_spec ko.spec)
      (nested dynamo_db_settings_slot dynamo_db_service_access_role_arn_field)
unfolding kept_spec
dynamo_db_service_access_role_arn_field-Fades =
    nested-Fades _ _ dynamo_db_settings_slot dynamo_db_settings_slot-SlotLaws _ (λ v s. refl)
      (λ v s ko h. rw (kept_spec, h) refl)

pub elasticsearch_service_access_role_arn_field-Fades :
    Fades endpoint_kind
      (λ ko. kept_spec ko.spec)
      (nested elasticsearch_settings_slot elasticsearch_service_access_role_arn_field)
unfolding kept_spec
elasticsearch_service_access_role_arn_field-Fades =
    nested-Fades _ _ elasticsearch_settings_slot elasticsearch_settings_slot-SlotLaws _
      (λ v s. refl) (λ v s ko h. rw (kept_spec, h) refl)

pub gcp_my_sql_secrets_manager_access_role_arn_field-Fades :
    Fades endpoint_kind
      (λ ko. kept_spec ko.spec)
      (nested gcp_my_sql_settings_slot gcp_my_sql_secrets_manager_access_role_arn_field)
unfolding kept_spec
gcp_my_sql_secrets_manager_access_role_arn_field-Fades =
    nested-Fades _ _ gcp_my_sql_settings_slot gcp_my_sql_settings_slot-SlotLaws _ (λ v s. refl)
      (λ v s ko h. rw (kept_spec, h) refl)

pub gcp_my_sql_secrets_manager_secret_id_field-Fades :
    Fades endpoint_kind
      (λ ko. kept_spec ko.spec)
      (nested gcp_my_sql_settings_slot gcp_my_sql_secrets_manager_secret_id_field)
unfolding kept_spec
gcp_my_sql_secrets_manager_secret_id_field-Fades =
    nested-Fades _ _ gcp_my_sql_settings_slot gcp_my_sql_settings_slot-SlotLaws _ (λ v s. refl)
      (λ v s ko h. rw (kept_spec, h) refl)

pub ibmdb2_secrets_manager_access_role_arn_field-Fades :
    Fades endpoint_kind
      (λ ko. kept_spec ko.spec)
      (nested ibmdb2_settings_slot ibmdb2_secrets_manager_access_role_arn_field)
unfolding kept_spec
ibmdb2_secrets_manager_access_role_arn_field-Fades =
    nested-Fades _ _ ibmdb2_settings_slot ibmdb2_settings_slot-SlotLaws _ (λ v s. refl)
      (λ v s ko h. rw (kept_spec, h) refl)

pub ibmdb2_secrets_manager_secret_id_field-Fades :
    Fades endpoint_kind
      (λ ko. kept_spec ko.spec)
      (nested ibmdb2_settings_slot ibmdb2_secrets_manager_secret_id_field)
unfolding kept_spec
ibmdb2_secrets_manager_secret_id_field-Fades =
    nested-Fades _ _ ibmdb2_settings_slot ibmdb2_settings_slot-SlotLaws _ (λ v s. refl)
      (λ v s ko h. rw (kept_spec, h) refl)

pub endpoint_kms_key_id_field-Fades :
    Fades endpoint_kind (λ ko. kept_spec ko.spec) endpoint_kms_key_id_field
unfolding kept_spec
endpoint_kms_key_id_field-Fades = record {
  refs_ack = λ s ko. refl;
  refs_put = λ v ko. refl;
  view_put = λ v ko h. rw (kept_spec, h) refl;
}

pub kafka_ssl_ca_certificate_arn_field-Fades :
    Fades endpoint_kind
      (λ ko. kept_spec ko.spec)
      (nested kafka_settings_slot kafka_ssl_ca_certificate_arn_field)
unfolding kept_spec
kafka_ssl_ca_certificate_arn_field-Fades =
    nested-Fades _ _ kafka_settings_slot kafka_settings_slot-SlotLaws _ (λ v s. refl)
      (λ v s ko h. rw (kept_spec, h) refl)

pub kafka_ssl_client_certificate_arn_field-Fades :
    Fades endpoint_kind
      (λ ko. kept_spec ko.spec)
      (nested kafka_settings_slot kafka_ssl_client_certificate_arn_field)
unfolding kept_spec
kafka_ssl_client_certificate_arn_field-Fades =
    nested-Fades _ _ kafka_settings_slot kafka_settings_slot-SlotLaws _ (λ v s. refl)
      (λ v s ko h. rw (kept_spec, h) refl)

pub kafka_ssl_client_key_arn_field-Fades :
    Fades endpoint_kind
      (λ ko. kept_spec ko.spec)
      (nested kafka_settings_slot kafka_ssl_client_key_arn_field)
unfolding kept_spec
kafka_ssl_client_key_arn_field-Fades =
    nested-Fades _ _ kafka_settings_slot kafka_settings_slot-SlotLaws _ (λ v s. refl)
      (λ v s ko h. rw (kept_spec, h) refl)
