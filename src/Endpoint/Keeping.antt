-- ===== src/Endpoint/Keeping.antt =====
-- What ResolveReferences of an endpoint leaves as it is.
use ack_dms_controller.Base.{refl, ◌≡◌}
use ack_dms_controller.Endpoint.FieldLaws.CertificateToKafka.{
  certificate_arn_field-Fades, dms_transfer_service_access_role_arn_field-Fades,
  doc_db_kms_key_id_field-Fades, doc_db_secrets_manager_access_role_arn_field-Fades,
  doc_db_secrets_manager_secret_id_field-Fades, dynamo_db_service_access_role_arn_field-Fades,
  elasticsearch_service_access_role_arn_field-Fades, endpoint_kms_key_id_field-Fades,
  gcp_my_sql_secrets_manager_access_role_arn_field-Fades,
  gcp_my_sql_secrets_manager_secret_id_field-Fades,
  ibmdb2_secrets_manager_access_role_arn_field-Fades, ibmdb2_secrets_manager_secret_id_field-Fades,
  kafka_ssl_ca_certificate_arn_field-Fades, kafka_ssl_client_certificate_arn_field-Fades,
  kafka_ssl_client_key_arn_field-Fades,
}
use ack_dms_controller.Endpoint.FieldLaws.KinesisToPostgre.{
  kinesis_service_access_role_arn_field-Fades, kinesis_stream_arn_field-Fades,
  microsoft_sql_server_secrets_manager_access_role_arn_field-Fades,
  microsoft_sql_server_secrets_manager_secret_id_field-Fades, mongo_db_kms_key_id_field-Fades,
  mongo_db_secrets_manager_access_role_arn_field-Fades,
  mongo_db_secrets_manager_secret_id_field-Fades,
  my_sql_secrets_manager_access_role_arn_field-Fades, my_sql_secrets_manager_secret_id_field-Fades,
  my_sql_service_access_role_arn_field-Fades, neptune_s3_bucket_name_field-Fades,
  neptune_service_access_role_arn_field-Fades, oracle_secrets_manager_access_role_arn_field-Fades,
  oracle_secrets_manager_secret_id_field-Fades,
  postgre_sql_secrets_manager_access_role_arn_field-Fades,
}
use ack_dms_controller.Endpoint.FieldLaws.PostgreToSybase.{
  postgre_sql_secrets_manager_secret_id_field-Fades,
  postgre_sql_service_access_role_arn_field-Fades, redis_ssl_ca_certificate_arn_field-Fades,
  redshift_bucket_name_field-Fades, redshift_secrets_manager_access_role_arn_field-Fades,
  redshift_secrets_manager_secret_id_field-Fades,
  redshift_server_side_encryption_kms_key_id_field-Fades,
  redshift_service_access_role_arn_field-Fades, s3_bucket_name_field-Fades,
  s3_server_side_encryption_kms_key_id_field-Fades, s3_service_access_role_arn_field-Fades,
  service_access_role_arn_field-Fades, sybase_secrets_manager_access_role_arn_field-Fades,
  sybase_secrets_manager_secret_id_field-Fades,
}
use ack_dms_controller.Endpoint.Kept.{kept_spec}
use ack_dms_controller.Endpoint.References.{endpoint_reference_fields, resolve_endpoint_references}
use ack_dms_controller.Endpoint.Types.{Endpoint, endpoint_kind}
use ack_dms_controller.References.{ReferenceEnv}
use ack_dms_controller.References.Clearing.{AllFade, resolve_references-view, ◌⊕◌}

endpoint_reference_fields-AllFade :
    AllFade endpoint_kind (λ ko. kept_spec ko.spec) endpoint_reference_fields
endpoint_reference_fields-AllFade =
    certificate_arn_field-Fades ⊕ dms_transfer_service_access_role_arn_field-Fades
    ⊕ doc_db_kms_key_id_field-Fades ⊕ doc_db_secrets_manager_access_role_arn_field-Fades
    ⊕ doc_db_secrets_manager_secret_id_field-Fades ⊕ dynamo_db_service_access_role_arn_field-Fades
    ⊕ elasticsearch_service_access_role_arn_field-Fades
    ⊕ gcp_my_sql_secrets_manager_access_role_arn_field-Fades
    ⊕ gcp_my_sql_secrets_manager_secret_id_field-Fades
    ⊕ ibmdb2_secrets_manager_access_role_arn_field-Fades
    ⊕ ibmdb2_secrets_manager_secret_id_field-Fades ⊕ endpoint_kms_key_id_field-Fades
    ⊕ kafka_ssl_ca_certificate_arn_field-Fades ⊕ kafka_ssl_client_certificate_arn_field-Fades
    ⊕ kafka_ssl_client_key_arn_field-Fades ⊕ kinesis_service_access_role_arn_field-Fades
    ⊕ kinesis_stream_arn_field-Fades
    ⊕ microsoft_sql_server_secrets_manager_access_role_arn_field-Fades
    ⊕ microsoft_sql_server_secrets_manager_secret_id_field-Fades ⊕ mongo_db_kms_key_id_field-Fades
    ⊕ mongo_db_secrets_manager_access_role_arn_field-Fades
    ⊕ mongo_db_secrets_manager_secret_id_field-Fades
    ⊕ my_sql_secrets_manager_access_role_arn_field-Fades
    ⊕ my_sql_secrets_manager_secret_id_field-Fades ⊕ my_sql_service_access_role_arn_field-Fades
    ⊕ neptune_s3_bucket_name_field-Fades ⊕ neptune_service_access_role_arn_field-Fades
    ⊕ oracle_secrets_manager_access_role_arn_field-Fades
    ⊕ oracle_secrets_manager_secret_id_field-Fades
    ⊕ postgre_sql_secrets_manager_access_role_arn_field-Fades
    ⊕ postgre_sql_secrets_manager_secret_id_field-Fades
    ⊕ postgre_sql_service_access_role_arn_field-Fades ⊕ redis_ssl_ca_certificate_arn_field-Fades
    ⊕ redshift_bucket_name_field-Fades ⊕ redshift_secrets_manager_access_role_arn_field-Fades
    ⊕ redshift_secrets_manager_secret_id_field-Fades
    ⊕ redshift_server_side_encryption_kms_key_id_field-Fades
    ⊕ redshift_service_access_role_arn_field-Fades ⊕ s3_bucket_name_field-Fades
    ⊕ s3_server_side_encryption_kms_key_id_field-Fades ⊕ s3_service_access_role_arn_field-Fades
    ⊕ service_access_role_arn_field-Fades ⊕ sybase_secrets_manager_access_role_arn_field-Fades
    ⊕ sybase_secrets_manager_secret_id_field-Fades ⊕ tt

-- Whatever ResolveReferences of an endpoint answers, it changes no field of the Spec but the
-- identifiers of the fields that have references.
pub resolve_endpoint_references-kept :
    {E : Type 0} (env : ReferenceEnv E) (ko : Endpoint)
    → kept_spec (resolve_endpoint_references env ko).0.spec ≡ kept_spec ko.spec
unfolding resolve_endpoint_references kept_spec
resolve_endpoint_references-kept env ko =
    resolve_references-view endpoint_kind (λ k. kept_spec k.spec) env (λ k. k.namespace)
      (λ s k. refl) endpoint_reference_fields endpoint_reference_fields-AllFade ko
