-- ===== src/Endpoint/References.antt =====
-- references.go of pkg/resource/endpoint.
use ack_dms_controller.Base.{Bool, List, Option, [], ◌++◌, ◌∷◌}
use ack_dms_controller.Endpoint.Fields.CertificateToIbmdb2.{
  certificate_arn_field, dms_transfer_settings_fields, doc_db_settings_fields,
  dynamo_db_settings_fields, elasticsearch_settings_fields, gcp_my_sql_settings_fields,
  ibmdb2_settings_fields,
}
use ack_dms_controller.Endpoint.Fields.KmsToNeptune.{
  endpoint_kms_key_id_field, kafka_settings_fields, kinesis_settings_fields,
  microsoft_sql_server_settings_fields, mongo_db_settings_fields, my_sql_settings_fields,
  neptune_settings_fields,
}
use ack_dms_controller.Endpoint.Fields.OracleToSybase.{
  oracle_settings_fields, postgre_sql_settings_fields, redis_settings_fields,
  redshift_settings_fields, s3_settings_fields, service_access_role_arn_field,
  sybase_settings_fields,
}
use ack_dms_controller.Endpoint.Slots.{
  dms_transfer_settings_slot, doc_db_settings_slot, dynamo_db_settings_slot,
  elasticsearch_settings_slot, gcp_my_sql_settings_slot, ibmdb2_settings_slot, kafka_settings_slot,
  kinesis_settings_slot, microsoft_sql_server_settings_slot, mongo_db_settings_slot,
  my_sql_settings_slot, neptune_settings_slot, oracle_settings_slot, postgre_sql_settings_slot,
  redis_settings_slot, redshift_settings_slot, s3_settings_slot, sybase_settings_slot,
}
use ack_dms_controller.Endpoint.Types.{Endpoint, endpoint_kind}
use ack_dms_controller.References.{
  ReferenceEnv, ReferenceField, clear_resolved_references, resolve_references,
  validate_reference_fields,
}
use ack_dms_controller.References.Shapes.{nested_all}

abbrev pub endpoint_reference_fields : List (ReferenceField Endpoint)
endpoint_reference_fields =
    (certificate_arn_field ∷ [])
    ++ nested_all dms_transfer_settings_slot dms_transfer_settings_fields []
    ++ nested_all doc_db_settings_slot doc_db_settings_fields []
    ++ nested_all dynamo_db_settings_slot dynamo_db_settings_fields []
    ++ nested_all elasticsearch_settings_slot elasticsearch_settings_fields []
    ++ nested_all gcp_my_sql_settings_slot gcp_my_sql_settings_fields []
    ++ nested_all ibmdb2_settings_slot ibmdb2_settings_fields []
    ++ (endpoint_kms_key_id_field ∷ [])
    ++ nested_all kafka_settings_slot kafka_settings_fields []
    ++ nested_all kinesis_settings_slot kinesis_settings_fields []
    ++ nested_all microsoft_sql_server_settings_slot microsoft_sql_server_settings_fields []
    ++ nested_all mongo_db_settings_slot mongo_db_settings_fields []
    ++ nested_all my_sql_settings_slot my_sql_settings_fields []
    ++ nested_all neptune_settings_slot neptune_settings_fields []
    ++ nested_all oracle_settings_slot oracle_settings_fields []
    ++ nested_all postgre_sql_settings_slot postgre_sql_settings_fields []
    ++ nested_all redis_settings_slot redis_settings_fields []
    ++ nested_all redshift_settings_slot redshift_settings_fields []
    ++ nested_all s3_settings_slot s3_settings_fields []
    ++ (service_access_role_arn_field ∷ [])
    ++ nested_all sybase_settings_slot sybase_settings_fields []

unfoldable pub clear_endpoint_references : Endpoint → Endpoint
unfolding clear_resolved_references
clear_endpoint_references = clear_resolved_references endpoint_reference_fields

unfoldable pub validate_endpoint_references : {E : Type 0} → ReferenceEnv E → Endpoint → Option E
unfolding validate_reference_fields
validate_endpoint_references env = validate_reference_fields env endpoint_reference_fields

unfoldable pub resolve_endpoint_references :
    {E : Type 0} → ReferenceEnv E → Endpoint → Endpoint × Bool × Option E
unfolding resolve_references
resolve_endpoint_references env =
    resolve_references env endpoint_kind (λ ko. ko.namespace) endpoint_reference_fields
