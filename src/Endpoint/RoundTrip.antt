-- ===== src/Endpoint/RoundTrip.antt =====
-- ClearResolvedReferences of an endpoint, and after ResolveReferences.
use ack_dms_controller.Base.{ap, refl, sym, ◌∙◌, ◌≡◌}
use ack_dms_controller.Endpoint.Cleared.DmsToIbmdb2.{
  clear-dms_transfer_settings_fields, clear-doc_db_settings_fields, clear-dynamo_db_settings_fields,
  clear-elasticsearch_settings_fields, clear-gcp_my_sql_settings_fields,
  clear-ibmdb2_settings_fields,
}
use ack_dms_controller.Endpoint.Cleared.KafkaToNeptune.{
  clear-kafka_settings_fields, clear-kinesis_settings_fields,
  clear-microsoft_sql_server_settings_fields, clear-mongo_db_settings_fields,
  clear-my_sql_settings_fields, clear-neptune_settings_fields,
}
use ack_dms_controller.Endpoint.Cleared.OracleToSybase.{
  clear-oracle_settings_fields, clear-postgre_sql_settings_fields, clear-redis_settings_fields,
  clear-redshift_settings_fields, clear-s3_settings_fields, clear-sybase_settings_fields,
}
use ack_dms_controller.Endpoint.Fields.CertificateToIbmdb2.{
  dms_transfer_settings_fields, doc_db_settings_fields, dynamo_db_settings_fields,
  elasticsearch_settings_fields, gcp_my_sql_settings_fields, ibmdb2_settings_fields,
}
use ack_dms_controller.Endpoint.Fields.KmsToNeptune.{
  kafka_settings_fields, kinesis_settings_fields, microsoft_sql_server_settings_fields,
  mongo_db_settings_fields, my_sql_settings_fields, neptune_settings_fields,
}
use ack_dms_controller.Endpoint.Fields.OracleToSybase.{
  oracle_settings_fields, postgre_sql_settings_fields, redis_settings_fields,
  redshift_settings_fields, s3_settings_fields, sybase_settings_fields,
}
use ack_dms_controller.Endpoint.Keeping.{resolve_endpoint_references-kept}
use ack_dms_controller.Endpoint.Kept.{
  kept_dms_transfer_settings, kept_doc_db_settings, kept_dynamo_db_settings,
  kept_elasticsearch_settings, kept_gcp_my_sql_settings, kept_ibmdb2_settings, kept_kafka_settings,
  kept_kinesis_settings, kept_microsoft_sql_server_settings, kept_mongo_db_settings,
  kept_my_sql_settings, kept_neptune_settings, kept_oracle_settings, kept_postgre_sql_settings,
  kept_redis_settings, kept_redshift_settings, kept_s3_settings, kept_spec, kept_sybase_settings,
}
use ack_dms_controller.Endpoint.References.{
  clear_endpoint_references, endpoint_reference_fields, resolve_endpoint_references,
}
use ack_dms_controller.Endpoint.Slots.{
  dms_transfer_settings_slot, doc_db_settings_slot, dynamo_db_settings_slot,
  elasticsearch_settings_slot, gcp_my_sql_settings_slot, ibmdb2_settings_slot, kafka_settings_slot,
  kinesis_settings_slot, microsoft_sql_server_settings_slot, mongo_db_settings_slot,
  my_sql_settings_slot, neptune_settings_slot, oracle_settings_slot, postgre_sql_settings_slot,
  redis_settings_slot, redshift_settings_slot, s3_settings_slot, sybase_settings_slot,
}
use ack_dms_controller.Endpoint.Types.{Endpoint}
use ack_dms_controller.References.{ReferenceEnv, clear_resolved_references}
use ack_dms_controller.References.Blocks.{clear-nil, clear-scalar, clear-slot}

clear-endpoint_reference_fields :
    (ko : Endpoint)
    → clear_resolved_references endpoint_reference_fields ko
      ≡ record ko { spec = kept_spec ko.spec }
unfolding kept_spec
clear-endpoint_reference_fields ko =
    clear-scalar _ _ _ _ _ _ (λ o ko. record ko { spec = record (ko.spec) { certificate_arn = o } })
      _ _ (λ ko. refl)
    ∙ clear-slot dms_transfer_settings_slot (λ o ko. refl) (λ o p ko. refl) (λ ko. refl)
        dms_transfer_settings_fields kept_dms_transfer_settings clear-dms_transfer_settings_fields _
        _
    ∙ clear-slot doc_db_settings_slot (λ o ko. refl) (λ o p ko. refl) (λ ko. refl)
        doc_db_settings_fields kept_doc_db_settings clear-doc_db_settings_fields _ _
    ∙ clear-slot dynamo_db_settings_slot (λ o ko. refl) (λ o p ko. refl) (λ ko. refl)
        dynamo_db_settings_fields kept_dynamo_db_settings clear-dynamo_db_settings_fields _ _
    ∙ clear-slot elasticsearch_settings_slot (λ o ko. refl) (λ o p ko. refl) (λ ko. refl)
        elasticsearch_settings_fields kept_elasticsearch_settings
        clear-elasticsearch_settings_fields _ _
    ∙ clear-slot gcp_my_sql_settings_slot (λ o ko. refl) (λ o p ko. refl) (λ ko. refl)
        gcp_my_sql_settings_fields kept_gcp_my_sql_settings clear-gcp_my_sql_settings_fields _ _
    ∙ clear-slot ibmdb2_settings_slot (λ o ko. refl) (λ o p ko. refl) (λ ko. refl)
        ibmdb2_settings_fields kept_ibmdb2_settings clear-ibmdb2_settings_fields _ _
    ∙ clear-scalar _ _ _ _ _ _ (λ o ko. record ko { spec = record (ko.spec) { kms_key_id = o } }) _
        _ (λ ko. refl)
    ∙ clear-slot kafka_settings_slot (λ o ko. refl) (λ o p ko. refl) (λ ko. refl)
        kafka_settings_fields kept_kafka_settings clear-kafka_settings_fields _ _
    ∙ clear-slot kinesis_settings_slot (λ o ko. refl) (λ o p ko. refl) (λ ko. refl)
        kinesis_settings_fields kept_kinesis_settings clear-kinesis_settings_fields _ _
    ∙ clear-slot microsoft_sql_server_settings_slot (λ o ko. refl) (λ o p ko. refl) (λ ko. refl)
        microsoft_sql_server_settings_fields kept_microsoft_sql_server_settings
        clear-microsoft_sql_server_settings_fields _ _
    ∙ clear-slot mongo_db_settings_slot (λ o ko. refl) (λ o p ko. refl) (λ ko. refl)
        mongo_db_settings_fields kept_mongo_db_settings clear-mongo_db_settings_fields _ _
    ∙ clear-slot my_sql_settings_slot (λ o ko. refl) (λ o p ko. refl) (λ ko. refl)
        my_sql_settings_fields kept_my_sql_settings clear-my_sql_settings_fields _ _
    ∙ clear-slot neptune_settings_slot (λ o ko. refl) (λ o p ko. refl) (λ ko. refl)
        neptune_settings_fields kept_neptune_settings clear-neptune_settings_fields _ _
    ∙ clear-slot oracle_settings_slot (λ o ko. refl) (λ o p ko. refl) (λ ko. refl)
        oracle_settings_fields kept_oracle_settings clear-oracle_settings_fields _ _
    ∙ clear-slot postgre_sql_settings_slot (λ o ko. refl) (λ o p ko. refl) (λ ko. refl)
        postgre_sql_settings_fields kept_postgre_sql_settings clear-postgre_sql_settings_fields _ _
    ∙ clear-slot redis_settings_slot (λ o ko. refl) (λ o p ko. refl) (λ ko. refl)
        redis_settings_fields kept_redis_settings clear-redis_settings_fields _ _
    ∙ clear-slot redshift_settings_slot (λ o ko. refl) (λ o p ko. refl) (λ ko. refl)
        redshift_settings_fields kept_redshift_settings clear-redshift_settings_fields _ _
    ∙ clear-slot s3_settings_slot (λ o ko. refl) (λ o p ko. refl) (λ ko. refl) s3_settings_fields
        kept_s3_settings clear-s3_settings_fields _ _
    ∙ clear-scalar _ _ _ _ _ _
        (λ o ko. record ko { spec = record (ko.spec) { service_access_role_arn = o } }) _ _
        (λ ko. refl)
    ∙ clear-slot sybase_settings_slot (λ o ko. refl) (λ o p ko. refl) (λ ko. refl)
        sybase_settings_fields kept_sybase_settings clear-sybase_settings_fields _ _
    ∙ clear-nil _

clear_endpoint_references-kept :
    (ko : Endpoint) → (clear_endpoint_references ko).spec ≡ kept_spec ko.spec
unfolding clear_endpoint_references
clear_endpoint_references-kept ko = ap (λ k. k.spec) (clear-endpoint_reference_fields ko)

-- Whatever ResolveReferences of an endpoint answers, ClearResolvedReferences takes away what it has
-- written: the resource that it returns has the same spec, cleared, as the resource that it was
-- given.
pub clear-resolve_endpoint_references :
    {E : Type 0} (env : ReferenceEnv E) (ko : Endpoint)
    → (clear_endpoint_references (resolve_endpoint_references env ko).0).spec
      ≡ (clear_endpoint_references ko).spec
clear-resolve_endpoint_references env ko =
    clear_endpoint_references-kept (resolve_endpoint_references env ko).0
    ∙ resolve_endpoint_references-kept env ko
    ∙ sym (clear_endpoint_references-kept ko)
