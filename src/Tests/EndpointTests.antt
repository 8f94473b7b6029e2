-- ===== src/Tests/EndpointTests.antt =====
-- The theorem on endpoints at a concrete input.
use ack_dms_controller.Base.{none, some, ◌≡◌}
use ack_dms_controller.Endpoint.References.{clear_endpoint_references, resolve_endpoint_references}
use ack_dms_controller.Endpoint.RoundTrip.{clear-resolve_endpoint_references}
use ack_dms_controller.Endpoint.Settings.MongoToRedis.{RedisSettings}
use ack_dms_controller.Endpoint.Types.{Endpoint}
use ack_dms_controller.Tests.ReferenceSamples.{reference_env, reference_to}
use ack_dms_controller.Tests.Samples.{sample_status}

abbrev redis_settings : RedisSettings
redis_settings = record {
  auth_password = none;
  auth_type = none;
  auth_user_name = none;
  port = none;
  server_name = none;
  ssl_ca_certificate_arn = none;
  ssl_ca_certificate_ref = some (reference_to "ca");
  ssl_security_protocol = none;
}

-- An endpoint with a certificate by reference, in its settings.
abbrev referring_endpoint : Endpoint
referring_endpoint = record {
  namespace = "default";
  spec = record {
    certificate_arn = none;
    certificate_ref = none;
    database_name = none;
    dms_transfer_settings = none;
    doc_db_settings = none;
    dynamo_db_settings = none;
    elasticsearch_settings = none;
    endpoint_type = none;
    engine_name = none;
    external_table_definition = none;
    extra_connection_attributes = none;
    gcp_my_sql_settings = none;
    ibmdb2_settings = none;
    kafka_settings = none;
    kinesis_settings = none;
    kms_key_id = none;
    kms_key_ref = none;
    microsoft_sql_server_settings = none;
    mongo_db_settings = none;
    my_sql_settings = none;
    name = some "endpoint";
    neptune_settings = none;
    oracle_settings = none;
    password = none;
    port = none;
    postgre_sql_settings = none;
    redis_settings = some redis_settings;
    redshift_settings = none;
    resource_identifier = none;
    s3_settings = none;
    server_name = none;
    service_access_role_arn = none;
    service_access_role_ref = none;
    ssl_mode = none;
    sybase_settings = none;
    tags = none;
    timestream_settings = none;
    username = none;
  };
  status = record {
    ack = sample_status;
    endpoint_status = none;
    engine_display_name = none;
    external_id = none;
    is_read_only = none;
    lakehouse_settings = none;
  };
}

clear-resolve_endpoint_references_example :
    (clear_endpoint_references
      (resolve_endpoint_references reference_env referring_endpoint).0).spec
    ≡ (clear_endpoint_references referring_endpoint).spec
clear-resolve_endpoint_references_example =
    clear-resolve_endpoint_references reference_env referring_endpoint
