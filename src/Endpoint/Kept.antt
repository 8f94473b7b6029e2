-- ===== src/Endpoint/Kept.antt =====
-- The Spec of an endpoint up to the identifiers of the fields that have references.
use mathlib.Core.Option
use ack_dms_controller.Endpoint.Settings.DmsToMicrosoft.{
  DmsTransferSettings, DocDbSettings, DynamoDbSettings, ElasticsearchSettings, GcpMySqlSettings,
  Ibmdb2Settings, KafkaSettings, KinesisSettings, MicrosoftSqlServerSettings,
}
use ack_dms_controller.Endpoint.Settings.MongoToRedis.{
  MongoDbSettings, MySqlSettings, NeptuneSettings, OracleSettings, PostgreSqlSettings,
  RedisSettings,
}
use ack_dms_controller.Endpoint.Settings.RedshiftToTimestream.{
  RedshiftSettings, S3Settings, SybaseSettings,
}
use ack_dms_controller.Endpoint.Types.{EndpointSpec}
use ack_dms_controller.References.Clearing.{kept}

abbrev pub kept_dms_transfer_settings : DmsTransferSettings → DmsTransferSettings
kept_dms_transfer_settings s = record s {
  service_access_role_arn = kept s.service_access_role_ref s.service_access_role_arn;
}

abbrev pub kept_doc_db_settings : DocDbSettings → DocDbSettings
kept_doc_db_settings s = record s {
  kms_key_id = kept s.kms_key_ref s.kms_key_id;
  secrets_manager_access_role_arn =
      kept s.secrets_manager_access_role_ref s.secrets_manager_access_role_arn;
  secrets_manager_secret_id = kept s.secrets_manager_secret_ref s.secrets_manager_secret_id;
}

abbrev pub kept_dynamo_db_settings : DynamoDbSettings → DynamoDbSettings
kept_dynamo_db_settings s = record s {
  service_access_role_arn = kept s.service_access_role_ref s.service_access_role_arn;
}

abbrev pub kept_elasticsearch_settings : ElasticsearchSettings → ElasticsearchSettings
kept_elasticsearch_settings s = record s {
  service_access_role_arn = kept s.service_access_role_ref s.service_access_role_arn;
}

abbrev pub kept_gcp_my_sql_settings : GcpMySqlSettings → GcpMySqlSettings
kept_gcp_my_sql_settings s = record s {
  secrets_manager_access_role_arn =
      kept s.secrets_manager_access_role_ref s.secrets_manager_access_role_arn;
  secrets_manager_secret_id = kept s.secrets_manager_secret_ref s.secrets_manager_secret_id;
}

abbrev pub kept_ibmdb2_settings : Ibmdb2Settings → Ibmdb2Settings
kept_ibmdb2_settings s = record s {
  secrets_manager_access_role_arn =
      kept s.secrets_manager_access_role_ref s.secrets_manager_access_role_arn;
  secrets_manager_secret_id = kept s.secrets_manager_secret_ref s.secrets_manager_secret_id;
}

abbrev pub kept_kafka_settings : KafkaSettings → KafkaSettings
kept_kafka_settings s = record s {
  ssl_ca_certificate_arn = kept s.ssl_ca_certificate_ref s.ssl_ca_certificate_arn;
  ssl_client_certificate_arn = kept s.ssl_client_certificate_ref s.ssl_client_certificate_arn;
  ssl_client_key_arn = kept s.ssl_client_key_ref s.ssl_client_key_arn;
}

abbrev pub kept_kinesis_settings : KinesisSettings → KinesisSettings
kept_kinesis_settings s = record s {
  service_access_role_arn = kept s.service_access_role_ref s.service_access_role_arn;
  stream_arn = kept s.stream_ref s.stream_arn;
}

abbrev pub kept_microsoft_sql_server_settings :
    MicrosoftSqlServerSettings → MicrosoftSqlServerSettings
kept_microsoft_sql_server_settings s = record s {
  secrets_manager_access_role_arn =
      kept s.secrets_manager_access_role_ref s.secrets_manager_access_role_arn;
  secrets_manager_secret_id = kept s.secrets_manager_secret_ref s.secrets_manager_secret_id;
}

abbrev pub kept_mongo_db_settings : MongoDbSettings → MongoDbSettings
kept_mongo_db_settings s = record s {
  kms_key_id = kept s.kms_key_ref s.kms_key_id;
  secrets_manager_access_role_arn =
      kept s.secrets_manager_access_role_ref s.secrets_manager_access_role_arn;
  secrets_manager_secret_id = kept s.secrets_manager_secret_ref s.secrets_manager_secret_id;
}

abbrev pub kept_my_sql_settings : MySqlSettings → MySqlSettings
kept_my_sql_settings s = record s {
  secrets_manager_access_role_arn =
      kept s.secrets_manager_access_role_ref s.secrets_manager_access_role_arn;
  secrets_manager_secret_id = kept s.secrets_manager_secret_ref s.secrets_manager_secret_id;
  service_access_role_arn = kept s.service_access_role_ref s.service_access_role_arn;
}

abbrev pub kept_neptune_settings : NeptuneSettings → NeptuneSettings
kept_neptune_settings s = record s {
  s3_bucket_name = kept s.s3_bucket_ref s.s3_bucket_name;
  service_access_role_arn = kept s.service_access_role_ref s.service_access_role_arn;
}

abbrev pub kept_oracle_settings : OracleSettings → OracleSettings
kept_oracle_settings s = record s {
  secrets_manager_access_role_arn =
      kept s.secrets_manager_access_role_ref s.secrets_manager_access_role_arn;
  secrets_manager_secret_id = kept s.secrets_manager_secret_ref s.secrets_manager_secret_id;
}

abbrev pub kept_postgre_sql_settings : PostgreSqlSettings → PostgreSqlSettings
kept_postgre_sql_settings s = record s {
  secrets_manager_access_role_arn =
      kept s.secrets_manager_access_role_ref s.secrets_manager_access_role_arn;
  secrets_manager_secret_id = kept s.secrets_manager_secret_ref s.secrets_manager_secret_id;
  service_access_role_arn = kept s.service_access_role_ref s.service_access_role_arn;
}

abbrev pub kept_redis_settings : RedisSettings → RedisSettings
kept_redis_settings s = record s {
  ssl_ca_certificate_arn = kept s.ssl_ca_certificate_ref s.ssl_ca_certificate_arn;
}

abbrev pub kept_redshift_settings : RedshiftSettings → RedshiftSettings
kept_redshift_settings s = record s {
  bucket_name = kept s.bucket_ref s.bucket_name;
  secrets_manager_access_role_arn =
      kept s.secrets_manager_access_role_ref s.secrets_manager_access_role_arn;
  secrets_manager_secret_id = kept s.secrets_manager_secret_ref s.secrets_manager_secret_id;
  server_side_encryption_kms_key_id =
      kept s.server_side_encryption_kms_key_ref s.server_side_encryption_kms_key_id;
  service_access_role_arn = kept s.service_access_role_ref s.service_access_role_arn;
}

abbrev pub kept_s3_settings : S3Settings → S3Settings
kept_s3_settings s = record s {
  bucket_name = kept s.bucket_ref s.bucket_name;
  server_side_encryption_kms_key_id =
      kept s.server_side_encryption_kms_key_ref s.server_side_encryption_kms_key_id;
  service_access_role_arn = kept s.service_access_role_ref s.service_access_role_arn;
}

abbrev pub kept_sybase_settings : SybaseSettings → SybaseSettings
kept_sybase_settings s = record s {
  secrets_manager_access_role_arn =
      kept s.secrets_manager_access_role_ref s.secrets_manager_access_role_arn;
  secrets_manager_secret_id = kept s.secrets_manager_secret_ref s.secrets_manager_secret_id;
}

unfoldable pub kept_spec : EndpointSpec → EndpointSpec
kept_spec s = record s {
  certificate_arn = kept s.certificate_ref s.certificate_arn;
  kms_key_id = kept s.kms_key_ref s.kms_key_id;
  service_access_role_arn = kept s.service_access_role_ref s.service_access_role_arn;
  dms_transfer_settings = Option.map kept_dms_transfer_settings s.dms_transfer_settings;
  doc_db_settings = Option.map kept_doc_db_settings s.doc_db_settings;
  dynamo_db_settings = Option.map kept_dynamo_db_settings s.dynamo_db_settings;
  elasticsearch_settings = Option.map kept_elasticsearch_settings s.elasticsearch_settings;
  gcp_my_sql_settings = Option.map kept_gcp_my_sql_settings s.gcp_my_sql_settings;
  ibmdb2_settings = Option.map kept_ibmdb2_settings s.ibmdb2_settings;
  kafka_settings = Option.map kept_kafka_settings s.kafka_settings;
  kinesis_settings = Option.map kept_kinesis_settings s.kinesis_settings;
  microsoft_sql_server_settings =
      Option.map kept_microsoft_sql_server_settings s.microsoft_sql_server_settings;
  mongo_db_settings = Option.map kept_mongo_db_settings s.mongo_db_settings;
  my_sql_settings = Option.map kept_my_sql_settings s.my_sql_settings;
  neptune_settings = Option.map kept_neptune_settings s.neptune_settings;
  oracle_settings = Option.map kept_oracle_settings s.oracle_settings;
  postgre_sql_settings = Option.map kept_postgre_sql_settings s.postgre_sql_settings;
  redis_settings = Option.map kept_redis_settings s.redis_settings;
  redshift_settings = Option.map kept_redshift_settings s.redshift_settings;
  s3_settings = Option.map kept_s3_settings s.s3_settings;
  sybase_settings = Option.map kept_sybase_settings s.sybase_settings;
}
