-- ===== src/Endpoint/Types.antt =====
-- Endpoint, its Spec and its Status of apis/v1alpha1/endpoint.go.
use ack_dms_controller.Base.{Bool, List, Option, String}
use ack_dms_controller.Endpoint.Settings.DmsToMicrosoft.{
  DmsTransferSettings, DocDbSettings, DynamoDbSettings, ElasticsearchSettings, GcpMySqlSettings,
  Ibmdb2Settings, KafkaSettings, KinesisSettings, LakehouseSettings, MicrosoftSqlServerSettings,
}
use ack_dms_controller.Endpoint.Settings.MongoToRedis.{
  MongoDbSettings, MySqlSettings, NeptuneSettings, OracleSettings, PostgreSqlSettings,
  RedisSettings,
}
use ack_dms_controller.Endpoint.Settings.RedshiftToTimestream.{
  RedshiftSettings, S3Settings, SybaseSettings, TimestreamSettings,
}
use ack_dms_controller.Integer.{ℤ}
use ack_dms_controller.Manager.{Kind}
use ack_dms_controller.Resource.{ReferenceWrapper, SecretKeyReference}
use ack_dms_controller.Status.{AckStatus}
use ack_dms_controller.Tags.{Tag}

pub record EndpointSpec : Type 0 where
  pub certificate_arn : Option String
  pub certificate_ref : Option ReferenceWrapper
  pub database_name : Option String
  pub dms_transfer_settings : Option DmsTransferSettings
  pub doc_db_settings : Option DocDbSettings
  pub dynamo_db_settings : Option DynamoDbSettings
  pub elasticsearch_settings : Option ElasticsearchSettings
  pub endpoint_type : Option String
  pub engine_name : Option String
  pub external_table_definition : Option String
  pub extra_connection_attributes : Option String
  pub gcp_my_sql_settings : Option GcpMySqlSettings
  pub ibmdb2_settings : Option Ibmdb2Settings
  pub kafka_settings : Option KafkaSettings
  pub kinesis_settings : Option KinesisSettings
  pub kms_key_id : Option String
  pub kms_key_ref : Option ReferenceWrapper
  pub microsoft_sql_server_settings : Option MicrosoftSqlServerSettings
  pub mongo_db_settings : Option MongoDbSettings
  pub my_sql_settings : Option MySqlSettings
  pub name : Option String
  pub neptune_settings : Option NeptuneSettings
  pub oracle_settings : Option OracleSettings
  pub password : Option SecretKeyReference
  pub port : Option ℤ
  pub postgre_sql_settings : Option PostgreSqlSettings
  pub redis_settings : Option RedisSettings
  pub redshift_settings : Option RedshiftSettings
  pub resource_identifier : Option String
  pub s3_settings : Option S3Settings
  pub server_name : Option String
  pub service_access_role_arn : Option String
  pub service_access_role_ref : Option ReferenceWrapper
  pub ssl_mode : Option String
  pub sybase_settings : Option SybaseSettings
  pub tags : Option (List Tag)
  pub timestream_settings : Option TimestreamSettings
  pub username : Option String

pub record EndpointStatus : Type 0 where
  pub ack : AckStatus
  pub endpoint_status : Option String
  pub engine_display_name : Option String
  pub external_id : Option String
  pub is_read_only : Option Bool
  pub lakehouse_settings : Option LakehouseSettings

-- The fields of the custom resource that the manager reads or writes.
pub record Endpoint : Type 0 where
  pub namespace : String
  pub spec : EndpointSpec
  pub status : EndpointStatus

abbrev pub endpoint_kind : Kind Endpoint
endpoint_kind = record {
  ack = λ ko. ko.status.ack;
  set_ack = λ a ko. record ko { status = record (ko.status) { ack = a } };
  tags = λ ko. ko.spec.tags;
  set_tags = λ t ko. record ko { spec = record (ko.spec) { tags = t } };
}
