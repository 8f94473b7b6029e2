-- ===== src/Endpoint/Slots.antt =====
-- The settings of an endpoint that have references, and the kinds of resource that they refer to.
use ack_dms_controller.Endpoint.Settings.DmsToMicrosoft.{
  DmsTransferSettings, DocDbSettings, DynamoDbSettings, ElasticsearchSettings, GcpMySqlSettings,
  Ibmdb2Settings, KafkaSettings, KinesisSettings, MicrosoftSqlServerSettings,
}
use ack_dms_controller.Endpoint.Settings.MongoToRedis.{
  MongoDbSettings, MySqlSettings, NeptuneSettings, OracleSettings, PostgreSqlSettings,
  RedisSettings,
}
use ack_dms_controller.Endpoint.Settings.RedshiftToTimestream.{
  RedshiftSettings, S3Settings, SybaseSettings,
}
use ack_dms_controller.Endpoint.Types.{Endpoint}
use ack_dms_controller.References.{ReferenceTarget}
use ack_dms_controller.References.Shapes.{Slot}

abbrev pub certificate_target : ReferenceTarget
certificate_target = record { kind = "Certificate"; field_name = "Status.ACKResourceMetadata.ARN" }

abbrev pub stream_target : ReferenceTarget
stream_target = record { kind = "Stream"; field_name = "Status.ACKResourceMetadata.ARN" }

abbrev pub bucket_target : ReferenceTarget
bucket_target = record { kind = "Bucket"; field_name = "Spec.Name" }

abbrev pub dms_transfer_settings_slot : Slot Endpoint DmsTransferSettings
dms_transfer_settings_slot = record {
  get = λ ko. ko.spec.dms_transfer_settings;
  set = λ o ko. record ko { spec = record (ko.spec) { dms_transfer_settings = o } };
}

abbrev pub doc_db_settings_slot : Slot Endpoint DocDbSettings
doc_db_settings_slot = record {
  get = λ ko. ko.spec.doc_db_settings;
  set = λ o ko. record ko { spec = record (ko.spec) { doc_db_settings = o } };
}

abbrev pub dynamo_db_settings_slot : Slot Endpoint DynamoDbSettings
dynamo_db_settings_slot = record {
  get = λ ko. ko.spec.dynamo_db_settings;
  set = λ o ko. record ko { spec = record (ko.spec) { dynamo_db_settings = o } };
}

abbrev pub elasticsearch_settings_slot : Slot Endpoint ElasticsearchSettings
elasticsearch_settings_slot = record {
  get = λ ko. ko.spec.elasticsearch_settings;
  set = λ o ko. record ko { spec = record (ko.spec) { elasticsearch_settings = o } };
}

abbrev pub gcp_my_sql_settings_slot : Slot Endpoint GcpMySqlSettings
gcp_my_sql_settings_slot = record {
  get = λ ko. ko.spec.gcp_my_sql_settings;
  set = λ o ko. record ko { spec = record (ko.spec) { gcp_my_sql_settings = o } };
}

abbrev pub ibmdb2_settings_slot : Slot Endpoint Ibmdb2Settings
ibmdb2_settings_slot = record {
  get = λ ko. ko.spec.ibmdb2_settings;
  set = λ o ko. record ko { spec = record (ko.spec) { ibmdb2_settings = o } };
}

abbrev pub kafka_settings_slot : Slot Endpoint KafkaSettings
kafka_settings_slot = record {
  get = λ ko. ko.spec.kafka_settings;
  set = λ o ko. record ko { spec = record (ko.spec) { kafka_settings = o } };
}

abbrev pub kinesis_settings_slot : Slot Endpoint KinesisSettings
kinesis_settings_slot = record {
  get = λ ko. ko.spec.kinesis_settings;
  set = λ o ko. record ko { spec = record (ko.spec) { kinesis_settings = o } };
}

abbrev pub microsoft_sql_server_settings_slot : Slot Endpoint MicrosoftSqlServerSettings
microsoft_sql_server_settings_slot = record {
  get = λ ko. ko.spec.microsoft_sql_server_settings;
  set = λ o ko. record ko { spec = record (ko.spec) { microsoft_sql_server_settings = o } };
}

abbrev pub mongo_db_settings_slot : Slot Endpoint MongoDbSettings
mongo_db_settings_slot = record {
  get = λ ko. ko.spec.mongo_db_settings;
  set = λ o ko. record ko { spec = record (ko.spec) { mongo_db_settings = o } };
}

abbrev pub my_sql_settings_slot : Slot Endpoint MySqlSettings
my_sql_settings_slot = record {
  get = λ ko. ko.spec.my_sql_settings;
  set = λ o ko. record ko { spec = record (ko.spec) { my_sql_settings = o } };
}

abbrev pub neptune_settings_slot : Slot Endpoint NeptuneSettings
neptune_settings_slot = record {
  get = λ ko. ko.spec.neptune_settings;
  set = λ o ko. record ko { spec = record (ko.spec) { neptune_settings = o } };
}

abbrev pub oracle_settings_slot : Slot Endpoint OracleSettings
oracle_settings_slot = record {
  get = λ ko. ko.spec.oracle_settings;
  set = λ o ko. record ko { spec = record (ko.spec) { oracle_settings = o } };
}

abbrev pub postgre_sql_settings_slot : Slot Endpoint PostgreSqlSettings
postgre_sql_settings_slot = record {
  get = λ ko. ko.spec.postgre_sql_settings;
  set = λ o ko. record ko { spec = record (ko.spec) { postgre_sql_settings = o } };
}

abbrev pub redis_settings_slot : Slot Endpoint RedisSettings
redis_settings_slot = record {
  get = λ ko. ko.spec.redis_settings;
  set = λ o ko. record ko { spec = record (ko.spec) { redis_settings = o } };
}

abbrev pub redshift_settings_slot : Slot Endpoint RedshiftSettings
redshift_settings_slot = record {
  get = λ ko. ko.spec.redshift_settings;
  set = λ o ko. record ko { spec = record (ko.spec) { redshift_settings = o } };
}

abbrev pub s3_settings_slot : Slot Endpoint S3Settings
s3_settings_slot = record {
  get = λ ko. ko.spec.s3_settings;
  set = λ o ko. record ko { spec = record (ko.spec) { s3_settings = o } };
}

abbrev pub sybase_settings_slot : Slot Endpoint SybaseSettings
sybase_settings_slot = record {
  get = λ ko. ko.spec.sybase_settings;
  set = λ o ko. record ko { spec = record (ko.spec) { sybase_settings = o } };
}
