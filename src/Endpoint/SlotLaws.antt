-- ===== src/Endpoint/SlotLaws.antt =====
-- The settings of an endpoint are read and written as fields.
use ack_dms_controller.Base.{refl}
use ack_dms_controller.Endpoint.Slots.{
  dms_transfer_settings_slot, doc_db_settings_slot, dynamo_db_settings_slot,
  elasticsearch_settings_slot, gcp_my_sql_settings_slot, ibmdb2_settings_slot, kafka_settings_slot,
  kinesis_settings_slot, microsoft_sql_server_settings_slot, mongo_db_settings_slot,
  my_sql_settings_slot, neptune_settings_slot, oracle_settings_slot, postgre_sql_settings_slot,
  redis_settings_slot, redshift_settings_slot, s3_settings_slot, sybase_settings_slot,
}
use ack_dms_controller.Endpoint.Types.{endpoint_kind}
use ack_dms_controller.References.Clearing.{SlotLaws}

pub dms_transfer_settings_slot-SlotLaws : SlotLaws endpoint_kind dms_transfer_settings_slot
dms_transfer_settings_slot-SlotLaws = record {
  get_ack = λ a ko. refl;
  get_set = λ o ko. refl;
  set_get = λ ko. refl;
}

pub doc_db_settings_slot-SlotLaws : SlotLaws endpoint_kind doc_db_settings_slot
doc_db_settings_slot-SlotLaws = record {
  get_ack = λ a ko. refl;
  get_set = λ o ko. refl;
  set_get = λ ko. refl;
}

pub dynamo_db_settings_slot-SlotLaws : SlotLaws endpoint_kind dynamo_db_settings_slot
dynamo_db_settings_slot-SlotLaws = record {
  get_ack = λ a ko. refl;
  get_set = λ o ko. refl;
  set_get = λ ko. refl;
}

pub elasticsearch_settings_slot-SlotLaws : SlotLaws endpoint_kind elasticsearch_settings_slot
elasticsearch_settings_slot-SlotLaws = record {
  get_ack = λ a ko. refl;
  get_set = λ o ko. refl;
  set_get = λ ko. refl;
}

pub gcp_my_sql_settings_slot-SlotLaws : SlotLaws endpoint_kind gcp_my_sql_settings_slot
gcp_my_sql_settings_slot-SlotLaws = record {
  get_ack = λ a ko. refl;
  get_set = λ o ko. refl;
  set_get = λ ko. refl;
}

pub ibmdb2_settings_slot-SlotLaws : SlotLaws endpoint_kind ibmdb2_settings_slot
ibmdb2_settings_slot-SlotLaws = record {
  get_ack = λ a ko. refl;
  get_set = λ o ko. refl;
  set_get = λ ko. refl;
}

pub kafka_settings_slot-SlotLaws : SlotLaws endpoint_kind kafka_settings_slot
kafka_settings_slot-SlotLaws = record {
  get_ack = λ a ko. refl;
  get_set = λ o ko. refl;
  set_get = λ ko. refl;
}

pub kinesis_settings_slot-SlotLaws : SlotLaws endpoint_kind kinesis_settings_slot
kinesis_settings_slot-SlotLaws = record {
  get_ack = λ a ko. refl;
  get_set = λ o ko. refl;
  set_get = λ ko. refl;
}

pub microsoft_sql_server_settings_slot-SlotLaws :
    SlotLaws endpoint_kind microsoft_sql_server_settings_slot
microsoft_sql_server_settings_slot-SlotLaws = record {
  get_ack = λ a ko. refl;
  get_set = λ o ko. refl;
  set_get = λ ko. refl;
}

pub mongo_db_settings_slot-SlotLaws : SlotLaws endpoint_kind mongo_db_settings_slot
mongo_db_settings_slot-SlotLaws = record {
  get_ack = λ a ko. refl;
  get_set = λ o ko. refl;
  set_get = λ ko. refl;
}

pub my_sql_settings_slot-SlotLaws : SlotLaws endpoint_kind my_sql_settings_slot
my_sql_settings_slot-SlotLaws = record {
  get_ack = λ a ko. refl;
  get_set = λ o ko. refl;
  set_get = λ ko. refl;
}

pub neptune_settings_slot-SlotLaws : SlotLaws endpoint_kind neptune_settings_slot
neptune_settings_slot-SlotLaws = record {
  get_ack = λ a ko. refl;
  get_set = λ o ko. refl;
  set_get = λ ko. refl;
}

pub oracle_settings_slot-SlotLaws : SlotLaws endpoint_kind oracle_settings_slot
oracle_settings_slot-SlotLaws = record {
  get_ack = λ a ko. refl;
  get_set = λ o ko. refl;
  set_get = λ ko. refl;
}

pub postgre_sql_settings_slot-SlotLaws : SlotLaws endpoint_kind postgre_sql_settings_slot
postgre_sql_settings_slot-SlotLaws = record {
  get_ack = λ a ko. refl;
  get_set = λ o ko. refl;
  set_get = λ ko. refl;
}

pub redis_settings_slot-SlotLaws : SlotLaws endpoint_kind redis_settings_slot
redis_settings_slot-SlotLaws = record {
  get_ack = λ a ko. refl;
  get_set = λ o ko. refl;
  set_get = λ ko. refl;
}

pub redshift_settings_slot-SlotLaws : SlotLaws endpoint_kind redshift_settings_slot
redshift_settings_slot-SlotLaws = record {
  get_ack = λ a ko. refl;
  get_set = λ o ko. refl;
  set_get = λ ko. refl;
}

pub s3_settings_slot-SlotLaws : SlotLaws endpoint_kind s3_settings_slot
s3_settings_slot-SlotLaws = record {
  get_ack = λ a ko. refl;
  get_set = λ o ko. refl;
  set_get = λ ko. refl;
}

pub sybase_settings_slot-SlotLaws : SlotLaws endpoint_kind sybase_settings_slot
sybase_settings_slot-SlotLaws = record {
  get_ack = λ a ko. refl;
  get_set = λ o ko. refl;
  set_get = λ ko. refl;
}
