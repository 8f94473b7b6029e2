-- ===== src/ReplicationTask/Types.antt =====
-- ReplicationTask, its Spec and its Status of apis/v1alpha1/replication_task.go. A pointer is an
-- `Option`; a time and a counter are numbers; `ack` holds the first two fields of the Status.
use ack_dms_controller.Base.{Bool, List, Option, String, some, ℕ}
use ack_dms_controller.Base.Dict.{Dict}
use ack_dms_controller.Resource.{ReferenceWrapper, Time}
use ack_dms_controller.Status.{AckStatus}
use ack_dms_controller.Tags.{Tag}

pub record ReplicationTaskSpec : Type 0 where
  pub cdc_start_position : Option String
  pub cdc_start_time : Option Time
  pub cdc_stop_position : Option String
  pub migration_type : Option String
  pub name : Option String
  pub replication_instance_arn : Option String
  pub replication_instance_ref : Option ReferenceWrapper
  pub resource_identifier : Option String
  pub source_endpoint_arn : Option String
  pub source_endpoint_ref : Option ReferenceWrapper
  pub start_replication_task : Option Bool
  pub table_mappings : Option String
  pub tags : Option (List Tag)
  pub target_endpoint_arn : Option String
  pub target_endpoint_ref : Option ReferenceWrapper
  pub task_data : Option String
  pub task_settings : Option String

pub record ReplicationTaskStats : Type 0 where
  pub elapsed_time_millis : Option ℕ
  pub fresh_start_date : Option Time
  pub full_load_finish_date : Option Time
  pub full_load_progress_percent : Option ℕ
  pub full_load_start_date : Option Time
  pub start_date : Option Time
  pub stop_date : Option Time
  pub tables_errored : Option ℕ
  pub tables_loaded : Option ℕ
  pub tables_loading : Option ℕ
  pub tables_queued : Option ℕ

pub record ReplicationTaskStatus : Type 0 where
  pub ack : AckStatus
  pub creation_date : Option Time
  pub last_failure_message : Option String
  pub recovery_checkpoint : Option String
  pub source_endpoint_connection_last_failure_message : Option String
  pub source_endpoint_connection_status : Option String
  pub start_date : Option Time
  pub stats : Option ReplicationTaskStats
  pub stop_reason : Option String
  pub target_endpoint_connection_last_failure_message : Option String
  pub target_endpoint_connection_status : Option String
  pub target_replication_instance_arn : Option String
  pub task_status : Option String

-- The fields of the custom resource that the manager reads or writes.
pub record ReplicationTask : Type 0 where
  pub namespace : String
  pub deletion_timestamp : Option Time
  pub finalizers : List String
  pub annotations : Option (Dict String)
  pub spec : ReplicationTaskSpec
  pub status : ReplicationTaskStatus

abbrev pub with_task_status : String → ReplicationTask → ReplicationTask
with_task_status s ko = record ko { status = record (ko.status) { task_status = some s } }

abbrev pub with_ack : AckStatus → ReplicationTask → ReplicationTask
with_ack a ko = record ko { status = record (ko.status) { ack = a } }
