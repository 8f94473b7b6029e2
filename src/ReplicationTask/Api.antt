-- ===== src/ReplicationTask/Api.antt =====
-- The calls of the AWS SDK that the task manager makes, and the records that they take and return,
-- with the fields that the source names. A parameter of the model.
use ack_dms_controller.Base.{List, Option, String, ℕ}
use ack_dms_controller.Compare.{DeltaOps}
use ack_dms_controller.Resource.{Filter, Time}
use ack_dms_controller.Runtime.{ConditionNames, Errors, Reply}
use ack_dms_controller.Status.{AckStatus}
use ack_dms_controller.TagSync.{SdkTag, TagApi}

pub record SdkTaskStats : Type 0 where
  pub elapsed_time_millis : ℕ
  pub fresh_start_date : Option Time
  pub full_load_finish_date : Option Time
  pub full_load_progress_percent : ℕ
  pub full_load_start_date : Option Time
  pub start_date : Option Time
  pub stop_date : Option Time
  pub tables_errored : ℕ
  pub tables_loaded : ℕ
  pub tables_loading : ℕ
  pub tables_queued : ℕ

-- `svcsdktypes.ReplicationTask`
pub record SdkTask : Type 0 where
  pub cdc_start_position : Option String
  pub cdc_stop_position : Option String
  pub last_failure_message : Option String
  pub migration_type : String
  pub recovery_checkpoint : Option String
  pub replication_instance_arn : Option String
  pub replication_task_arn : Option String
  pub replication_task_creation_date : Option Time
  pub replication_task_identifier : Option String
  pub replication_task_settings : Option String
  pub replication_task_start_date : Option Time
  pub replication_task_stats : Option SdkTaskStats
  pub source_endpoint_arn : Option String
  pub status : Option String
  pub stop_reason : Option String
  pub table_mappings : Option String
  pub target_endpoint_arn : Option String
  pub target_replication_instance_arn : Option String
  pub task_data : Option String

pub record SdkConnection : Type 0 where
  pub endpoint_arn : Option String
  pub status : Option String
  pub last_failure_message : Option String

pub record CreateReplicationTaskInput : Type 0 where
  pub cdc_start_position : Option String
  pub cdc_start_time : Option Time
  pub cdc_stop_position : Option String
  pub migration_type : String
  pub replication_instance_arn : Option String
  pub replication_task_identifier : Option String
  pub replication_task_settings : Option String
  pub resource_identifier : Option String
  pub source_endpoint_arn : Option String
  pub table_mappings : Option String
  pub tags : Option (List SdkTag)
  pub target_endpoint_arn : Option String
  pub task_data : Option String

pub record ModifyReplicationTaskInput : Type 0 where
  pub cdc_start_position : Option String
  pub cdc_start_time : Option Time
  pub cdc_stop_position : Option String
  pub migration_type : String
  pub replication_task_arn : Option String
  pub replication_task_identifier : Option String
  pub replication_task_settings : Option String
  pub table_mappings : Option String
  pub task_data : Option String

pub record StartReplicationTaskInput : Type 0 where
  pub replication_task_arn : Option String
  pub start_replication_task_type : String

pub record TaskApi (W E : Type 0) : Type 0 where
  pub tag_api : TagApi W E
  pub describe_replication_tasks : List Filter → W → Reply (List SdkTask) E × W
  pub describe_connections : List Filter → W → Reply (List SdkConnection) E × W
  -- `resp.ReplicationTask` is read without a test: the SDK sets it where there is no error.
  pub create_replication_task : CreateReplicationTaskInput → W → Reply SdkTask E × W
  pub modify_replication_task : ModifyReplicationTaskInput → W → Reply SdkTask E × W
  pub start_replication_task : StartReplicationTaskInput → W → Reply (Unit {0}) E × W
  pub stop_replication_task : Option String → W → Reply (Unit {0}) E × W
  pub delete_replication_task : Option String → W → Reply (Unit {0}) E × W

-- What the task manager takes from outside: the API, the errors of the ACK runtime, the questions
-- to a delta, `json.Indent` with prefix "" and indent "  ", and `ackcondition.SetSynced`.
pub record TaskEnv (W E D : Type 0) : Type 0 where
  pub api : TaskApi W E
  pub errors : Errors E
  pub names : ConditionNames
  pub delta_ops : DeltaOps D
  pub json_indent : String → Reply String E
  pub set_synced : String → Option String → Option String → AckStatus → AckStatus
