-- ===== src/ReplicationTask/Merge.antt =====
-- How sdk.go merges what the API returns into a copy of the resource. A field that is set from a
-- pointer, or to nil where the pointer is nil, is set to that pointer.
use mathlib.Core.Option
use ack_dms_controller.Base.{Option, String, false, if◌then◌else◌, none, some, true, ◌==◌}
use ack_dms_controller.ReplicationTask.Api.{SdkTask, SdkTaskStats}
use ack_dms_controller.ReplicationTask.Types.{ReplicationTask, ReplicationTaskStats}
use ack_dms_controller.Status.{with_arn}

abbrev stats_of : SdkTaskStats → ReplicationTaskStats
stats_of s = record {
  elapsed_time_millis = some s.elapsed_time_millis;
  fresh_start_date = s.fresh_start_date;
  full_load_finish_date = s.full_load_finish_date;
  full_load_progress_percent = some s.full_load_progress_percent;
  full_load_start_date = s.full_load_start_date;
  start_date = s.start_date;
  stop_date = s.stop_date;
  tables_errored = some s.tables_errored;
  tables_loaded = some s.tables_loaded;
  tables_loading = some s.tables_loading;
  tables_queued = some s.tables_queued;
}

-- An enum value of the SDK that is not set is the empty text.
abbrev enum_of : String → Option String
enum_of s = if s == "" then none else some s

-- The body of the loop of sdkFind: the identifier and the settings are not merged.
unfoldable pub merge_found : SdkTask → ReplicationTask → ReplicationTask
merge_found elem ko = record ko {
  spec = record (ko.spec) {
    cdc_start_position = elem.cdc_start_position;
    cdc_stop_position = elem.cdc_stop_position;
    migration_type = enum_of elem.migration_type;
    replication_instance_arn = elem.replication_instance_arn;
    source_endpoint_arn = elem.source_endpoint_arn;
    table_mappings = elem.table_mappings;
    target_endpoint_arn = elem.target_endpoint_arn;
    task_data = elem.task_data;
  };
  status = record (ko.status) {
    ack = with_arn false elem.replication_task_arn ko.status.ack;
    last_failure_message = elem.last_failure_message;
    recovery_checkpoint = elem.recovery_checkpoint;
    creation_date = elem.replication_task_creation_date;
    start_date = elem.replication_task_start_date;
    stats = Option.map stats_of elem.replication_task_stats;
    task_status = elem.status;
    stop_reason = elem.stop_reason;
    target_replication_instance_arn = elem.target_replication_instance_arn;
  };
}

-- What sdkCreate and sdkUpdate set from the response, in one text.
unfoldable pub merge_created : SdkTask → ReplicationTask → ReplicationTask
merge_created task ko = record ko {
  spec = record (ko.spec) {
    cdc_start_position = task.cdc_start_position;
    cdc_stop_position = task.cdc_stop_position;
    migration_type = enum_of task.migration_type;
    name = task.replication_task_identifier;
    replication_instance_arn = task.replication_instance_arn;
    source_endpoint_arn = task.source_endpoint_arn;
    table_mappings = task.table_mappings;
    target_endpoint_arn = task.target_endpoint_arn;
    task_data = task.task_data;
    task_settings = task.replication_task_settings;
  };
  status = record (ko.status) {
    ack = with_arn true task.replication_task_arn ko.status.ack;
    last_failure_message = task.last_failure_message;
    recovery_checkpoint = task.recovery_checkpoint;
    creation_date = task.replication_task_creation_date;
    start_date = task.replication_task_start_date;
    stats = Option.map stats_of task.replication_task_stats;
    task_status = task.status;
    stop_reason = task.stop_reason;
    target_replication_instance_arn = task.target_replication_instance_arn;
  };
}

unfoldable pub merge_modified : SdkTask → ReplicationTask → ReplicationTask
unfolding merge_created
merge_modified = merge_created
