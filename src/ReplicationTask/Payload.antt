-- ===== src/ReplicationTask/Payload.antt =====
-- The requests that sdk.go and hooks.go build for a replication task, and its JSON fields.
use mathlib.Core.Option
use ack_dms_controller.ReplicationTask.TaskStatus
use ack_dms_controller.Base.{
  Option, String, if◌then◌else◌, is_some, is_value, none, not, or_default, some, ◌&&◌,
}
use ack_dms_controller.Go.{Go, returns, ◌>>=◌}
use ack_dms_controller.ReplicationTask.Api.{
  CreateReplicationTaskInput, ModifyReplicationTaskInput, StartReplicationTaskInput,
}
use ack_dms_controller.ReplicationTask.TaskStatus.{ready}
use ack_dms_controller.ReplicationTask.Types.{ReplicationTask, ReplicationTaskSpec}
use ack_dms_controller.Runtime.{Reply, fault, reply}
use ack_dms_controller.Status.{arn_of, deref_arn}
use ack_dms_controller.TagSync.{sdk_tags_from_resource_tags}

unfoldable pub new_create_request_payload : ReplicationTask → CreateReplicationTaskInput
new_create_request_payload r = record {
  cdc_start_position = r.spec.cdc_start_position;
  cdc_start_time = r.spec.cdc_start_time;
  cdc_stop_position = r.spec.cdc_stop_position;
  migration_type = or_default r.spec.migration_type "";
  replication_instance_arn = r.spec.replication_instance_arn;
  replication_task_identifier = r.spec.name;
  replication_task_settings = r.spec.task_settings;
  resource_identifier = r.spec.resource_identifier;
  source_endpoint_arn = r.spec.source_endpoint_arn;
  table_mappings = r.spec.table_mappings;
  tags = Option.map sdk_tags_from_resource_tags r.spec.tags;
  target_endpoint_arn = r.spec.target_endpoint_arn;
  task_data = r.spec.task_data;
}

unfoldable pub new_update_request_payload : ReplicationTask → ModifyReplicationTaskInput
unfolding arn_of
new_update_request_payload r = record {
  cdc_start_position = r.spec.cdc_start_position;
  cdc_start_time = r.spec.cdc_start_time;
  cdc_stop_position = r.spec.cdc_stop_position;
  migration_type = or_default r.spec.migration_type "";
  replication_task_arn = arn_of r.status.ack;
  replication_task_identifier = r.spec.name;
  replication_task_settings = r.spec.task_settings;
  table_mappings = r.spec.table_mappings;
  task_data = r.spec.task_data;
}

unfoldable pub new_delete_request_payload : ReplicationTask → Option String
unfolding arn_of
new_delete_request_payload r = arn_of r.status.ack

-- `svcsdktypes.StartReplicationTaskTypeValueStartReplication` and `...ResumeProcessing`, as in
-- apis/v1alpha1/enums.go.
abbrev pub start_replication : String
start_replication = "start-replication"

abbrev pub resume_processing : String
resume_processing = "resume-processing"

unfoldable pub new_start_replication_task_request_payload :
    ReplicationTask → Go StartReplicationTaskInput
unfolding deref_arn
new_start_replication_task_request_payload ko = do
  arn ← deref_arn ko.status.ack
  returns (record {
    replication_task_arn = some arn;
    start_replication_task_type =
        if is_some ko.status.task_status && not (is_value ko.status.task_status TaskStatus.ready)
        then resume_processing
        else start_replication;
  })

unfoldable pub new_stop_replication_task_request_payload : ReplicationTask → Go (Option String)
unfolding deref_arn
new_stop_replication_task_request_payload ko = do arn ← deref_arn ko.status.ack; returns (some arn)

module _ {E : Type 0} (json_indent : String → Reply String E) where
  unfoldable pub indent_json : Option String → Reply (Option String) E
  indent_json none = reply none
  indent_json (some src) = elim (json_indent src) [
    | reply dst ↦ reply (some dst)
    | fault e ↦ fault e
  ]

  -- An `if` of ensureJsonIndented: the field, and the write of it.
  abbrev pub indent_field :
      (ReplicationTaskSpec → Option String)
      → (Option String → ReplicationTaskSpec → ReplicationTaskSpec)
      → Reply ReplicationTaskSpec E
      → Reply ReplicationTaskSpec E
  indent_field get put (fault e) = fault e
  indent_field get put (reply s) = elim (indent_json (get s)) [
    | reply v ↦ reply (put v s)
    | fault e ↦ fault e
  ]

  -- On an error the resource is dropped by every caller, so the error alone is returned.
  unfoldable pub ensure_json_indented : ReplicationTask → Reply ReplicationTask E
  unfolding indent_json
  ensure_json_indented ko =
      let mappings =
        indent_field (λ s. s.table_mappings) (λ v s. record s { table_mappings = v })
          (reply ko.spec) in
      let settings =
        indent_field (λ s. s.task_settings) (λ v s. record s { task_settings = v }) mappings in
      let data_indented =
        indent_field (λ s. s.task_data) (λ v s. record s { task_data = v }) settings in
      elim data_indented [ reply s ↦ reply (record ko { spec = s }) | fault e ↦ fault e ]
