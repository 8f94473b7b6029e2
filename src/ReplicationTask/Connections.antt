-- ===== src/ReplicationTask/Connections.antt =====
-- The endpoint connections of a task: the last hook of sdkFind, in sdk.go.
use ack_dms_controller.Base.{List, [], if◌then◌else◌, is_some, ◌==◌, ◌∷◌}
use ack_dms_controller.Go.{Go, deref, returns, ◌>>=◌}
use ack_dms_controller.ReplicationTask.Api.{SdkConnection}
use ack_dms_controller.ReplicationTask.Types.{ReplicationTask, ReplicationTaskStatus}
use ack_dms_controller.Resource.{Filter}

-- The filters of `describeConnectionsInput`.
unfoldable pub connection_filters : ReplicationTask → Go (List Filter)
connection_filters ko = do
  source ← deref ko.spec.source_endpoint_arn
  target ← deref ko.spec.target_endpoint_arn
  instance_arn ← deref ko.spec.replication_instance_arn
  returns (
      record { name = "endpoint-arn"; values = source ∷ target ∷ [] }
      ∷ record { name = "replication-instance-arn"; values = instance_arn ∷ [] }
      ∷ [])

-- The two writes of the loop over the connections, for a connection to the source endpoint and
-- for one to the target endpoint.
abbrev pub set_source_connection : SdkConnection → ReplicationTaskStatus → ReplicationTaskStatus
set_source_connection elem s = record s {
  source_endpoint_connection_status =
      if is_some elem.status then elem.status else s.source_endpoint_connection_status;
  source_endpoint_connection_last_failure_message = elem.last_failure_message;
}

abbrev pub set_target_connection : SdkConnection → ReplicationTaskStatus → ReplicationTaskStatus
set_target_connection elem s = record s {
  target_endpoint_connection_status =
      if is_some elem.status then elem.status else s.target_endpoint_connection_status;
  target_endpoint_connection_last_failure_message = elem.last_failure_message;
}

-- The loop over `respDescribeConnections.Connections`.
unfoldable pub set_connections : ReplicationTask → List SdkConnection → Go ReplicationTask
set_connections ko [] = returns ko
set_connections ko (elem ∷ rest) = do
  arn ← deref elem.endpoint_arn
  source ← deref ko.spec.source_endpoint_arn
  target ← deref ko.spec.target_endpoint_arn
  let s1 = if arn == source then set_source_connection elem ko.status else ko.status
  let s2 = if arn == target then set_target_connection elem s1 else s1
  set_connections (record ko { status = s2 }) rest
