-- ===== src/ReplicationTask/Sdk.antt =====
-- sdkFind, sdkCreate, sdkUpdate and sdkDelete of sdk.go. A result `(*resource, error)` is a pair of
-- two `Option`s; a method that writes to a resource it was given returns that resource first.
use ack_dms_controller.Base.{
  Bool, Option, String, [], false, if◌then◌else◌, is_value, none, or_default, some, ◌∷◌,
}
use ack_dms_controller.ReplicationTask.Api.{SdkTask, TaskEnv}
use ack_dms_controller.ReplicationTask.Connections.{connection_filters, set_connections}
use ack_dms_controller.ReplicationTask.Hooks.{delete_requested, start_requested}
use ack_dms_controller.ReplicationTask.Merge.{merge_created, merge_found}
use ack_dms_controller.ReplicationTask.Payload.{ensure_json_indented, new_create_request_payload}
use ack_dms_controller.ReplicationTask.Types.{ReplicationTask, with_ack}
use ack_dms_controller.Runtime.{M, Reply, call, fault, lift, pure, reply, ◌>>=◌}
use ack_dms_controller.Status.{ResourceManager, arn_of, set_status_defaults}
use ack_dms_controller.TagSync.{get_tags}

-- `(*resource, error)`
abbrev pub Result : Type 0 → Type 0
Result E = Option ReplicationTask × Option E

unfoldable pub required_fields_missing_from_read_many_input : ReplicationTask → Bool
required_fields_missing_from_read_many_input r = false

module _ {W E D : Type 0} (env : TaskEnv W E D) (rm : ResourceManager) where
  open env use {api, errors, names, delta_ops, json_indent, set_synced}

  abbrev pub with_status_defaults : ReplicationTask → ReplicationTask
  with_status_defaults ko = with_ack (set_status_defaults rm ko.status.ack) ko

  abbrev is_resource_not_found : E → Bool
  is_resource_not_found e = is_value (errors.api_error_code e) "ResourceNotFoundFault"

  -- The last hook of sdkFind: the connections of the endpoints.
  unfoldable pub find_connections : ReplicationTask → M W E (Result E)
  unfolding connection_filters set_connections
  find_connections ko = do
    filters ← lift (connection_filters ko)
    resp ← call "READ_MANY" "DescribeConnections" (api.describe_connections filters)
    elim resp [
      | fault e ↦
          if is_resource_not_found e
          then pure (
            some (
                with_ack
                  (set_synced names.status_false (some "Endpoint connections not found") none
                    ko.status.ack)
                  ko),
            none,
          )
          else pure (some ko, some e)
      | reply connections ↦ do ko' ← lift (set_connections ko connections); pure (some ko', none)
    ]

  -- The hook of sdkFind that reads the tags, unless the resource is being deleted.
  unfoldable pub find_tags : ReplicationTask → M W E (Reply ReplicationTask E)
  find_tags ko = if delete_requested ko then pure (reply ko) else elim (arn_of ko.status.ack) [
    | none ↦ pure (reply ko)
    | some arn ↦ do
      tags ← get_tags api.tag_api arn
      elim tags [
        | fault e ↦ pure (fault e)
        | reply ts ↦ pure (reply (record ko { spec = record (ko.spec) { tags = some ts } }))
      ]
  ]

  -- What sdkFind does with the first task of the response.
  unfoldable pub find_element : SdkTask → ReplicationTask → M W E (Result E)
  unfolding merge_found ensure_json_indented find_tags find_connections
  find_element elem r =
      elim (ensure_json_indented json_indent (with_status_defaults (merge_found elem r))) [
        | fault e ↦ pure (none, some e)
        | reply ko ↦ do
          tagged ← find_tags ko
          elim tagged [ fault e ↦ pure (none, some e) | reply ko' ↦ find_connections ko' ]
      ]

  unfoldable pub sdk_find : ReplicationTask → M W E (Result E)
  unfolding find_element required_fields_missing_from_read_many_input
  sdk_find r =
      if required_fields_missing_from_read_many_input r
      then pure (none, some errors.not_found)
      else (do
        resp ← call "READ_MANY" "DescribeReplicationTasks" (
            api.describe_replication_tasks (
              record { name = "replication-task-id"; values = or_default r.spec.name "" ∷ [] }
              ∷ []))
        elim resp [
          | fault e ↦ pure (none, some (if is_resource_not_found e then errors.not_found else e))
          | reply [] ↦ pure (none, some errors.not_found)
          | reply (elem ∷ _) ↦ find_element elem r
        ])

  -- The end of sdkCreate and of sdkUpdate.
  abbrev pub finish : String → ReplicationTask → Result E
  finish text ko = elim (ensure_json_indented json_indent (with_status_defaults ko)) [
    | fault e ↦ (none, some e)
    | reply ko' ↦ (
      some ko',
      if start_requested ko'
          then some (errors.needed_after (some (errors.errorf text)) 1)
          else none,
    )
  ]

  unfoldable pub sdk_create : ReplicationTask → M W E (Result E)
  unfolding merge_created ensure_json_indented
  sdk_create desired = do
    resp ←
        call "CREATE" "CreateReplicationTask"
          (api.create_replication_task (new_create_request_payload desired))
    elim resp [
      | fault e ↦ pure (none, some e)
      | reply task ↦
          pure (finish "resource created, requeue for start" (merge_created task desired))
    ]
