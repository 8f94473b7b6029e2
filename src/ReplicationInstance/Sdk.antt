-- ===== src/ReplicationInstance/Sdk.antt =====
-- sdkFind, sdkCreate, sdkUpdate and sdkDelete of sdk.go of the replication instance.
use ack_dms_controller.Base.{
  Bool, List, Option, String, [], concat, contains, elements, false, if◌then◌else◌, is_some,
  is_value, none, not, or_default, some, ℕ, ◌==◌, ◌∷◌,
}
use ack_dms_controller.ReplicationInstance.Api.{InstanceEnv, SdkInstance}
use ack_dms_controller.ReplicationInstance.Hooks.{deleting_status, has_pending_modified_values}
use ack_dms_controller.ReplicationInstance.Merge.{
  merge_created_instance, merge_found_instance, merge_modified_instance, merge_pending,
}
use ack_dms_controller.ReplicationInstance.Payload.{
  new_create_instance_payload, new_delete_instance_payload, new_modify_instance_payload,
}
use ack_dms_controller.ReplicationInstance.Types.{
  ReplicationInstance, with_instance_ack, with_instance_status,
}
use ack_dms_controller.Runtime.{M, Reply, call, fault, pure, reply, ◌>>=◌}
use ack_dms_controller.Status.{ResourceManager, arn_of, set_status_defaults}
use ack_dms_controller.TagSync.{get_tags, sync_tags}

-- `(*resource, error)`
abbrev pub InstanceResult : Type 0 → Type 0
InstanceResult E = Option ReplicationInstance × Option E

abbrev pub deletable_instance_statuses : List String
deletable_instance_statuses =
    "available" ∷ "failed" ∷ "incompatible-credentials" ∷ "incompatible-network" ∷ "maintenance"
    ∷ "storage-full" ∷ []

unfoldable pub required_instance_fields_missing : ReplicationInstance → Bool
required_instance_fields_missing r = false

module _ {W E D : Type 0} (env : InstanceEnv W E D) (rm : ResourceManager) where
  open env use {api, errors, names, delta_ops, set_synced}

  abbrev pub with_defaults : ReplicationInstance → ReplicationInstance
  with_defaults ko = with_instance_ack (set_status_defaults rm ko.status.ack) ko

  -- The end of sdkFind and of sdkUpdate: not synced while modifications are pending.
  abbrev pub mark_pending : ReplicationInstance → ReplicationInstance
  mark_pending ko =
      if has_pending_modified_values ko
      then with_instance_ack
          (set_synced names.status_false (some "ReplicationInstance has pending modified values")
            none ko.status.ack)
          ko
      else ko

  -- The hook of sdkFind that reads the tags, unless the resource is being deleted.
  unfoldable pub find_instance_tags : ReplicationInstance → M W E (Reply ReplicationInstance E)
  find_instance_tags ko =
      if is_some ko.deletion_timestamp then pure (reply ko) else elim (arn_of ko.status.ack) [
        | none ↦ pure (reply ko)
        | some arn ↦ do
          tags ← get_tags api.tag_api arn
          elim tags [
            | fault e ↦ pure (fault e)
            | reply ts ↦ pure (reply (record ko { spec = record (ko.spec) { tags = some ts } }))
          ]
      ]

  -- What sdkFind does with the first instance of the response.
  unfoldable pub find_instance : SdkInstance → ReplicationInstance → M W E (InstanceResult E)
  unfolding merge_found_instance merge_pending find_instance_tags has_pending_modified_values
  find_instance elem r = do
    tagged ← find_instance_tags (merge_pending (with_defaults (merge_found_instance elem r)))
    elim tagged [ fault e ↦ pure (none, some e) | reply ko ↦ pure (some (mark_pending ko), none) ]

  unfoldable pub find_replication_instance : ReplicationInstance → M W E (InstanceResult E)
  unfolding find_instance required_instance_fields_missing
  find_replication_instance r =
      if required_instance_fields_missing r then pure (none, some errors.not_found) else (do
        resp ← call "READ_MANY" "DescribeReplicationInstances" (
            api.describe_replication_instances (
              record { name = "replication-instance-id"; values = or_default r.spec.name "" ∷ [] }
              ∷ []))
        elim resp [
          | fault e ↦ pure (
            none,
            some (
                if is_value (errors.api_error_code e) "ResourceNotFoundFault"
                then errors.not_found
                else e),
          )
          | reply [] ↦ pure (none, some errors.not_found)
          | reply (elem ∷ _) ↦ find_instance elem r
        ])

  unfoldable pub create_replication_instance : ReplicationInstance → M W E (InstanceResult E)
  unfolding new_create_instance_payload merge_created_instance
  create_replication_instance desired = elim (new_create_instance_payload errors desired) [
    | fault e ↦ pure (none, some e)
    | reply input ↦ do
      resp ← call "CREATE" "CreateReplicationInstance" (api.create_replication_instance input)
      elim resp [
        | fault e ↦ pure (none, some e)
        | reply task ↦ pure (some (with_defaults (merge_created_instance task desired)), none)
      ]
  ]

  -- The call of ModifyReplicationInstance, with the request and what follows it.
  unfoldable pub modify_instance : ReplicationInstance → D → M W E (InstanceResult E)
  unfolding new_modify_instance_payload merge_modified_instance merge_pending
      has_pending_modified_values
  modify_instance desired delta =
      elim (new_modify_instance_payload errors delta_ops desired delta) [
        | fault e ↦ pure (none, some e)
        | reply input ↦ do
          resp ← call "UPDATE" "ModifyReplicationInstance" (api.modify_replication_instance input)
          elim resp [
            | fault e ↦ pure (none, some e)
            | reply task ↦ pure (
              some (
                  mark_pending
                    (merge_pending (with_defaults (merge_modified_instance task desired)))),
              none,
            )
          ]
      ]

  abbrev pub requeue_instance : String → ℕ → String → E
  requeue_instance status seconds rest =
      errors.needed_after (some (errors.errorf (concat ("resource is in " ∷ status ∷ rest ∷ []))))
        seconds

  -- The test of the status before the request.
  unfoldable pub modify_available :
      Option String → ReplicationInstance → D → M W E (InstanceResult E)
  modify_available none desired delta = modify_instance desired delta
  modify_available (some s) desired delta =
      if contains ("available" ∷ []) s
      then modify_instance desired delta
      else pure (none, some (requeue_instance s 30 " state, cannot be updated"))

  unfoldable pub sync_instance_tags :
      ReplicationInstance → ReplicationInstance → D → M W E (Option E)
  sync_instance_tags desired latest delta =
      if delta_ops.different_at delta "Spec.Tags"
      then sync_tags api.tag_api (elements desired.spec.tags) latest.status.ack
          (elements latest.spec.tags)
      else pure none

  unfoldable pub update_replication_instance :
      ReplicationInstance → ReplicationInstance → D → M W E (InstanceResult E)
  unfolding sync_instance_tags modify_available modify_instance
  update_replication_instance desired latest delta = do
    err ← sync_instance_tags desired latest delta
    elim err [
      | some e ↦ pure (none, some e)
      | none ↦
          if not (delta_ops.different_except delta ("Spec.Tags" ∷ []))
          then pure (some desired, none)
          else modify_available latest.status.instance_status desired delta
    ]

  -- The part of sdkDelete that sends DeleteReplicationInstance.
  unfoldable pub send_instance_delete :
      ReplicationInstance → M W E (ReplicationInstance × InstanceResult E)
  unfolding new_delete_instance_payload
  send_instance_delete r = do
    resp ←
        call "DELETE" "DeleteReplicationInstance"
          (api.delete_replication_instance (new_delete_instance_payload r))
    elim resp [
      | fault e ↦ pure (r, (none, some e))
      | reply _ ↦
          let r' = with_instance_status deleting_status r in
          pure (r', (some r', some (requeue_instance deleting_status 60 " state")))
    ]

  -- The two tests of the status before that.
  unfoldable pub delete_instance_at :
      Option String → ReplicationInstance → M W E (ReplicationInstance × InstanceResult E)
  unfolding send_instance_delete
  delete_instance_at none r = send_instance_delete r
  delete_instance_at (some s) r =
      if s == deleting_status
      then pure (r, (some r, some (requeue_instance s 60 " state")))
      else if contains deletable_instance_statuses s
      then send_instance_delete r
      else pure (r, (none, some (requeue_instance s 30 " state, cannot be deleted")))

  unfoldable pub delete_replication_instance :
      ReplicationInstance → M W E (ReplicationInstance × InstanceResult E)
  unfolding delete_instance_at
  delete_replication_instance r = delete_instance_at r.status.instance_status r
