-- ===== src/TagSync.antt =====
-- getTags, syncTags and sdkTagsFromResourceTags of hooks.go, one text in every package below
-- pkg/resource. The three tag calls of the AWS API are a parameter.
pub mod Effect
use ack_dms_controller.Base.{List, Option, String, [], if◌then◌else◌, is_nonempty, none, some, ◌∷◌}
use ack_dms_controller.Go.{deref}
use ack_dms_controller.Runtime.{M, Reply, call, error_of, fault, lift, pure, reply, ◌>>=◌}
use ack_dms_controller.Status.{AckStatus}
use ack_dms_controller.Tags.{Tag}
use ack_dms_controller.Util.{compute_tags_delta}

-- `svcsdktypes.Tag`
pub record SdkTag : Type 0 where
  pub key : Option String
  pub value : Option String

pub record TagApi (W E : Type 0) : Type 0 where
  pub list_tags_for_resource : Option String → W → Reply (List SdkTag) E × W
  pub remove_tags_from_resource : Option String → List String → W → Reply (Unit {0}) E × W
  pub add_tags_to_resource : Option String → List SdkTag → W → Reply (Unit {0}) E × W

unfoldable pub sdk_tags_from_resource_tags : List Tag → List SdkTag
sdk_tags_from_resource_tags [] = []
sdk_tags_from_resource_tags (t ∷ ts) =
    record { key = t.key; value = t.value } ∷ sdk_tags_from_resource_tags ts

-- The loop of getTags over the response.
unfoldable pub resource_tags_from_sdk_tags : List SdkTag → List Tag
resource_tags_from_sdk_tags [] = []
resource_tags_from_sdk_tags (t ∷ ts) =
    record { key = t.key; value = t.value } ∷ resource_tags_from_sdk_tags ts

module _ {W E : Type 0} (api : TagApi W E) where
  unfoldable pub get_tags : String → M W E (Reply (List Tag) E)
  unfolding resource_tags_from_sdk_tags
  get_tags resource_arn = do
    resp ← call "GET" "ListTagsForResource" (api.list_tags_for_resource (some resource_arn))
    elim resp [
      | reply tags ↦ pure (reply (resource_tags_from_sdk_tags tags))
      | fault e ↦ pure (fault e)
    ]

  -- The first half of syncTags, from `len(toDelete) > 0`.
  unfoldable pub remove_tags : Option String → List String → M W E (Option E)
  remove_tags arn to_delete =
      if is_nonempty to_delete
      then (do
        r ← call "UPDATE" "RemoveTagsFromResource" (api.remove_tags_from_resource arn to_delete)
        pure (error_of r))
      else pure none

  -- The second half, from `len(toAdd) > 0`.
  unfoldable pub add_tags : Option String → List Tag → M W E (Option E)
  unfolding sdk_tags_from_resource_tags
  add_tags arn to_add =
      if is_nonempty to_add
      then (do
        r ←
            call "UPDATE" "AddTagsToResource"
              (api.add_tags_to_resource arn (sdk_tags_from_resource_tags to_add))
        pure (error_of r))
      else pure none

  -- `desired.ko.Spec.Tags`, `latest.ko.Status` and `latest.ko.Spec.Tags` are what it reads.
  unfoldable pub sync_tags : List Tag → AckStatus → List Tag → M W E (Option E)
  unfolding remove_tags add_tags
  sync_tags desired latest_status latest = do
    metadata ← lift (deref latest_status.metadata)
    delta ← lift (compute_tags_delta desired latest)
    err ← remove_tags metadata.arn delta.removed
    elim err [ some e ↦ pure (some e) | none ↦ add_tags metadata.arn delta.added_or_updated ]
