-- ===== src/Tags.antt =====
-- The tags of a resource: `Tag` of apis/v1alpha1/types.go, and tags.go of each package below
-- pkg/resource, which are one text. `acktags.Tags` is a Go map; `visit` gives the order in which
-- `range` walks it, which Go leaves open.
pub mod Convert
pub mod System
use ack_dms_controller.Base.{
  String, Bool, ◌||◌, Option, none, some, List, [], ◌∷◌, ◌++◌, if◌then◌else◌, contains, or_default,
  starts_with,
}
use ack_dms_controller.Base.Dict.{Dict, lookup, insert, delete}

pub record Tag : Type 0 where
  pub key : Option String
  pub value : Option String

abbrev pub AckTags : Type 0
AckTags = Dict String

-- `Tag{Key: &k, Value: &v}`
abbrev pub tag_of : String → String → Tag
tag_of k v = record { key = some k; value = some v }

-- The loop of `convertToOrderedACKTags`.
unfoldable pub convert_from : AckTags → List String → List Tag → AckTags × List String
convert_from result key_order [] = (result, key_order)
convert_from result key_order (t ∷ ts) = elim t.key [
  | none ↦ convert_from result key_order ts
  | some k ↦ convert_from (insert k (or_default t.value "") result) (key_order ++ (k ∷ [])) ts
]

unfoldable pub convert_to_ordered_ack_tags : List Tag → AckTags × List String
unfolding convert_from
convert_to_ordered_ack_tags tags = convert_from [] [] tags

-- The first loop of `fromACKTags`: what it appends, and the tags that it leaves in the map.
unfoldable pub take_in_order : AckTags → List String → List Tag × AckTags
take_in_order tags [] = ([], tags)
take_in_order tags (k ∷ ks) = elim (lookup k tags) [
  | none ↦ take_in_order tags ks
  | some v ↦ let (result, rest) = take_in_order (delete k tags) ks in (tag_of k v ∷ result, rest)
]

-- The second loop of `fromACKTags`.
unfoldable pub tags_of : AckTags → List Tag
tags_of [] = []
tags_of ((k, v) ∷ m) = tag_of k v ∷ tags_of m

-- `strings.HasPrefix(k, "aws:")`
unfoldable pub is_aws : String → Bool
is_aws k = starts_with k "aws:"

module _ (visit : AckTags → AckTags) where
  unfoldable pub from_ack_tags : AckTags → List String → List Tag
  unfolding take_in_order tags_of
  from_ack_tags tags key_order =
      let (result, rest) = take_in_order tags key_order in result ++ tags_of (visit rest)

  -- The loop of `ignoreSystemTags`, over the entries still to visit.
  unfoldable pub ignore_from : List String → Dict String → AckTags → AckTags
  ignore_from system_tags [] tags = tags
  ignore_from system_tags ((k, _) ∷ todo) tags =
      ignore_from system_tags todo
        (if is_aws k || contains system_tags k then delete k tags else tags)

  unfoldable pub ignore_system_tags : AckTags → List String → AckTags
  unfolding ignore_from
  ignore_system_tags tags system_tags = ignore_from system_tags (visit tags) tags

  -- The loop of `syncAWSTags`, over the entries of `b` still to visit.
  unfoldable pub sync_from : Dict String → AckTags → AckTags → AckTags
  sync_from [] b a = a
  sync_from ((k, _) ∷ todo) b a =
      sync_from todo b (if is_aws k then insert k (or_default (lookup k b) "") a else a)

  -- The map `a` as `syncAWSTags` leaves it.
  unfoldable pub sync_aws_tags : AckTags → AckTags → AckTags
  unfolding sync_from
  sync_aws_tags a b = sync_from (visit b) b a
