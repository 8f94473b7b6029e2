-- ===== src/Tests/TagTests.antt =====
-- The theorems on tags at concrete inputs.
use ack_dms_controller.Base.{
  List, Option, String, [], arith, contains, elements, eq_iff, if◌then◌else◌, is_some, none, refl,
  some, ◌&&◌, ◌||◌, ◌∷◌, ◌≡◌,
}
use ack_dms_controller.Base.Dict.{IsMap, insert, insert-IsMap, lookup, lookup-insert}
use ack_dms_controller.Go.{panics, returns}
use ack_dms_controller.Manager.{
  Kind, KindLaws, MergeLaws, ensure_tags, filter_system_tags, mirror_aws_tags,
}
use ack_dms_controller.Manager.TagLaws.{
  ensure_tags-tag_value, filter_system_tags-tag_value, mirror_aws_tags-tag_value, tag_value,
}
use ack_dms_controller.Runtime.{World}
use ack_dms_controller.Status.{AckStatus}
use ack_dms_controller.TagSync.{sync_tags}
use ack_dms_controller.TagSync.Effect.{sync_tags-held}
use ack_dms_controller.Tags.{
  AckTags, Tag, convert_to_ordered_ack_tags, from_ack_tags, is_aws, tag_of,
}
use ack_dms_controller.Tags.Convert.{
  IsCanonical, convert-from_ack_tags, from_ack_tags-convert, value_of,
}
use ack_dms_controller.Tests.SampleApi.{held_in_store, tag_store, tag_store-TagApiLaws, tag_world}
use ack_dms_controller.Tests.Samples.{
  desired_tags, desired_tags-IsCanonical, in_order, in_order-IsRange, latest_tags, reordered_tags,
  reordered_tags-IsCanonical, sample_metadata, sample_status,
}
use ack_dms_controller.Util.{TagsDelta, compute_tags_delta}
use ack_dms_controller.Util.Drift.{
  after_sync, compute_tags_delta-converged, compute_tags_delta-syncs,
}
use ack_dms_controller.Util.Loops.{HasKeys}
use ack_dms_controller.Util.Panics.{compute_tags_delta-panics}

-- A resource of nothing but a status and tags.
abbrev plain_kind : Kind (AckStatus × Option (List Tag))
plain_kind = record {
  ack = λ k. k.0;
  set_ack = λ s k. (s, k.1);
  tags = λ k. k.1;
  set_tags = λ t k. (k.0, t);
}

plain_kind-KindLaws : KindLaws plain_kind
plain_kind-KindLaws = record {
  ack-set_ack = λ s k. refl;
  set_ack-ack = λ k. refl;
  tags-set_tags = λ t k. refl;
  ack-set_tags = λ t k. refl;
}

unfoldable override_with : AckTags → AckTags → AckTags
override_with [] b = b
override_with ((k, v) ∷ a) b = insert k v (override_with a b)

override_with-IsMap : (a b : AckTags) → IsMap b → IsMap (override_with a b)
unfolding override_with
override_with-IsMap [] b h = h
override_with-IsMap ((k, v) ∷ a) b h =
    insert-IsMap k v (override_with a b) (override_with-IsMap a b h)

lookup-override_with :
    (a b : AckTags) (k : String)
    → lookup k (override_with a b) ≡ elim (lookup k a) [ none ↦ lookup k b | some v ↦ some v ]
unfolding override_with lookup
lookup-override_with [] b k = refl
lookup-override_with ((j, v) ∷ a) b k =
    ground (arith, lookup-override_with a b k, lookup-insert j k v (override_with a b))

override_with-MergeLaws : MergeLaws override_with
override_with-MergeLaws = record {
  one = λ a b ha hb. override_with-IsMap a b hb;
  both = lookup-override_with;
}

abbrev mixed_tags : List Tag
mixed_tags = tag_of "env" "prod" ∷ tag_of "aws:stack" "s1" ∷ tag_of "system" "x" ∷ []

abbrev plain : AckStatus × Option (List Tag)
plain = (sample_status, some mixed_tags)

latest_tags-HasKeys : HasKeys latest_tags
latest_tags-HasKeys = (("env", refl), (("owner", refl), tt))

from_ack_tags-convert_example :
    let (m, order) = convert_to_ordered_ack_tags desired_tags in
    from_ack_tags in_order m order ≡ desired_tags
from_ack_tags-convert_example =
    from_ack_tags-convert in_order in_order-IsRange desired_tags desired_tags-IsCanonical

convert-from_ack_tags_example :
    IsCanonical (from_ack_tags in_order (("env", "prod") ∷ ("team", "data") ∷ []) ("team" ∷ []))
    × ((k : String)
        → lookup k
            (convert_to_ordered_ack_tags
              (from_ack_tags in_order (("env", "prod") ∷ ("team", "data") ∷ []) ("team" ∷ []))).0
          ≡ lookup k (("env", "prod") ∷ ("team", "data") ∷ []))
unfolding lookup
convert-from_ack_tags_example =
    convert-from_ack_tags in_order in_order-IsRange (("env", "prod") ∷ ("team", "data") ∷ [])
      ("team" ∷ []) (refl, (refl, tt))

compute_tags_delta-syncs_example :
    (d : TagsDelta) × (compute_tags_delta desired_tags latest_tags ≡ returns d)
    × ((k : String) → after_sync d k (value_of k latest_tags) ≡ value_of k desired_tags)
compute_tags_delta-syncs_example =
    compute_tags_delta-syncs desired_tags latest_tags desired_tags-IsCanonical latest_tags-HasKeys

-- The two lists give every key the same value.
same_values : (k : String) → value_of k desired_tags ≡ value_of k reordered_tags
same_values k = ground (arith, eq_iff "env" k, eq_iff "team" k, eq_iff "env" "team")

compute_tags_delta-converged_example :
    compute_tags_delta desired_tags reordered_tags
    ≡ returns (record { added_or_updated = []; removed = [] })
compute_tags_delta-converged_example =
    compute_tags_delta-converged desired_tags reordered_tags desired_tags-IsCanonical
      reordered_tags-IsCanonical same_values

-- The store holds the latest tags.
observed : (k : String) → held_in_store tag_world.cloud (some "arn:task") k ≡ value_of k latest_tags
unfolding lookup
observed k = ground (arith, eq_iff "env" k, eq_iff "owner" k, eq_iff "env" "owner")

sync_tags-held_example :
    (err : Option String) × (w' : World AckTags String) × (sync_tags tag_store desired_tags
        sample_status latest_tags tag_world
      ≡ returns (err, w'))
    × (err ≡ none
        → (k : String) → held_in_store w'.cloud (some "arn:task") k ≡ value_of k desired_tags)
sync_tags-held_example =
    sync_tags-held tag_store held_in_store tag_store-TagApiLaws desired_tags sample_status
      sample_metadata latest_tags tag_world desired_tags-IsCanonical latest_tags-HasKeys refl
      observed

abbrev plain_value : String → AckStatus × Option (List Tag) → Option String
plain_value = tag_value plain_kind plain_kind-KindLaws in_order in_order-IsRange

ensure_tags-tag_value_example :
    IsCanonical
      (elements (ensure_tags plain_kind in_order override_with (("owner", "ack") ∷ []) plain).1)
    × ((k : String)
        → plain_value k
            (ensure_tags plain_kind in_order override_with (("owner", "ack") ∷ []) plain)
          ≡ elim (plain_value k plain) [
            | none ↦ lookup k (("owner", "ack") ∷ [])
            | some v ↦ some v
          ])
unfolding lookup
ensure_tags-tag_value_example =
    ensure_tags-tag_value plain_kind plain_kind-KindLaws in_order in_order-IsRange override_with
      (("owner", "ack") ∷ []) plain override_with-MergeLaws (refl, tt)

filter_system_tags-tag_value_example :
    IsCanonical (elements (filter_system_tags plain_kind in_order ("system" ∷ []) plain).1)
    × ((k : String)
        → plain_value k (filter_system_tags plain_kind in_order ("system" ∷ []) plain)
          ≡ (if is_aws k || contains ("system" ∷ []) k then none else plain_value k plain))
filter_system_tags-tag_value_example =
    filter_system_tags-tag_value plain_kind plain_kind-KindLaws in_order in_order-IsRange
      ("system" ∷ []) plain

mirror_aws_tags-tag_value_example :
    IsCanonical
      (elements (mirror_aws_tags plain_kind in_order (sample_status, none) (some plain)).1)
    × ((k : String)
        → plain_value k (mirror_aws_tags plain_kind in_order (sample_status, none) (some plain)) ≡ (
            if is_aws k && is_some (plain_value k plain)
            then plain_value k plain
            else plain_value k (sample_status, none)))
mirror_aws_tags-tag_value_example =
    mirror_aws_tags-tag_value plain_kind plain_kind-KindLaws in_order in_order-IsRange
      (sample_status, none) plain

-- The tag without a value is the second of both lists.
compute_tags_delta-panics_example :
    compute_tags_delta
      (tag_of "app" "dms" ∷ record { key = some "env"; value = none } ∷ [])
      (tag_of "team" "data" ∷ tag_of "env" "prod" ∷ [])
    ≡ panics
compute_tags_delta-panics_example =
    compute_tags_delta-panics "env" "prod" (tag_of "app" "dms" ∷ []) [] (tag_of "team" "data" ∷ [])
      [] (λ e. ground (arith, e, eq_iff "prod" ""))
      (("app", refl, λ e. ground (arith, e, eq_iff "app" "env")), tt)
