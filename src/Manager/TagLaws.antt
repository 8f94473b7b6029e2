-- ===== src/Manager/TagLaws.antt =====
-- What the tag methods of the manager do to the tags of a resource.
use ack_dms_controller.Base.{
  List, Option, String, contains, elements, if◌then◌else◌, is_some, none, refl, some, sym, ◌&&◌,
  ◌||◌, ◌∙◌, ◌≡◌,
}
use ack_dms_controller.Base.Dict.{IsMap, lookup}
use ack_dms_controller.Manager.{
  Kind, KindLaws, MergeLaws, ensure_tags, filter_system_tags, mirror_aws_tags,
}
use ack_dms_controller.Tags.{
  AckTags, convert_to_ordered_ack_tags, from_ack_tags, ignore_system_tags, is_aws, sync_aws_tags,
}
use ack_dms_controller.Tags.Convert.{
  IsCanonical, IsRange, convert-IsMap, convert-from_ack_tags, lookup-convert, value_of,
}
use ack_dms_controller.Tags.System.{
  ignore_system_tags-IsMap, lookup-ignore_system_tags, lookup-sync_aws_tags, sync_aws_tags-IsMap,
}

module _ {K : Type 0} (kind : Kind K) (kind_laws : KindLaws kind) (visit : AckTags → AckTags)
    (range : IsRange visit) where
  -- The values that the tags of a resource give.
  abbrev pub tag_value : String → K → Option String
  tag_value k r = value_of k (elements (kind.tags r))

  -- A resource whose tags were written back from a map.
  written_back :
      (m : AckTags) (order : List String) (r : K) (k : String)
      → IsMap m
      → tag_value k (kind.set_tags (some (from_ack_tags visit m order)) r) ≡ lookup k m
  written_back m order r k h =
      let (canon, same) = convert-from_ack_tags visit range m order h in
      rw kind_laws.tags-set_tags (sym (lookup-convert k (from_ack_tags visit m order)) ∙ same k)

  back-IsCanonical :
      (m : AckTags) (order : List String) (r : K)
      → IsMap m
      → IsCanonical (elements (kind.tags (kind.set_tags (some (from_ack_tags visit m order)) r)))
  back-IsCanonical m order r h =
      rw kind_laws.tags-set_tags ((convert-from_ack_tags visit range m order h).0)

  -- EnsureTags leaves a tag list with every key and value present and no key twice, which gives
  -- each key its value in the resource's tags, or else its default.
  pub ensure_tags-tag_value :
      (merge : AckTags → AckTags → AckTags) (defaults : AckTags) (r : K)
      → MergeLaws merge
      → IsMap defaults
      → IsCanonical (elements (kind.tags (ensure_tags kind visit merge defaults r)))
        × ((k : String)
            → tag_value k (ensure_tags kind visit merge defaults r)
              ≡ elim (tag_value k r) [ none ↦ lookup k defaults | some v ↦ some v ])
  unfolding ensure_tags
  ensure_tags-tag_value merge defaults r laws is_map =
      let ts = elements (kind.tags r) in
      let (m, order) = convert_to_ordered_ack_tags ts in
      let merged = laws.one m defaults (convert-IsMap ts) is_map in
      (
        back-IsCanonical (merge m defaults) order r merged,
        λ k.
            written_back (merge m defaults) order r k merged
            ∙ laws.both m defaults k
            ∙ rw (lookup-convert k ts) refl,
      )

  -- FilterSystemTags leaves a tag list with every key and value present and no key twice, without
  -- the tags below "aws:" and the listed ones, and with every other tag as it was.
  pub filter_system_tags-tag_value :
      (system_tags : List String) (r : K)
      → IsCanonical (elements (kind.tags (filter_system_tags kind visit system_tags r)))
        × ((k : String)
            → tag_value k (filter_system_tags kind visit system_tags r)
              ≡ (if is_aws k || contains system_tags k then none else tag_value k r))
  unfolding filter_system_tags
  filter_system_tags-tag_value system_tags r =
      let ts = elements (kind.tags r) in
      let (m, order) = convert_to_ordered_ack_tags ts in
      let kept = ignore_system_tags-IsMap visit m system_tags (convert-IsMap ts) in
      (
        back-IsCanonical (ignore_system_tags visit m system_tags) order r kept,
        λ k.
            written_back (ignore_system_tags visit m system_tags) order r k kept
            ∙ lookup-ignore_system_tags visit range m system_tags k
            ∙ rw (lookup-convert k ts) refl,
      )

  -- mirrorAWSTags gives the desired resource the observed tags below "aws:", keeps its other tags,
  -- and leaves a tag list with every key and value present and no key twice.
  pub mirror_aws_tags-tag_value :
      (a b : K)
      → IsCanonical (elements (kind.tags (mirror_aws_tags kind visit a (some b))))
        × ((k : String)
            → tag_value k (mirror_aws_tags kind visit a (some b))
              ≡ (if is_aws k && is_some (tag_value k b) then tag_value k b else tag_value k a))
  unfolding mirror_aws_tags
  mirror_aws_tags-tag_value a b =
      let ts = elements (kind.tags a) in
      let us = elements (kind.tags b) in
      let (m, order) = convert_to_ordered_ack_tags ts in
      let (n, _) = convert_to_ordered_ack_tags us in
      let synced = sync_aws_tags-IsMap visit m n (convert-IsMap ts) in
      (
        back-IsCanonical (sync_aws_tags visit m n) order a synced,
        λ k.
            written_back (sync_aws_tags visit m n) order a k synced
            ∙ lookup-sync_aws_tags visit range m n k
            ∙ rw (lookup-convert k ts, lookup-convert k us) refl,
      )
