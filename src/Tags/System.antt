-- ===== src/Tags/System.antt =====
-- The loops of tags.go over the tags that AWS or the controller's runtime owns.
use ack_dms_controller.Base.{
  Bool-cases, List, String, [], arith, contains, eq_iff, if◌then◌else◌, inl, inr, is_some, none,
  or_default, refl, some, ◌&&◌, ◌||◌, ◌∷◌, ◌≡◌,
}
use ack_dms_controller.Base.Dict.{
  Dict, IsMap, delete, delete-IsMap, insert, insert-IsMap, lookup, lookup-delete, lookup-insert,
}
use ack_dms_controller.Tags.{
  AckTags, ignore_from, ignore_system_tags, is_aws, sync_aws_tags, sync_from,
}
use ack_dms_controller.Tags.Convert.{IsRange}

module _ (visit : AckTags → AckTags) where
  lookup-ignore_from :
      (system_tags : List String) (k : String) (todo : Dict String) (m : AckTags)
      → lookup k (ignore_from visit system_tags todo m) ≡ (
          if is_some (lookup k todo) && (is_aws k || contains system_tags k)
          then none
          else lookup k m)
  unfolding ignore_from lookup
  lookup-ignore_from s k [] m = refl
  lookup-ignore_from s k ((j, v) ∷ todo) m = elim (Bool-cases (is_aws j || contains s j)) [
    | inl drop ↦
        rw drop (
          ground (arith, lookup-ignore_from s k todo (delete j m), lookup-delete j k m, eq_iff j k))
    | inr keep ↦ rw keep (ground (arith, lookup-ignore_from s k todo m, eq_iff j k))
  ]

  ignore_from-IsMap :
      (system_tags : List String) (todo : Dict String) (m : AckTags)
      → IsMap m
      → IsMap (ignore_from visit system_tags todo m)
  unfolding ignore_from
  ignore_from-IsMap s [] m h = h
  ignore_from-IsMap s ((j, v) ∷ todo) m h = elim (Bool-cases (is_aws j || contains s j)) [
    | inl drop ↦ rw drop (ignore_from-IsMap s todo (delete j m) (delete-IsMap j m h))
    | inr keep ↦ rw keep (ignore_from-IsMap s todo m h)
  ]

  lookup-sync_from :
      (k : String) (todo : Dict String) (b a : AckTags)
      → lookup k (sync_from visit todo b a) ≡ (
          if is_some (lookup k todo) && is_aws k
          then some (or_default (lookup k b) "")
          else lookup k a)
  unfolding sync_from lookup
  lookup-sync_from k [] b a = refl
  lookup-sync_from k ((j, v) ∷ todo) b a = elim (Bool-cases (is_aws j)) [
    | inl aws ↦
        let w = or_default (lookup j b) "" in
        rw aws (
          ground
            (arith, lookup-sync_from k todo b (insert j w a), lookup-insert j k w a, eq_iff j k))
    | inr other ↦ rw other (ground (arith, lookup-sync_from k todo b a, eq_iff j k))
  ]

  sync_from-IsMap :
      (todo : Dict String) (b a : AckTags) → IsMap a → IsMap (sync_from visit todo b a)
  unfolding sync_from
  sync_from-IsMap [] b a h = h
  sync_from-IsMap ((j, v) ∷ todo) b a h = elim (Bool-cases (is_aws j)) [
    | inl aws ↦
        let w = or_default (lookup j b) "" in
        rw aws (sync_from-IsMap todo b (insert j w a) (insert-IsMap j w a h))
    | inr other ↦ rw other (sync_from-IsMap todo b a h)
  ]

  pub ignore_system_tags-IsMap :
      (m : AckTags) (system_tags : List String)
      → IsMap m
      → IsMap (ignore_system_tags visit m system_tags)
  unfolding ignore_system_tags
  ignore_system_tags-IsMap m s h = ignore_from-IsMap s (visit m) m h

  pub sync_aws_tags-IsMap : (a b : AckTags) → IsMap a → IsMap (sync_aws_tags visit a b)
  unfolding sync_aws_tags
  sync_aws_tags-IsMap a b h = sync_from-IsMap (visit b) b a h

module _ (visit : AckTags → AckTags) (r : IsRange visit) where
  -- `ignoreSystemTags` drops exactly the tags below "aws:" and the listed ones.
  pub lookup-ignore_system_tags :
      (m : AckTags) (system_tags : List String) (k : String)
      → lookup k (ignore_system_tags visit m system_tags)
        ≡ (if is_aws k || contains system_tags k then none else lookup k m)
  unfolding ignore_system_tags
  lookup-ignore_system_tags m s k =
      ground (arith, lookup-ignore_from visit s k (visit m) m, r.same m k)

  -- `syncAWSTags` takes over exactly the tags below "aws:" that `b` has.
  pub lookup-sync_aws_tags :
      (a b : AckTags) (k : String)
      → lookup k (sync_aws_tags visit a b)
        ≡ (if is_aws k && is_some (lookup k b) then lookup k b else lookup k a)
  unfolding sync_aws_tags
  lookup-sync_aws_tags a b k = ground (arith, lookup-sync_from visit k (visit b) b a, r.same b k)
