-- ===== src/Tests/SampleApi.antt =====
-- An API that holds the tags of one resource, and one of a task.
use ack_dms_controller.Base.{
  List, Option, Option-cases, String, [], ap, arith, contains, eq_iff, if◌then◌else◌, inl, inr,
  none, or_default, refl, some, ◌∷◌, ◌≡◌,
}
use ack_dms_controller.Base.Dict.{delete, insert, lookup, lookup-delete, lookup-insert}
use ack_dms_controller.Runtime.{World, reply}
use ack_dms_controller.TagSync.{SdkTag, TagApi}
use ack_dms_controller.TagSync.Effect.{TagApiLaws, sdk_value_of}
use ack_dms_controller.Tags.{AckTags}

-- The calls on the tags, over what is held.
unfoldable pub remove_all : List String → AckTags → AckTags
remove_all [] held = held
remove_all (k ∷ ks) held = remove_all ks (delete k held)

unfoldable pub put_all : List SdkTag → AckTags → AckTags
put_all [] held = held
put_all (t ∷ ts) held = elim t.key [
  | none ↦ put_all ts held
  | some k ↦ put_all ts (insert k (or_default t.value "") held)
]

-- The tags that the API lists.
unfoldable pub listed : AckTags → List SdkTag
listed [] = []
listed ((k, v) ∷ held) = record { key = some k; value = some v } ∷ listed held

abbrev pub tag_store : TagApi AckTags String
tag_store = record {
  list_tags_for_resource = λ arn held. (reply (listed held), held);
  remove_tags_from_resource = λ arn ks held. (reply tt, remove_all ks held);
  add_tags_to_resource = λ arn ts held. (reply tt, put_all ts held);
}

abbrev pub held_in_store : AckTags → Option String → String → Option String
held_in_store held arn k = lookup k held

lookup-remove_all :
    (k : String) (ks : List String) (held : AckTags)
    → lookup k (remove_all ks held) ≡ (if contains ks k then none else lookup k held)
unfolding remove_all
lookup-remove_all k [] held = refl
lookup-remove_all k (j ∷ ks) held =
    ground (arith, lookup-remove_all k ks (delete j held), lookup-delete j k held, eq_iff j k)

lookup-put_all :
    (k : String) (ts : List SdkTag) (held : AckTags)
    → lookup k (put_all ts held)
      ≡ elim (sdk_value_of k ts) [ none ↦ lookup k held | some v ↦ some v ]
unfolding put_all
lookup-put_all k [] held = refl
lookup-put_all k (t ∷ ts) held = elim (Option-cases t.key) [
  | inl no_key ↦ rw (no_key, put_all) (ground (arith, lookup-put_all k ts held))
  | inr (j, e) ↦
      let v = or_default t.value "" in
      rw (e, put_all)
        (ground (arith, lookup-put_all k ts (insert j v held), lookup-insert j k v held))
]

pub tag_store-TagApiLaws : TagApiLaws tag_store held_in_store
tag_store-TagApiLaws = record {
  removes = λ arn ks w w' k e. rw (← ap (λ p. p.1) e) (lookup-remove_all k ks w);
  adds = λ arn ts w w' k e. rw (← ap (λ p. p.1) e) (lookup-put_all k ts w);
}

abbrev pub tag_world : World AckTags String
tag_world = record { cloud = ("env", "dev") ∷ ("owner", "me") ∷ []; metrics = [] }
