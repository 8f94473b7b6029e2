-- ===== src/Tags/Convert.antt =====
-- The two conversions between the tag list of a resource and the map of its tags.
use mathlib.Core.List.{append-nil, append_assoc}
use ack_dms_controller.Base.{
  List, Option, Option-cases, String, [], ap, arith, eq_iff, eq_refl, if◌then◌else◌, inl, inr,
  is_value, none, or_default, refl, some, ◌++◌, ◌∙◌, ◌∷◌, ◌≡◌, ◌≢◌,
}
use ack_dms_controller.Base.Dict.{
  IsMap, delete, delete-IsMap, delete_absent, eq-nil_of_lookup, insert, insert-IsMap, insert_new,
  lookup, lookup-append, lookup-delete, lookup-insert,
}
use ack_dms_controller.Tags.{
  AckTags, Tag, convert_from, convert_to_ordered_ack_tags, from_ack_tags, tag_of, tags_of,
  take_in_order,
}

-- What Go says of `range` over a map: each entry is visited once.
pub record IsRange (visit : AckTags → AckTags) : Type 0 where
  pub same : (m : AckTags) (k : String) → lookup k (visit m) ≡ lookup k m
  pub once : (m : AckTags) → IsMap m → IsMap (visit m)

-- The value that a list of tags gives to a key: that of the last tag with the key, where a tag
-- without a value counts as empty.
abbrev pub value_of : String → List Tag → Option String
value_of k [] = none
value_of k (t ∷ ts) = elim (value_of k ts) [
  | none ↦ if is_value t.key k then some (or_default t.value "") else none
  | some v ↦ some v
]

-- The keys of a map, in its order.
abbrev pub keys : AckTags → List String
keys [] = []
keys ((k, _) ∷ m) = k ∷ keys m

pub lookup-convert_from :
    (k : String) (result : AckTags) (order : List String) (ts : List Tag)
    → lookup k (convert_from result order ts).0
      ≡ elim (value_of k ts) [ none ↦ lookup k result | some v ↦ some v ]
unfolding convert_from
lookup-convert_from k result order [] = refl
lookup-convert_from k result order (t ∷ ts) = elim (Option-cases t.key) [
  | inl no_key ↦ rw (no_key, convert_from) (ground (arith, lookup-convert_from k result order ts))
  | inr (j, e) ↦
      let v = or_default t.value "" in
      rw (e, convert_from)
        (ground (
          arith,
          lookup-convert_from k (insert j v result) (order ++ (j ∷ [])) ts,
          lookup-insert j k v result,
        ))
]

convert_from-IsMap :
    (result : AckTags) (order : List String) (ts : List Tag)
    → IsMap result
    → IsMap (convert_from result order ts).0
unfolding convert_from
convert_from-IsMap result order [] h = h
convert_from-IsMap result order (t ∷ ts) h = elim (Option-cases t.key) [
  | inl no_key ↦ rw (no_key, convert_from) (convert_from-IsMap result order ts h)
  | inr (j, e) ↦
      let v = or_default t.value "" in
      rw (e, convert_from)
        (convert_from-IsMap (insert j v result) (order ++ (j ∷ [])) ts (insert-IsMap j v result h))
]

pub lookup-convert :
    (k : String) (ts : List Tag) → lookup k (convert_to_ordered_ack_tags ts).0 ≡ value_of k ts
unfolding convert_to_ordered_ack_tags lookup
lookup-convert k ts = ground (arith, lookup-convert_from k [] [] ts)

pub convert-IsMap : (ts : List Tag) → IsMap (convert_to_ordered_ack_tags ts).0
unfolding convert_to_ordered_ack_tags
convert-IsMap ts = convert_from-IsMap [] [] ts tt

module _ (visit : AckTags → AckTags) (r : IsRange visit) where
  -- `fromACKTags` lists the entries of a map with the same content.
  pub from_ack_tags-tags_of :
      (m : AckTags) (order : List String)
      → IsMap m
      → (n : AckTags) × (from_ack_tags visit m order ≡ tags_of n)
        × IsMap n
        × ((k : String) → lookup k n ≡ lookup k m)
  unfolding from_ack_tags lookup
  from_ack_tags-tags_of m [] h = (visit m, refl, r.once m h, r.same m)
  from_ack_tags-tags_of m (k ∷ order) h = elim (Option-cases (lookup k m)) [
    | inl missing ↦ rw (missing, take_in_order) (from_ack_tags-tags_of m order h)
    | inr (v, found) ↦
        let (n, e, once, same) = from_ack_tags-tags_of (delete k m) order (delete-IsMap k m h) in
        (
          (k, v) ∷ n,
          rw (found, take_in_order) (ap (◌∷◌ (tag_of k v)) e),
          (same k ∙ lookup-delete k k m ∙ rw eq_refl refl, once),
          λ j. ground (arith, same j, lookup-delete k j m, eq_iff k j),
        )
  ]

-- A list of the tags of a map gives each key its value in the map.
pub value_of-tags_of : (k : String) (m : AckTags) → IsMap m → value_of k (tags_of m) ≡ lookup k m
unfolding lookup tags_of
value_of-tags_of k [] h = refl
value_of-tags_of k ((j, v) ∷ m) h = ground (arith, value_of-tags_of k m h.1, eq_iff j k)

-- A tag list with no key twice, and with every key and value present.
pub data IsCanonical : List Tag → Type 0 where
  canonical : (m : AckTags) → IsMap m → IsCanonical (tags_of m)

module _ (visit : AckTags → AckTags) (r : IsRange visit) where
  -- `fromACKTags` of a map, in any order of `range` and of the listed keys, is a list with every
  -- key and value present and no key twice, and reading that list back gives each key the value
  -- that the map had.
  pub convert-from_ack_tags :
      (m : AckTags) (order : List String)
      → IsMap m
      → IsCanonical (from_ack_tags visit m order)
        × ((k : String)
            → lookup k (convert_to_ordered_ack_tags (from_ack_tags visit m order)).0 ≡ lookup k m)
  convert-from_ack_tags m order h =
      let (n, e, once, same) = from_ack_tags-tags_of visit r m order h in
      rw e
        (canonical n once, λ k. lookup-convert k (tags_of n) ∙ value_of-tags_of k n once ∙ same k)

convert_from-tags_of :
    (done : AckTags) (order : List String) (m : AckTags)
    → IsMap m
    → ((k : String) → lookup k m ≢ none → lookup k done ≡ none)
    → convert_from done order (tags_of m) ≡ (done ++ m, order ++ keys m)
unfolding convert_from tags_of lookup
convert_from-tags_of done order [] h new = rw (append-nil, append-nil)
convert_from-tags_of done order ((k, v) ∷ m) h new =
    let fresh : lookup k done ≡ none = new k (ground (arith, eq_iff k k)) in
    let rest =
      convert_from-tags_of (done ++ ((k, v) ∷ [])) (order ++ (k ∷ [])) m h.1
        (λ j here. ground (arith, new j, lookup-append j done ((k, v) ∷ []), eq_iff k j)) in
    rw (insert_new k v done fresh) (rest ∙ rw (append_assoc, append_assoc) refl)

take_in_order-keys : (m : AckTags) → IsMap m → take_in_order m (keys m) ≡ (tags_of m, [])
unfolding take_in_order tags_of lookup delete
take_in_order-keys [] h = refl
take_in_order-keys ((k, v) ∷ m) h =
    let found : lookup k ((k, v) ∷ m) ≡ some v = rw eq_refl refl in
    let gone : delete k ((k, v) ∷ m) ≡ m = rw eq_refl (delete_absent k m h.0) in
    rw (found, take_in_order) (rw gone (rw (take_in_order-keys m h.1) refl))

module _ (visit : AckTags → AckTags) (r : IsRange visit) where
  visit-nil : visit [] ≡ []
  visit-nil = eq-nil_of_lookup (visit []) (λ k. r.same [] k ∙ unfold lookup in refl)

  -- A tag list with every key and value present and no key twice survives the two conversions
  -- unchanged, its order included, whatever the order of `range`.
  pub from_ack_tags-convert :
      (ts : List Tag)
      → IsCanonical ts
      → let (m, order) = convert_to_ordered_ack_tags ts in from_ack_tags visit m order ≡ ts
  unfolding convert_to_ordered_ack_tags from_ack_tags lookup
  from_ack_tags-convert _ (canonical m h) =
      rw (convert_from-tags_of [] [] m h (λ k _. refl))
        (rw (take_in_order-keys m h) (rw visit-nil (append-nil (tags_of m))))
