-- ===== src/Util/Loops.antt =====
-- The loops of ComputeTagsDelta in closed form, for a desired list that is the list of a map.
use mathlib.Core.List.{append-nil, append_assoc}
use ack_dms_controller.Base.{
  All, Bool-cases, List, Option, Option-cases, String, [], arith, contains, eq_iff, if◌then◌else◌,
  inl, inr, none, or_default, refl, some, ◌++◌, ◌==◌, ◌∙◌, ◌∷◌, ◌≡◌,
}
use ack_dms_controller.Base.Dict.{lookup}
use ack_dms_controller.Go.{returns}
use ack_dms_controller.Tags.{AckTags, Tag, tag_of, tags_of}
use ack_dms_controller.Util.{
  TagsDelta, compute_tags_delta, equal_strings, match_tag, walk_desired, walk_latest,
}

-- The text that a tag without a value stands for.
abbrev pub text_of : Option String → String
text_of s = or_default s ""

-- Every tag has its key.
abbrev pub HasKeys : List Tag → Type 0
HasKeys = All (λ t. (k : String) × (t.key ≡ some k))

equal_strings-some :
    (s : Option String) (t : String) → equal_strings s (some t) ≡ returns (text_of s == t)
unfolding equal_strings
equal_strings-some none t = ground (arith, eq_iff "" t, eq_iff t "")
equal_strings-some (some s) t = refl

-- What one tag of the latest list adds, if the desired value is `v`.
abbrev pub update_of : Tag → String → String → List Tag
update_of t k v = if text_of t.value == v then [] else tag_of k v ∷ []

match_tag-tags_of :
    (t : Tag) (k : String) (m : AckTags)
    → t.key ≡ some k
    → match_tag t (tags_of m)
      ≡ elim (lookup k m) [ none ↦ returns none | some v ↦ returns (some (update_of t k v)) ]
unfolding match_tag tags_of lookup
match_tag-tags_of t k [] e = refl
match_tag-tags_of t k ((j, v) ∷ m) e =
    rw (e, equal_strings-some)
      (ground
        (arith, eq_iff k j, eq_iff j k, equal_strings-some t.value v, match_tag-tags_of t k m e))

-- The desired tags whose value in the latest list differs, once for each tag that differs.
abbrev pub updated : AckTags → List Tag → List Tag
updated m [] = []
updated m (t ∷ b) =
    elim (lookup (text_of t.key) m) [ none ↦ [] | some v ↦ update_of t (text_of t.key) v ]
    ++ updated m b

-- The keys of the latest list that the desired map has not.
abbrev pub gone : AckTags → List Tag → List String
gone m [] = []
gone m (t ∷ b) =
    elim (lookup (text_of t.key) m) [ none ↦ text_of t.key ∷ [] | some v ↦ [] ] ++ gone m b

abbrev pub tag_keys : List Tag → List String
tag_keys [] = []
tag_keys (t ∷ b) = text_of t.key ∷ tag_keys b

-- The entries of the map whose key is not listed.
abbrev pub unvisited : List String → AckTags → List Tag
unvisited visited [] = []
unvisited visited ((k, v) ∷ m) =
    (if contains visited k then [] else tag_of k v ∷ []) ++ unvisited visited m

walk_latest-closed :
    (m : AckTags) (d : TagsDelta) (visited : List String) (b : List Tag)
    → HasKeys b
    → walk_latest (tags_of m) d visited b
      ≡ returns (
        record {
          added_or_updated = d.added_or_updated ++ updated m b;
          removed = d.removed ++ gone m b;
        },
        visited ++ tag_keys b,
      )
unfolding walk_latest
walk_latest-closed m d visited [] h = simp append-nil
walk_latest-closed m d visited (t ∷ b) h =
    let (k, e) = h.0 in
    elim (Option-cases (lookup k m)) [
      | inl missing ↦
          rw (match_tag-tags_of t k m e, missing, e, missing)
            (walk_latest-closed m (record d { removed = d.removed ++ (k ∷ []) })
                (visited ++ (k ∷ [])) b h.1
              ∙ simp (append_assoc, e))
      | inr (v, found) ↦
          rw (match_tag-tags_of t k m e, found, e, found)
            (walk_latest-closed m
                (record d { added_or_updated = d.added_or_updated ++ update_of t k v })
                (visited ++ (k ∷ [])) b h.1
              ∙ simp (append_assoc, e))
    ]

walk_desired-closed :
    (visited : List String) (d : TagsDelta) (m : AckTags)
    → walk_desired visited d (tags_of m)
      ≡ returns (record d { added_or_updated = d.added_or_updated ++ unvisited visited m })
unfolding walk_desired tags_of
walk_desired-closed visited d [] = simp append-nil
walk_desired-closed visited d ((k, v) ∷ m) = elim (Bool-cases (contains visited k)) [
  | inl old ↦ rw old (walk_desired-closed visited d m)
  | inr new ↦ rw new (
      walk_desired-closed visited
        (record d { added_or_updated = d.added_or_updated ++ (tag_of k v ∷ []) }) m
      ∙ simp append_assoc)
]

-- On a desired list with every key and value present and a latest list with every key, the
-- comparison reads no nil pointer, and this is its result.
pub compute_tags_delta-closed :
    (m : AckTags) (b : List Tag)
    → HasKeys b
    → compute_tags_delta (tags_of m) b
      ≡ returns (record {
        added_or_updated = updated m b ++ unvisited (tag_keys b) m;
        removed = gone m b;
      })
unfolding compute_tags_delta
compute_tags_delta-closed m b h =
    rw (walk_latest-closed m (record { added_or_updated = []; removed = [] }) [] b h) (
      walk_desired-closed (tag_keys b)
        (record { added_or_updated = updated m b; removed = gone m b }) m)
