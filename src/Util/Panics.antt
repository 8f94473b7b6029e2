-- ===== src/Util/Panics.antt =====
-- Where equalStrings reads a nil pointer.
use ack_dms_controller.Base.{
  All, List, Option-cases, String, [], arith, eq_iff, inl, inr, none, refl, some, ◌++◌, ◌∷◌, ◌≡◌,
  ◌≢◌,
}
use ack_dms_controller.Go.{Go-cases, panics}
use ack_dms_controller.Tags.{Tag, tag_of}
use ack_dms_controller.Util.{TagsDelta, compute_tags_delta, equal_strings, match_tag, walk_latest}

-- No tag of the list has the key.
abbrev pub LacksKey : String → List Tag → Type 0
LacksKey k ts = All (λ t. (key : String) × (t.key ≡ some key) × (key ≢ k)) ts

abbrev bare_tag : String → Tag
bare_tag k = record { key = some k; value = none }

-- The inner loop reads the nil value as soon as it comes to the tag without one.
match_tag-panics :
    (k v : String) (a1 a2 : List Tag)
    → v ≢ ""
    → LacksKey k a1
    → match_tag (tag_of k v) (a1 ++ (bare_tag k ∷ a2)) ≡ panics
unfolding match_tag equal_strings
match_tag-panics k v [] a2 filled others = ground (arith, eq_iff v "", eq_iff k k)
match_tag-panics k v (t ∷ a1) a2 filled ((key, has_key, differs_from), others) =
    let rest = match_tag-panics k v a1 a2 filled others in
    rw has_key (ground (arith, rest, differs_from, eq_iff k key))

-- The outer loop panics, wherever in the latest list the tag stands.
walk_latest-panics :
    (k v : String) (a b1 b2 : List Tag) (d : TagsDelta) (visited : List String)
    → match_tag (tag_of k v) a ≡ panics
    → walk_latest a d visited (b1 ++ (tag_of k v ∷ b2)) ≡ panics
unfolding walk_latest
walk_latest-panics k v a [] b2 d visited bad = rw bad refl
walk_latest-panics k v a (t ∷ b1) b2 d visited bad = elim (Option-cases t.key) [
  | inl absent ↦ rw absent refl
  | inr (key, has_key) ↦ elim (Go-cases (match_tag t a)) [
    | inl worse ↦ rw (worse, has_key) refl
    | inr (none, unmatched) ↦ rw (unmatched, has_key) (walk_latest-panics k v a b1 b2 _ _ bad)
    | inr (some more, matched) ↦ rw (matched, has_key) (walk_latest-panics k v a b1 b2 _ _ bad)
  ]
]

-- ComputeTagsDelta panics if the desired list has a tag without a value, after tags that all have
-- other keys, and the latest list has, at any position, a tag with its key and a value that is not
-- empty.
pub compute_tags_delta-panics :
    (k v : String) (a1 a2 b1 b2 : List Tag)
    → v ≢ ""
    → LacksKey k a1
    → compute_tags_delta
        (a1 ++ (record { key = some k; value = none } ∷ a2))
        (b1 ++ (tag_of k v ∷ b2))
      ≡ panics
unfolding compute_tags_delta
compute_tags_delta-panics k v a1 a2 b1 b2 filled others =
    rw
      (walk_latest-panics k v _ b1 b2 (record { added_or_updated = []; removed = [] }) []
        (match_tag-panics k v a1 a2 filled others))
      refl
