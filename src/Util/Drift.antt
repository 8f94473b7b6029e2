-- ===== src/Util/Drift.antt =====
-- What ComputeTagsDelta promises to the code that syncs the tags.
use ack_dms_controller.Base.{
  Bool, List, Option, Option-cases, String, [], arith, contains, eq_iff, eq_refl, false,
  if◌then◌else◌, inl, inr, is_none, is_some, is_value, none, not, refl, some, sym, true, ◌&&◌, ◌++◌,
  ◌==◌, ◌||◌, ◌∙◌, ◌∷◌, ◌≡◌,
}
use ack_dms_controller.Base.Dict.{IsMap, lookup}
use ack_dms_controller.Go.{returns}
use ack_dms_controller.Tags.{AckTags, Tag, tags_of}
use ack_dms_controller.Tags.Convert.{IsCanonical, canonical, value_of, value_of-tags_of}
use ack_dms_controller.Util.{TagsDelta, compute_tags_delta}
use ack_dms_controller.Util.Loops.{
  HasKeys, compute_tags_delta-closed, gone, tag_keys, text_of, unvisited, update_of, updated,
}

-- The value that some tag of the list with this key differs from.
abbrev drifted : String → String → List Tag → Bool
drifted k v [] = false
drifted k v (t ∷ b) = (text_of t.key == k && not (text_of t.value == v)) || drifted k v b

value_of-append :
    (k : String) (xs ys : List Tag)
    → value_of k (xs ++ ys) ≡ elim (value_of k ys) [ none ↦ value_of k xs | some v ↦ some v ]
value_of-append k [] ys = ground arith
value_of-append k (t ∷ xs) ys = ground (arith, value_of-append k xs ys)

value_of-updated :
    (k : String) (m : AckTags) (b : List Tag)
    → HasKeys b
    → value_of k (updated m b)
      ≡ elim (lookup k m) [ none ↦ none | some v ↦ if drifted k v b then some v else none ]
value_of-updated k m [] h = ground arith
value_of-updated k m (t ∷ b) h =
    let j = text_of t.key in
    let e : is_value t.key k ≡ (j == k) = rw (h.0.1) refl in
    elim (Option-cases (lookup j m)) [
      | inl missing ↦ rw missing (ground (arith, value_of-updated k m b h.1, eq_iff j k))
      | inr (v, found) ↦ rw found (
          value_of-append k (update_of t j v) (updated m b)
          ∙ ground (arith, value_of-updated k m b h.1, eq_iff j k))
    ]

contains-gone :
    (k : String) (m : AckTags) (b : List Tag)
    → HasKeys b
    → contains (gone m b) k ≡ (is_some (value_of k b) && is_none (lookup k m))
contains-gone k m [] h = refl
contains-gone k m (t ∷ b) h =
    let j = text_of t.key in
    let e : is_value t.key k ≡ (j == k) = rw (h.0.1) refl in
    elim (Option-cases (lookup j m)) [
      | inl missing ↦ rw missing (ground (arith, contains-gone k m b h.1, eq_iff j k))
      | inr (v, found) ↦ rw found (ground (arith, contains-gone k m b h.1, eq_iff j k))
    ]

contains-tag_keys :
    (k : String) (b : List Tag) → HasKeys b → contains (tag_keys b) k ≡ is_some (value_of k b)
contains-tag_keys k [] h = refl
contains-tag_keys k (t ∷ b) h = ground (arith, contains-tag_keys k b h.1, h.0.1)

value_of-unvisited :
    (k : String) (visited : List String) (m : AckTags)
    → IsMap m
    → value_of k (unvisited visited m) ≡ (if contains visited k then none else lookup k m)
unfolding lookup
value_of-unvisited k visited [] h = ground arith
value_of-unvisited k visited ((j, v) ∷ m) h =
    ground (arith, value_of-unvisited k visited m h.1, eq_iff j k)

settled :
    (k v w : String) (b : List Tag)
    → HasKeys b
    → drifted k v b ≡ false
    → value_of k b ≡ some w
    → w ≡ v
settled k v w [] h d e = ground arith
settled k v w (t ∷ b) h d e = ground (arith, settled k v w b h.1, h.0.1, eq_iff (text_of t.value) v)

-- What a key holds after the removals and then the additions of a delta, where it held `old`.
abbrev pub after_sync : TagsDelta → String → Option String → Option String
after_sync d k old =
    let kept = if contains d.removed k then none else old in
    elim (value_of k d.added_or_updated) [ none ↦ kept | some v ↦ some v ]

closed-syncs :
    (m : AckTags) (b : List Tag) (k : String)
    → IsMap m
    → HasKeys b
    → after_sync
        (record { added_or_updated = updated m b ++ unvisited (tag_keys b) m; removed = gone m b })
        k
        (value_of k b)
      ≡ lookup k m
closed-syncs m b k h hb =
    let fresh = unvisited (tag_keys b) m in
    elim (Option-cases (lookup k m)) [
      | inl missing ↦ ground (
        arith,
        value_of-append k (updated m b) fresh,
        value_of-updated k m b hb,
        contains-gone k m b hb,
        value_of-unvisited k (tag_keys b) m h,
      )
      | inr (v, found) ↦ elim (Option-cases (value_of k b)) [
        | inl absent ↦ ground (
          arith,
          value_of-append k (updated m b) fresh,
          value_of-updated k m b hb,
          contains-tag_keys k b hb,
          value_of-unvisited k (tag_keys b) m h,
        )
        | inr (w, held) ↦ ground (
          arith,
          value_of-append k (updated m b) fresh,
          value_of-updated k m b hb,
          contains-gone k m b hb,
          contains-tag_keys k b hb,
          value_of-unvisited k (tag_keys b) m h,
          settled k v w b hb,
        )
      ]
    ]

-- For a desired list with every key and value present and no key twice, and a latest list with
-- every key present, ComputeTagsDelta returns, and removing its removed keys and then setting its
-- added tags turns the tags of the latest list into those of the desired list, for every key.
pub compute_tags_delta-syncs :
    (a b : List Tag)
    → IsCanonical a
    → HasKeys b
    → (d : TagsDelta) × (compute_tags_delta a b ≡ returns d)
      × ((k : String) → after_sync d k (value_of k b) ≡ value_of k a)
compute_tags_delta-syncs _ b (canonical m h) hb = (
  _,
  compute_tags_delta-closed m b hb,
  λ k. closed-syncs m b k h hb ∙ sym (value_of-tags_of k m h),
)

-- Every entry of `n` stands in `m`.
abbrev Within : AckTags → AckTags → Type 0
Within n m = (k v : String) → lookup k n ≡ some v → lookup k m ≡ some v

Within-tail :
    (k v : String) (n m : AckTags)
    → IsMap {V = String} ((k, v) ∷ n)
    → Within ((k, v) ∷ n) m
    → Within n m
unfolding lookup
Within-tail k v n m h w j u e = w j u (ground (arith, eq_iff k j))

Within-head : (k v : String) (n m : AckTags) → Within ((k, v) ∷ n) m → lookup k m ≡ some v
unfolding lookup
Within-head k v n m w = w k v (rw eq_refl refl)

updated-nil : (n m : AckTags) → IsMap n → Within n m → updated m (tags_of n) ≡ []
unfolding tags_of
updated-nil [] m h w = refl
updated-nil ((k, v) ∷ n) m h w =
    rw (Within-head k v n m w) (rw eq_refl (updated-nil n m h.1 (Within-tail k v n m h w)))

gone-nil : (n m : AckTags) → IsMap n → Within n m → gone m (tags_of n) ≡ []
unfolding tags_of
gone-nil [] m h w = refl
gone-nil ((k, v) ∷ n) m h w =
    rw (Within-head k v n m w) (gone-nil n m h.1 (Within-tail k v n m h w))

unvisited-nil :
    (visited : List String) (m : AckTags)
    → IsMap m
    → ((k v : String) → lookup k m ≡ some v → contains visited k ≡ true)
    → unvisited visited m ≡ []
unfolding lookup
unvisited-nil visited [] h all = refl
unvisited-nil visited ((k, v) ∷ m) h all =
    rw (all k v (rw eq_refl refl))
      (unvisited-nil visited m h.1 (λ j u e. all j u (ground (arith, eq_iff k j))))

HasKeys-tags_of : (n : AckTags) → HasKeys (tags_of n)
unfolding tags_of
HasKeys-tags_of [] = tt
HasKeys-tags_of ((k, v) ∷ n) = ((k, refl), HasKeys-tags_of n)

-- Two lists that are canonical (every key and value present, no key twice) and give every key the
-- same value have an empty delta, in whatever order they list their tags.
pub compute_tags_delta-converged :
    (a b : List Tag)
    → IsCanonical a
    → IsCanonical b
    → ((k : String) → value_of k a ≡ value_of k b)
    → compute_tags_delta a b ≡ returns (record { added_or_updated = []; removed = [] })
compute_tags_delta-converged _ _ (canonical m h) (canonical n g) same =
    let equal : (k : String) → lookup k m ≡ lookup k n =
      λ k. sym (value_of-tags_of k m h) ∙ same k ∙ value_of-tags_of k n g in
    let within : Within n m = λ k v e. equal k ∙ e in
    let keys = HasKeys-tags_of n in
    compute_tags_delta-closed m (tags_of n) keys
    ∙ rw (updated-nil n m g within, gone-nil n m g within)
        (rw
          (unvisited-nil (tag_keys (tags_of n)) m h (λ k v e.
            contains-tag_keys k (tags_of n) keys
            ∙ rw (value_of-tags_of k n g, sym (equal k), e) refl))
          refl)
