-- ===== src/TagSync/Effect.antt =====
-- What syncTags does to the tags that AWS holds.
use ack_dms_controller.Base.{
  List, Option, Option-cases, String, [], arith, contains, if◌then◌else◌, inl, inr, is_value, none,
  or_default, refl, some, ◌∙◌, ◌∷◌, ◌≡◌,
}
use ack_dms_controller.Go.{returns}
use ack_dms_controller.Runtime.{>>=-returns, M, Reply, World, error_of, fault, pure, reply, ◌>>=◌}
use ack_dms_controller.Status.{AckStatus, Metadata}
use ack_dms_controller.TagSync.{
  SdkTag, TagApi, add_tags, remove_tags, sdk_tags_from_resource_tags, sync_tags,
}
use ack_dms_controller.Tags.{Tag}
use ack_dms_controller.Tags.Convert.{IsCanonical, value_of}
use ack_dms_controller.Util.{TagsDelta, compute_tags_delta}
use ack_dms_controller.Util.Drift.{compute_tags_delta-converged, compute_tags_delta-syncs}
use ack_dms_controller.Util.Loops.{HasKeys, gone}

-- The value that a list of SDK tags gives to a key: that of the last tag with the key.
abbrev pub sdk_value_of : String → List SdkTag → Option String
sdk_value_of k [] = none
sdk_value_of k (t ∷ ts) = elim (sdk_value_of k ts) [
  | none ↦ if is_value t.key k then some (or_default t.value "") else none
  | some v ↦ some v
]

-- What the AWS documentation says of the tag calls, where `held w arn k` is the value under key
-- `k` on the resource `arn`: a removal that succeeds removes the listed keys, and an addition
-- that succeeds sets the listed tags.
pub record TagApiLaws {W E : Type 0} (api : TagApi W E)
    (held : W → Option String → String → Option String) : Type 0 where
  pub removes :
      (arn : Option String) (ks : List String) (w w' : W) (k : String)
      → api.remove_tags_from_resource arn ks w ≡ (reply tt, w')
      → held w' arn k ≡ (if contains ks k then none else held w arn k)
  pub adds :
      (arn : Option String) (ts : List SdkTag) (w w' : W) (k : String)
      → api.add_tags_to_resource arn ts w ≡ (reply tt, w')
      → held w' arn k ≡ elim (sdk_value_of k ts) [ none ↦ held w arn k | some v ↦ some v ]

sdk_value_of-sdk_tags :
    (k : String) (ts : List Tag) → sdk_value_of k (sdk_tags_from_resource_tags ts) ≡ value_of k ts
unfolding sdk_tags_from_resource_tags
sdk_value_of-sdk_tags k [] = refl
sdk_value_of-sdk_tags k (t ∷ ts) = rw (sdk_value_of-sdk_tags k ts) refl

eq-reply : {W E : Type 0} (r : Reply (Unit {0}) E × W) → error_of r.0 ≡ none → r ≡ (reply tt, r.1)
eq-reply (reply _, w) h = refl
eq-reply (fault e, w) h = cc

module _ {W E : Type 0} (api : TagApi W E) (held : W → Option String → String → Option String)
    (laws : TagApiLaws api held) where
  remove_tags-held :
      (arn : Option String) (ks : List String) (w : World W E)
      → (err : Option E) × (w' : World W E) × (remove_tags api arn ks w ≡ returns (err, w'))
        × (err ≡ none
            → (k : String)
            → held w'.cloud arn k ≡ (if contains ks k then none else held w.cloud arn k))
  unfolding remove_tags
  remove_tags-held arn [] w = (none, w, refl, λ _ k. refl)
  remove_tags-held arn (j ∷ ks) w =
      let r = api.remove_tags_from_resource arn (j ∷ ks) w.cloud in
      (error_of r.0, _, refl, λ ok k. laws.removes arn (j ∷ ks) w.cloud r.1 k (eq-reply r ok))

  add_tags-held :
      (arn : Option String) (ts : List Tag) (w : World W E)
      → (err : Option E) × (w' : World W E) × (add_tags api arn ts w ≡ returns (err, w'))
        × (err ≡ none
            → (k : String)
            → held w'.cloud arn k
              ≡ elim (value_of k ts) [ none ↦ held w.cloud arn k | some v ↦ some v ])
  unfolding add_tags
  add_tags-held arn [] w = (none, w, refl, λ _ k. refl)
  add_tags-held arn (t ∷ ts) w =
      let sent = sdk_tags_from_resource_tags (t ∷ ts) in
      let r = api.add_tags_to_resource arn sent w.cloud in
      (
        error_of r.0,
        _,
        refl,
        λ ok k.
            rw (← sdk_value_of-sdk_tags k (t ∷ ts))
              (laws.adds arn sent w.cloud r.1 k (eq-reply r ok)),
      )

  -- The rest of syncTags, once the delta is known.
  abbrev apply_delta : Option String → TagsDelta → M W E (Option E)
  apply_delta arn d = remove_tags api arn d.removed >>= λ err. elim err [
    | some e ↦ pure (some e)
    | none ↦ add_tags api arn d.added_or_updated
  ]

  sync_tags-apply_delta :
      (desired : List Tag) (status : AckStatus) (m : Metadata) (latest : List Tag) (d : TagsDelta)
      (w : World W E)
      → status.metadata ≡ some m
      → compute_tags_delta desired latest ≡ returns d
      → sync_tags api desired status latest w ≡ apply_delta m.arn d w
  unfolding sync_tags
  sync_tags-apply_delta desired status m latest d w has_metadata computed =
      rw (has_metadata, computed) refl

  -- Where the desired tags are canonical (every key and value present, no key twice), the latest
  -- tags have their keys, the latest resource has its metadata, and AWS holds the latest tags on
  -- its ARN, syncTags returns, and if it returns no error AWS then holds, for every key, exactly
  -- the desired tags on that ARN.
  pub sync_tags-held :
      (desired : List Tag) (status : AckStatus) (m : Metadata) (latest : List Tag) (w : World W E)
      → IsCanonical desired
      → HasKeys latest
      → status.metadata ≡ some m
      → ((k : String) → held w.cloud m.arn k ≡ value_of k latest)
      → (err : Option E) × (w' : World W E) × (sync_tags api desired status latest w
          ≡ returns (err, w'))
        × (err ≡ none → (k : String) → held w'.cloud m.arn k ≡ value_of k desired)
  unfolding sync_tags
  sync_tags-held desired status m latest w canon keyed has_metadata observed =
      let (d, computed, syncs) = compute_tags_delta-syncs desired latest canon keyed in
      let (err, w1, removed, gone) = remove_tags-held m.arn d.removed w in
      let start = sync_tags-apply_delta desired status m latest d w has_metadata computed in
      let rest = >>=-returns (remove_tags api m.arn d.removed) (λ (o : Option E). elim o [
        | some e ↦ pure (some e)
        | none ↦ add_tags api m.arn d.added_or_updated
      ]) in
      elim (Option-cases err) [
        | inr (e, failed) ↦
            (some e, w1, start ∙ rest removed ∙ rw failed refl, λ ok. absurd (cc ok))
        | inl ok1 ↦
            let (err2, w2, added, put) = add_tags-held m.arn d.added_or_updated w1 in
            (
              err2,
              w2,
              start ∙ rest removed ∙ rw ok1 added,
              λ ok k. ground (arith, put ok k, gone ok1 k, observed k, syncs k),
            )
      ]

  -- Where the desired and the latest tags are canonical and give every key the same value, syncTags
  -- makes no API call: it returns no error and leaves AWS and the metrics as they were.
  pub sync_tags_converged :
      (desired : List Tag) (status : AckStatus) (m : Metadata) (latest : List Tag) (w : World W E)
      → IsCanonical desired
      → IsCanonical latest
      → status.metadata ≡ some m
      → ((k : String) → value_of k desired ≡ value_of k latest)
      → sync_tags api desired status latest w ≡ returns (none, w)
  unfolding sync_tags remove_tags add_tags
  sync_tags_converged desired status m latest w canon canon' has_metadata same =
      rw (has_metadata, compute_tags_delta-converged desired latest canon canon' same) refl
