-- ===== src/Manager.antt =====
-- manager.go, one text in every package below pkg/resource but for IsSynced (cited here from
-- pkg/resource/replication_task). `Kind` is what it uses of a custom resource; the sdk functions of
-- the package are arguments. A method that writes to a resource it was given returns it first.
pub mod TagLaws
pub mod TaskKind
pub mod Failing
pub mod TaskDeletion
pub mod InstanceKind
use ack_dms_controller.Base.{
  Bool, List, Option, String, [], concat, elements, none, or_default, some, ◌∷◌, ◌≡◌,
}
use ack_dms_controller.Base.Dict.{IsMap, lookup}
use ack_dms_controller.Runtime.{ConditionNames, Errors, M, lift, pure, ◌>>=◌}
use ack_dms_controller.Status.{AckStatus, ResourceManager, on_error, on_success}
use ack_dms_controller.Tags.{
  AckTags, Tag, convert_to_ordered_ack_tags, from_ack_tags, ignore_system_tags, sync_aws_tags,
}

-- `ko.Status.ACKResourceMetadata` and `.Conditions`, and `ko.Spec.Tags`.
pub record Kind (K : Type 0) : Type 0 where
  pub ack : K → AckStatus
  pub set_ack : AckStatus → K → K
  pub tags : K → Option (List Tag)
  pub set_tags : Option (List Tag) → K → K

-- The fields are fields.
pub record KindLaws {K : Type 0} (kind : Kind K) : Type 0 where
  pub ack-set_ack : (s : AckStatus) (k : K) → kind.ack (kind.set_ack s k) ≡ s
  pub set_ack-ack : (k : K) → kind.set_ack (kind.ack k) k ≡ k
  pub tags-set_tags : (t : Option (List Tag)) (k : K) → kind.tags (kind.set_tags t k) ≡ t
  pub ack-set_tags : (t : Option (List Tag)) (k : K) → kind.ack (kind.set_tags t k) ≡ kind.ack k

-- `acktags.Merge(a, b)`, a parameter, and what its documentation says: the tags of both, where
-- those of the first count for a key that both have.
pub record MergeLaws (merge : AckTags → AckTags → AckTags) : Type 0 where
  pub one : (a b : AckTags) → IsMap a → IsMap b → IsMap (merge a b)
  pub both :
      (a b : AckTags) (k : String)
      → lookup k (merge a b) ≡ elim (lookup k a) [ none ↦ lookup k b | some v ↦ some v ]

-- `(acktypes.AWSResource, error)`
abbrev pub Outcome : Type 0 → Type 0 → Type 0
Outcome K E = Option K × Option E

module _ {K : Type 0} (kind : Kind K) (visit : AckTags → AckTags) where
  unfoldable pub ensure_tags : (AckTags → AckTags → AckTags) → AckTags → K → K
  ensure_tags merge default_tags r =
      let (resource_tags, key_order) = convert_to_ordered_ack_tags (elements (kind.tags r)) in
      let tags = merge resource_tags default_tags in
      kind.set_tags (some (from_ack_tags visit tags key_order)) r

  unfoldable pub filter_system_tags : List String → K → K
  filter_system_tags system_tags r =
      let (resource_tags, key_order) = convert_to_ordered_ack_tags (elements (kind.tags r)) in
      let kept = ignore_system_tags visit resource_tags system_tags in
      kind.set_tags (some (from_ack_tags visit kept key_order)) r

  -- The resource `a` as mirrorAWSTags leaves it; `b` may be nil.
  unfoldable pub mirror_aws_tags : K → Option K → K
  mirror_aws_tags a none = a
  mirror_aws_tags a (some b) =
      let (desired_tags, key_order) = convert_to_ordered_ack_tags (elements (kind.tags a)) in
      let (latest_tags, _) = convert_to_ordered_ack_tags (elements (kind.tags b)) in
      kind.set_tags
        (some (from_ack_tags visit (sync_aws_tags visit desired_tags latest_tags) key_order)) a

  module _ {W E : Type 0} (errors : Errors E) (names : ConditionNames)
      (terminal_aws_error : Option E → Bool) (rm : ResourceManager) where
    -- onError and onSuccess, of a resource.
    unfoldable pub resource_on_error : K → E → M W E (Outcome K E)
    resource_on_error r e = do
      (s, err) ← lift (on_error errors names terminal_aws_error rm (kind.ack r) e)
      pure (some (kind.set_ack s r), err)

    unfoldable pub resource_on_success : Option K → M W E (Outcome K E)
    resource_on_success none = pure (none, none)
    resource_on_success (some r) = do
      (s, err) ← lift (on_success errors names terminal_aws_error rm (kind.ack r))
      pure (some (kind.set_ack s r), err)

    -- How ReadOne, Create, Update and Delete end: the error goes with the resource that the sdk
    -- function returned, and with `fallback` where it returned none.
    unfoldable pub conclude : K → Outcome K E → M W E (Outcome K E)
    unfolding resource_on_error resource_on_success
    conclude fallback (observed, none) = resource_on_success observed
    conclude fallback (observed, some e) = resource_on_error (or_default observed fallback) e

    unfoldable pub read_one : (K → M W E (Outcome K E)) → K → M W E (K × Outcome K E)
    unfolding mirror_aws_tags conclude
    read_one find r = do
      found ← find r
      let r' = mirror_aws_tags r found.0
      outcome ← conclude r' found
      pure (r', outcome)

    unfoldable pub create : (K → M W E (Outcome K E)) → K → M W E (Outcome K E)
    unfolding conclude
    create make r = do created ← make r; conclude r created

    unfoldable pub update :
        {D : Type 0} → (K → K → D → M W E (Outcome K E)) → K → K → D → M W E (Outcome K E)
    unfolding conclude
    update alter desired latest delta = do
      changed ← alter desired latest delta
      conclude latest changed

    unfoldable pub delete_resource : (K → M W E (K × Outcome K E)) → K → M W E (K × Outcome K E)
    unfolding conclude
    delete_resource erase r = do
      (r', observed) ← erase r
      outcome ← conclude r' observed
      pure (r', outcome)

-- `rm.ARNFromName(name)`
unfoldable pub arn_from_name : ResourceManager → String → String
arn_from_name rm name = concat (
    "arn:" ∷ rm.aws_partition ∷ ":dms:" ∷ rm.aws_region ∷ ":" ∷ rm.aws_account_id ∷ ":" ∷ name ∷ [])
