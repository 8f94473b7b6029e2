-- ===== src/References.antt =====
-- references.go, which every package below pkg/resource has after one pattern (cited here from
-- pkg/resource/replication_task): fields of a Spec that name another custom resource, whose
-- identifier then goes into a second field. A field with one reference counts as a list of at most
-- one. A method that writes to the resource it was given returns it first.
pub mod Shapes
pub mod Clearing
pub mod Targets
pub mod Resolving
pub mod Validity
pub mod Blocks
use ack_dms_controller.Base.{
  Bool, List, Option, String, [], concat, elements, false, if◌then◌else◌, is_nonempty, none, not,
  or_default, some, true, ◌&&◌, ◌==◌, ◌||◌, ◌∷◌,
}
use ack_dms_controller.Manager.{Kind}
use ack_dms_controller.Resource.{Reference, ReferenceWrapper}
use ack_dms_controller.Runtime.{ConditionNames, Reply, fault, reply}
use ack_dms_controller.Status.{Condition}

-- What is known of a custom resource that a reference names: its conditions, and the field that
-- references to its kind take, which is there where no pointer on the way to it is nil.
pub record Referenced : Type 0 where
  pub conditions : Option (List Condition)
  pub target : Option String

-- The Kubernetes API and the ACK runtime: `apiReader.Get`, by kind, namespace and name;
-- `ackrt.ResolveCrossNamespaceReference`, which may write to the conditions; the errors of ackerr.
pub record ReferenceEnv (E : Type 0) : Type 0 where
  pub get : String → String → String → Reply Referenced E
  pub resolve_cross_namespace :
      Option (List Condition)
      → String
      → Option String
      → String
      → Option (List Condition) × Reply String E
  pub names : ConditionNames
  pub errorf : String → E
  pub reference_and_id_not_supported_for : String → String → E
  pub reference_or_id_required_for : String → String → E
  pub reference_terminal_for : String → String → String → E
  pub reference_not_synced_for : String → String → String → E
  pub reference_missing_target_field_for : String → String → String → String → E

-- The kind of resource that a reference is to, and the field that is taken from there.
pub record ReferenceTarget : Type 0 where
  pub kind : String
  pub field_name : String

-- A field of a Spec for identifiers, and the field beside it for references.
pub record ReferenceField (K : Type 0) : Type 0 where
  pub id_name : String
  pub ref_name : String
  pub is_required : Bool
  -- Whether the identifiers are a list.
  pub is_list : Bool
  pub target : ReferenceTarget
  pub refs : K → List ReferenceWrapper
  pub ids : K → List String
  -- It writes an identifier into the field, and it sets the field to nil.
  pub put_id : String → K → K
  pub erase : K → K

-- The elements of a field that holds one.
abbrev pub at_most_one {ℓ} : {A : Type ℓ} → Option A → List A
at_most_one none = []
at_most_one (some a) = a ∷ []

-- Whether a condition of the type has the status True.
unfoldable pub condition_holds : ConditionNames → String → List Condition → Bool
condition_holds names type [] = false
condition_holds names type (c ∷ cs) =
    let rest = condition_holds names type cs in
    (c.type == type && c.status == names.status_true) || rest

unfoldable pub or_else {ℓ} : {A : Type ℓ} → Option A → Option A → Option A
or_else none b = b
or_else (some a) b = some a

module _ {E : Type 0} (env : ReferenceEnv E) where
  -- getReferencedResourceState_…, and the field that its caller then reads.
  unfoldable pub get_referenced_resource_state :
      ReferenceTarget → (name namespace : String) → Reply String E
  get_referenced_resource_state target name namespace = elim (env.get target.kind namespace name) [
    | fault e ↦ fault e
    | reply obj ↦
        let terminal = condition_holds env.names env.names.terminal (elements obj.conditions) in
        let synced =
          condition_holds env.names env.names.resource_synced (elements obj.conditions) in
        if terminal
        then fault (env.reference_terminal_for target.kind namespace name)
        else if synced
        then elim (obj.target) [
          | none ↦
              fault (
                env.reference_missing_target_field_for target.kind namespace name target.field_name)
          | some v ↦ reply v
        ]
        else fault (env.reference_not_synced_for target.kind namespace name)
  ]

  unfoldable pub validate_reference_field : {K : Type 0} → ReferenceField K → K → Option E
  validate_reference_field f ko =
      let has_ref = is_nonempty (f.refs ko) in
      let has_id = is_nonempty (f.ids ko) in
      if has_ref && has_id
      then some (env.reference_and_id_not_supported_for f.id_name f.ref_name)
      else if f.is_required && not has_ref && not has_id
      then some (env.reference_or_id_required_for f.id_name f.ref_name)
      else none

  unfoldable pub validate_reference_fields : {K : Type 0} → List (ReferenceField K) → K → Option E
  validate_reference_fields [] ko = none
  validate_reference_fields (f ∷ fs) ko =
      let rest = validate_reference_fields fs ko in or_else (validate_reference_field f ko) rest

  module _ {K : Type 0} (kind : Kind K) (namespace_of : K → String) where
    abbrev pub set_conditions : Option (List Condition) → K → K
    set_conditions cs ko = kind.set_ack (record (kind.ack ko) { conditions = cs }) ko

    -- One reference, up to the identifier that it stands for.
    unfoldable pub resolve_reference : ReferenceField K → Reference → K → K × Reply String E
    resolve_reference f arr ko =
        let name = or_default arr.name "" in
        if name == ""
        then (
          ko,
          fault (
              env.errorf
                (concat ("provided resource reference is nil or empty: " ∷ f.ref_name ∷ []))),
        )
        else let (cs, found) =
            env.resolve_cross_namespace (kind.ack ko).conditions (namespace_of ko) arr.namespace
              name in
          (
            set_conditions cs ko,
            elim found [
              | fault e ↦ fault e
              | reply namespace ↦ get_referenced_resource_state f.target name namespace
            ],
          )

    -- The references of one field, with whether there were any before.
    unfoldable pub resolve_each :
        ReferenceField K → List ReferenceWrapper → Bool → K → K × Bool × Option E
    resolve_each f [] has_references ko = (ko, has_references, none)
    resolve_each f (w ∷ ws) has_references ko = elim w.from [
      | none ↦ resolve_each f ws has_references ko
      | some arr ↦
          let (ko', found) = resolve_reference f arr ko in
          elim found [
            | fault e ↦ (ko', true, some e)
            | reply v ↦ resolve_each f ws true (f.put_id v ko')
          ]
    ]

    -- resolveReferenceFor…
    unfoldable pub resolve_field : ReferenceField K → K → K × Bool × Option E
    resolve_field f ko = resolve_each f (f.refs ko) false ko

    unfoldable pub resolve_fields : List (ReferenceField K) → Bool → K → K × Bool × Option E
    resolve_fields [] resource_has_references ko = (ko, resource_has_references, none)
    resolve_fields (f ∷ fs) resource_has_references ko =
        let (ko', has, err) = resolve_field f ko in
        elim err [
          | some e ↦ (ko', resource_has_references || has, some e)
          | none ↦ resolve_fields fs (resource_has_references || has) ko'
        ]

    -- A field that the validation refuses is resolved all the same, and the error is returned last.
    unfoldable pub resolve_references : List (ReferenceField K) → K → K × Bool × Option E
    resolve_references fs ko =
        let err = validate_reference_fields fs ko in
        let (ko', has, refusal) = resolve_fields fs false ko in (ko', has, or_else refusal err)

unfoldable pub clear_resolved_references : {K : Type 0} → List (ReferenceField K) → K → K
clear_resolved_references [] ko = ko
clear_resolved_references (f ∷ fs) ko =
    clear_resolved_references fs (if is_nonempty (f.refs ko) then f.erase ko else ko)
