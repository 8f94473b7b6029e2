-- ===== src/References/Targets.antt =====
-- Where the identifiers come from that ResolveReferences writes.
use ack_dms_controller.Base.{
  Bool, Bool-cases, List, Option-cases, String, [], ap, elements, false, inl, inr, refl, some, true,
  ◌++◌, ◌↔◌, ◌∙◌, ◌∷◌, ◌≡◌,
}
use ack_dms_controller.References.{
  ReferenceEnv, ReferenceTarget, Referenced, condition_holds, get_referenced_resource_state,
}
use ack_dms_controller.Runtime.{Reply, Reply-cases, fault, reply}

-- The identifiers of a field after one more is written.
abbrev pub with_id : Bool → List String → String → List String
with_id true ids v = ids ++ (v ∷ [])
with_id false ids v = v ∷ []

-- There is a resource of the kind with this name; it has no condition Terminal that is True, a
-- condition ResourceSynced that is True, and the identifier in the field that is asked for.
abbrev pub IsSource :
    {E : Type 0} → ReferenceEnv E → ReferenceTarget → String → String → String → Type 0
IsSource env target name namespace v =
    (obj : Referenced) × (env.get target.kind namespace name ≡ reply obj)
    × (condition_holds env.names env.names.terminal (elements obj.conditions) ≡ false)
    × (condition_holds env.names env.names.resource_synced (elements obj.conditions) ≡ true)
    × (obj.target ≡ some v)

pub agree : {A E : Type 0} {r : Reply A E} {a b : A} → r ≡ reply a → r ≡ reply b → b ≡ a
agree h k = cc (h, k)

pub not_both : {A E Z : Type 0} {r : Reply A E} {a : A} {e : E} → r ≡ reply a → r ≡ fault e → Z
not_both h k = absurd (cc (h, k))

module _ {E : Type 0} (env : ReferenceEnv E) where
  source-found :
      (target : ReferenceTarget) (name namespace v : String)
      → IsSource env target name namespace v
      → get_referenced_resource_state env target name namespace ≡ reply v
  unfolding get_referenced_resource_state
  source-found target name namespace v (obj, found, alive, synced, has) =
      rw (get_referenced_resource_state, found) (rw (alive, synced, has) refl)

  found-IsSource :
      (target : ReferenceTarget) (name namespace v : String)
      → get_referenced_resource_state env target name namespace ≡ reply v
      → IsSource env target name namespace v
  unfolding get_referenced_resource_state
  found-IsSource target name namespace v h =
      let look = get_referenced_resource_state env target name namespace in
      elim (Reply-cases (env.get target.kind namespace name)) [
        | inr (e, bad) ↦
            let refused : look ≡ fault e = rw (get_referenced_resource_state, bad) refl in
            not_both h refused
        | inl (obj, found) ↦
            let holds =
              λ (type : String). condition_holds env.names type (elements obj.conditions) in
            elim (Bool-cases (holds env.names.terminal)) [
              | inl dead ↦
                  let refused : look
                      ≡ fault (env.reference_terminal_for target.kind namespace name) =
                    rw (get_referenced_resource_state, found) (rw dead refl) in
                  not_both h refused
              | inr alive ↦ elim (Bool-cases (holds env.names.resource_synced)) [
                | inr behind ↦
                    let refused : look
                        ≡ fault (env.reference_not_synced_for target.kind namespace name) =
                      rw (get_referenced_resource_state, found) (rw (alive, behind) refl) in
                    not_both h refused
                | inl synced ↦ elim (Option-cases obj.target) [
                  | inl missing ↦
                      let refused : look
                          ≡ fault (
                              env.reference_missing_target_field_for target.kind namespace name
                                target.field_name) =
                        rw (get_referenced_resource_state, found)
                          (rw (alive, synced, missing) refl) in
                      not_both h refused
                  | inr (x, has) ↦
                      let given : look ≡ reply x =
                        rw (get_referenced_resource_state, found) (rw (alive, synced, has) refl) in
                      (obj, found, alive, synced, has ∙ ap some (agree h given))
                ]
              ]
            ]
      ]

  -- The look-up of a referenced resource gives an identifier exactly where there is such a
  -- resource, not terminal but synced, that has the identifier.
  pub get_referenced_resource_state_iff :
      (target : ReferenceTarget) (name namespace v : String)
      → (get_referenced_resource_state env target name namespace ≡ reply v)
        ↔ IsSource env target name namespace v
  get_referenced_resource_state_iff target name namespace v =
      (found-IsSource target name namespace v, source-found target name namespace v)
