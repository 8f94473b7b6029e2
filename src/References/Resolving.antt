-- ===== src/References/Resolving.antt =====
-- The identifiers of the fields after ResolveReferences.
use ack_dms_controller.Base.{
  Bool, Bool-cases, List, Option, Option-cases, String, [], ap, concat, false, inl, inr,
  is_nonempty, none, refl, some, sym, true, ◌==◌, ◌||◌, ◌∙◌, ◌∷◌, ◌≡◌,
}
use ack_dms_controller.Manager.{Kind}
use ack_dms_controller.References.{
  ReferenceEnv, ReferenceField, ReferenceTarget, get_referenced_resource_state, resolve_each,
  resolve_field, resolve_fields, resolve_reference,
}
use ack_dms_controller.References.Clearing.{
  AllFade, Fades, eq-nil_of_is_nonempty, resolve_field-view, resolve_fields-view,
  resolve_reference-view,
}
use ack_dms_controller.References.Targets.{
  IsSource, get_referenced_resource_state_iff, not_both, with_id,
}
use ack_dms_controller.Resource.{Reference, ReferenceWrapper}
use ack_dms_controller.Runtime.{Reply-cases, fault, reply}
use ack_dms_controller.Status.{AckStatus, Condition}

module _ {E K : Type 0} (env : ReferenceEnv E) (kind : Kind K) (namespace_of : K → String) where
  -- The identifier of the resource that a reference names, in the namespace in which it may be
  -- looked for from the namespace `home`.
  abbrev pub IsTarget : String → ReferenceTarget → Reference → String → Type 0
  IsTarget home target arr v =
      (name namespace : String) × (cs : Option (List Condition)) × (arr.name ≡ some name)
      × ((env.resolve_cross_namespace cs home arr.namespace name).1 ≡ reply namespace)
      × IsSource env target name namespace v

  -- The identifiers of a field afterwards, by its references and its identifiers before.
  pub data IsAnswer (home : String) (f : ReferenceField K)
      : List ReferenceWrapper → List String → List String → Type 0 where
    unchanged : (ids : List String) → IsAnswer home f [] ids ids
    skipped :
        {w : ReferenceWrapper} {ws : List ReferenceWrapper} {before after : List String}
        → w.from ≡ none
        → IsAnswer home f ws before after
        → IsAnswer home f (w ∷ ws) before after
    taken :
        {w : ReferenceWrapper} {ws : List ReferenceWrapper} {before after : List String}
        (arr : Reference) (v : String)
        → w.from ≡ some arr
        → IsTarget home f.target arr v
        → IsAnswer home f ws (with_id f.is_list before v) after
        → IsAnswer home f (w ∷ ws) before after

  abbrev pub AllAnswers : List (ReferenceField K) → K → K → Type 0
  AllAnswers [] ko ko' = Unit
  AllAnswers (f ∷ fs) ko ko' =
      IsAnswer (namespace_of ko) f (f.refs ko) (f.ids ko) (f.ids ko') × AllAnswers fs ko ko'

  -- Writing an identifier changes the identifiers of the field, and not the namespace.
  pub record Writes (f : ReferenceField K) : Type 0 where
    pub namespace : Fades kind namespace_of f
    pub ids_ack : (s : AckStatus) (ko : K) → f.ids (kind.set_ack s ko) ≡ f.ids ko
    pub ids_put :
        (v : String) (ko : K)
        → is_nonempty (f.refs ko) ≡ true
        → f.ids (f.put_id v ko) ≡ with_id f.is_list (f.ids ko) v

  -- Writing into the field changes neither the references nor the identifiers of the others.
  abbrev pub Spares : ReferenceField K → List (ReferenceField K) → Type 0
  Spares f [] = Unit
  Spares f (g ∷ gs) = Fades kind g.refs f × Fades kind g.ids f × Spares f gs

  abbrev pub AllApart : List (ReferenceField K) → Type 0
  AllApart [] = Unit
  AllApart (f ∷ fs) = Writes f × AllFade kind f.ids fs × Spares f fs × AllApart fs

  module _
      (namespace_ack : (s : AckStatus) (ko : K)
        → namespace_of (kind.set_ack s ko) ≡ namespace_of ko) where
    resolve_reference-IsTarget :
        (f : ReferenceField K) (arr : Reference) (ko : K) (v : String)
        → (resolve_reference env kind namespace_of f arr ko).1 ≡ reply v
        → IsTarget (namespace_of ko) f.target arr v
    unfolding resolve_reference
    resolve_reference-IsTarget f arr ko v h =
        let look = (resolve_reference env kind namespace_of f arr ko).1 in
        let error =
          env.errorf (concat ("provided resource reference is nil or empty: " ∷ f.ref_name ∷ [])) in
        elim (Option-cases arr.name) [
          | inl unnamed ↦
              let refused : look ≡ fault error = rw (resolve_reference, unnamed) refl in
              not_both h refused
          | inr (name, named) ↦ elim (Bool-cases (name == "")) [
            | inl empty ↦
                let refused : look ≡ fault error = rw (resolve_reference, named) (rw empty refl) in
                not_both h refused
            | inr nonempty ↦
                let ask =
                  env.resolve_cross_namespace (kind.ack ko).conditions (namespace_of ko)
                    arr.namespace name in
                elim (Reply-cases ask.1) [
                  | inr (e, forbidden) ↦
                      let refused : look ≡ fault e =
                        rw (resolve_reference, named) (rw (nonempty, forbidden) refl) in
                      not_both h refused
                  | inl (namespace, allowed) ↦
                      let same : look ≡ get_referenced_resource_state env f.target name namespace =
                        rw (resolve_reference, named) (rw (nonempty, allowed) (rw named refl)) in
                      (
                        name,
                        namespace,
                        (kind.ack ko).conditions,
                        named,
                        allowed,
                        (get_referenced_resource_state_iff env f.target name namespace v).0
                            (sym same ∙ h),
                      )
                ]
          ]
        ]

    resolve_each-IsAnswer :
        (f : ReferenceField K)
        → Writes f
        → (ws : List ReferenceWrapper) (has : Bool) (ko : K) → is_nonempty (f.refs ko) ≡ true
        → (resolve_each env kind namespace_of f ws has ko).2 ≡ none
        → IsAnswer
            (namespace_of ko)
            f
            ws
            (f.ids ko)
            (f.ids (resolve_each env kind namespace_of f ws has ko).0)
    unfolding resolve_each
    resolve_each-IsAnswer f writes [] has ko some_refs h = unchanged (f.ids ko)
    resolve_each-IsAnswer f writes (w ∷ ws) has ko some_refs h =
        let whole = resolve_each env kind namespace_of f (w ∷ ws) has ko in
        elim (Option-cases w.from) [
          | inl e ↦
              let same : whole ≡ resolve_each env kind namespace_of f ws has ko =
                rw (resolve_each, e) refl in
              rw same
                (skipped e (resolve_each-IsAnswer f writes ws has ko some_refs (rw same at h)))
          | inr (arr, e) ↦ elim (Reply-cases (resolve_reference env kind namespace_of f arr ko).1) [
            | inr (err, bad) ↦
                let refused : whole.2 ≡ some err =
                  rw (resolve_each, e) (rw (resolve_each, bad) refl) in
                absurd (cc (h, refused))
            | inl (v, good) ↦
                let ko1 = (resolve_reference env kind namespace_of f arr ko).0 in
                let ko2 = f.put_id v ko1 in
                let same : whole ≡ resolve_each env kind namespace_of f ws true ko2 =
                  rw (resolve_each, e) (rw (resolve_each, good) refl) in
                let (same_ids, same_refs) =
                  resolve_reference-view kind f.ids env namespace_of writes.ids_ack f
                    writes.namespace.refs_ack arr ko in
                let (same_home, _) =
                  resolve_reference-view kind namespace_of env namespace_of namespace_ack f
                    writes.namespace.refs_ack arr ko in
                let some_refs1 : is_nonempty (f.refs ko1) ≡ true = rw same_refs some_refs in
                let target = resolve_reference-IsTarget f arr ko v good in
                let rest =
                  resolve_each-IsAnswer f writes ws true ko2
                    (rw (writes.namespace.refs_put v ko1) some_refs1) (rw same at h) in
                let home : namespace_of ko2 ≡ namespace_of ko =
                  writes.namespace.view_put v ko1 some_refs1 ∙ same_home in
                let grown : f.ids ko2 ≡ with_id f.is_list (f.ids ko) v =
                  writes.ids_put v ko1 some_refs1 ∙ ap (λ ids. with_id f.is_list ids v) same_ids in
                rw same (taken arr v e target (rw (home, grown) at rest))
          ]
        ]

    AllAnswers-before :
        (f : ReferenceField K) (gs : List (ReferenceField K)) (ko ko' : K)
        → Spares f gs
        → AllApart gs
        → namespace_of (resolve_field env kind namespace_of f ko).0 ≡ namespace_of ko
        → AllAnswers gs (resolve_field env kind namespace_of f ko).0 ko'
        → AllAnswers gs ko ko'
    AllAnswers-before f [] ko ko' spares apart home answers = tt
    AllAnswers-before f (g ∷ gs) ko ko' (refs, ids, spares) (writes, _, _, apart) home
          (answer, answers) =
        let same_refs =
          resolve_field-view kind g.refs env namespace_of writes.namespace.refs_ack f refs ko in
        let same_ids = resolve_field-view kind g.ids env namespace_of writes.ids_ack f ids ko in
        (
          rw (home, same_refs, same_ids) at answer,
          AllAnswers-before f gs ko ko' spares apart home answers,
        )

    resolve_field-IsAnswer :
        (f : ReferenceField K)
        → Writes f
        → (ko : K) → (resolve_field env kind namespace_of f ko).2 ≡ none
        → IsAnswer
            (namespace_of ko)
            f
            (f.refs ko)
            (f.ids ko)
            (f.ids (resolve_field env kind namespace_of f ko).0)
    unfolding resolve_field resolve_each
    resolve_field-IsAnswer f writes ko h = elim (Bool-cases (is_nonempty (f.refs ko))) [
      | inl some_refs ↦ resolve_each-IsAnswer f writes (f.refs ko) false ko some_refs h
      | inr no_refs ↦ rw (eq-nil_of_is_nonempty (f.refs ko) no_refs) (unchanged (f.ids ko))
    ]

    -- Where no reference fails, the identifiers of every field are those that they were, with the
    -- identifiers of the resources that its references name.
    pub resolve_fields-AllAnswers :
        (fs : List (ReferenceField K))
        → AllApart fs
        → (has : Bool) (ko : K) → (resolve_fields env kind namespace_of fs has ko).2 ≡ none
        → AllAnswers fs ko (resolve_fields env kind namespace_of fs has ko).0
    unfolding resolve_fields
    resolve_fields-AllAnswers [] apart has ko h = tt
    resolve_fields-AllAnswers (f ∷ fs) (writes, fade, spares, apart) has ko h =
        let whole = resolve_fields env kind namespace_of (f ∷ fs) has ko in
        let (ko1, has1, err) = resolve_field env kind namespace_of f ko in
        elim (Option-cases (resolve_field env kind namespace_of f ko).2) [
          | inr (e, bad) ↦
              let refused : whole.2 ≡ some e = rw (resolve_fields, bad) refl in
              absurd (cc (h, refused))
          | inl good ↦
              let same : whole ≡ resolve_fields env kind namespace_of fs (has || has1) ko1 =
                rw (resolve_fields, good) refl in
              let answer = resolve_field-IsAnswer f writes ko good in
              let kept =
                resolve_fields-view kind f.ids env namespace_of writes.ids_ack fs fade (has || has1)
                  ko1 in
              let home =
                resolve_field-view kind namespace_of env namespace_of namespace_ack f
                  writes.namespace ko in
              let answers = resolve_fields-AllAnswers fs apart (has || has1) ko1 (rw same at h) in
              rw same (rw kept answer, AllAnswers-before f fs ko _ spares apart home answers)
        ]
