-- ===== src/References/Clearing.antt =====
-- What ClearResolvedReferences leaves of what ResolveReferences has written.
use mathlib.Core.Option
use ack_dms_controller.Base.{
  Bool, Bool-cases, List, Option, Option-cases, String, [], ap, false, if◌then◌else◌, inl, inr,
  is_nonempty, none, or_default, refl, some, true, ◌==◌, ◌||◌, ◌∙◌, ◌∷◌, ◌≡◌,
}
use ack_dms_controller.Manager.{Kind}
use ack_dms_controller.References.{
  ReferenceEnv, ReferenceField, at_most_one, clear_resolved_references, resolve_each, resolve_field,
  resolve_fields, resolve_reference, resolve_references,
}
use ack_dms_controller.References.Shapes.{Slot, nested}
use ack_dms_controller.Resource.{Reference, ReferenceWrapper}
use ack_dms_controller.Runtime.{Reply-cases}
use ack_dms_controller.Status.{AckStatus}

-- The field of an identifier after its references are looked at.
abbrev pub kept : Option ReferenceWrapper → Option String → Option String
kept ref id = if is_nonempty (at_most_one ref) then none else id

pub clear_resolved_references-cons :
    {K : Type 0} (f : ReferenceField K) (fs : List (ReferenceField K)) (ko ko' : K)
    → (if is_nonempty (f.refs ko) then f.erase ko else ko) ≡ ko'
    → clear_resolved_references (f ∷ fs) ko ≡ clear_resolved_references fs ko'
unfolding clear_resolved_references
clear_resolved_references-cons f fs ko ko' e = ap (clear_resolved_references fs) e

pub eq-nil_of_is_nonempty {ℓ} : {A : Type ℓ} (xs : List A) → is_nonempty xs ≡ false → xs ≡ []
eq-nil_of_is_nonempty [] h = refl
eq-nil_of_is_nonempty (x ∷ xs) h = absurd (cc h)

module _ {K S : Type 0} (kind : Kind K) (view : K → S) where
  -- The field keeps its references, and an identifier that is written into it while it has some is
  -- not seen.
  pub record Fades (f : ReferenceField K) : Type 0 where
    pub refs_ack : (s : AckStatus) (ko : K) → f.refs (kind.set_ack s ko) ≡ f.refs ko
    pub refs_put : (v : String) (ko : K) → f.refs (f.put_id v ko) ≡ f.refs ko
    pub view_put :
        (v : String) (ko : K) → is_nonempty (f.refs ko) ≡ true → view (f.put_id v ko) ≡ view ko

  abbrev pub AllFade : List (ReferenceField K) → Type 0
  AllFade [] = Unit
  AllFade (f ∷ fs) = Fades f × AllFade fs

  module _ {E : Type 0} (env : ReferenceEnv E) (namespace_of : K → String)
      (view_ack : (s : AckStatus) (ko : K) → view (kind.set_ack s ko) ≡ view ko) where
    pub resolve_reference-view :
        (f : ReferenceField K)
        → ((s : AckStatus) (ko : K) → f.refs (kind.set_ack s ko) ≡ f.refs ko)
        → (arr : Reference) (ko : K)
        → let ko' = (resolve_reference env kind namespace_of f arr ko).0 in
          (view ko' ≡ view ko) × (f.refs ko' ≡ f.refs ko)
    unfolding resolve_reference
    resolve_reference-view f refs_ack arr ko = elim (Bool-cases (or_default arr.name "" == "")) [
      | inl empty ↦ rw empty (refl, refl)
      | inr named ↦ rw named (view_ack _ ko, refs_ack _ ko)
    ]

    resolve_each-view :
        (f : ReferenceField K)
        → Fades f
        → (ws : List ReferenceWrapper) (has : Bool) (ko : K) → is_nonempty (f.refs ko) ≡ true
        → view (resolve_each env kind namespace_of f ws has ko).0 ≡ view ko
    unfolding resolve_each
    resolve_each-view f fades [] has ko some_refs = refl
    resolve_each-view f fades (w ∷ ws) has ko some_refs = elim (Option-cases w.from) [
      | inl e ↦ rw e (resolve_each-view f fades ws has ko some_refs)
      | inr (arr, e) ↦
          let (same_view, same_refs) = resolve_reference-view f fades.refs_ack arr ko in
          elim (Reply-cases (resolve_reference env kind namespace_of f arr ko).1) [
            | inr (err, bad) ↦ rw (resolve_each, e) (rw (resolve_each, bad) same_view)
            | inl (v, good) ↦
                rw (resolve_each, e)
                  (rw (resolve_each, good)
                    (resolve_each-view f fades ws true
                        (f.put_id v (resolve_reference env kind namespace_of f arr ko).0)
                        (rw
                          (
                            fades.refs_put v (resolve_reference env kind namespace_of f arr ko).0,
                            same_refs,
                          )
                          some_refs)
                      ∙ fades.view_put v _ (rw same_refs some_refs)
                      ∙ same_view))
          ]
    ]

    pub resolve_field-view :
        (f : ReferenceField K)
        → Fades f
        → (ko : K) → view (resolve_field env kind namespace_of f ko).0 ≡ view ko
    unfolding resolve_field resolve_each
    resolve_field-view f fades ko = elim (Bool-cases (is_nonempty (f.refs ko))) [
      | inl some_refs ↦ resolve_each-view f fades (f.refs ko) false ko some_refs
      | inr no_refs ↦ rw (eq-nil_of_is_nonempty (f.refs ko) no_refs) refl
    ]

    pub resolve_fields-view :
        (fs : List (ReferenceField K))
        → AllFade fs
        → (has : Bool) (ko : K) → view (resolve_fields env kind namespace_of fs has ko).0 ≡ view ko
    unfolding resolve_fields
    resolve_fields-view [] fade has ko = refl
    resolve_fields-view (f ∷ fs) (fades, rest) has ko =
        let (ko', h, e) = resolve_field env kind namespace_of f ko in
        let same = resolve_field-view f fades ko in
        elim (Option-cases (resolve_field env kind namespace_of f ko).2) [
          | inr (err, bad) ↦ rw (resolve_fields, bad) same
          | inl good ↦ rw (resolve_fields, good) (resolve_fields-view fs rest (has || h) ko' ∙ same)
        ]

    pub resolve_references-view :
        (fs : List (ReferenceField K))
        → AllFade fs
        → (ko : K) → view (resolve_references env kind namespace_of fs ko).0 ≡ view ko
    unfolding resolve_references
    resolve_references-view fs fade ko = resolve_fields-view fs fade false ko

-- A pair; to the right, what a list of fields asks for.
infixr 5 ◌⊕◌
pub ◌⊕◌ : {A B : Type 0} → A → B → A × B
a ⊕ b = (a, b)

-- Settings inside a Spec, which are read and written as one field.
pub record SlotLaws {K S : Type 0} (kind : Kind K) (slot : Slot K S) : Type 0 where
  pub get_ack : (s : AckStatus) (ko : K) → slot.get (kind.set_ack s ko) ≡ slot.get ko
  pub get_set : (o : Option S) (ko : K) → slot.get (slot.set o ko) ≡ o
  pub set_get : (ko : K) → slot.set (slot.get ko) ko ≡ ko

module _ {K S V : Type 0} (kind : Kind K) (view : K → V) (slot : Slot K S)
    (laws : SlotLaws kind slot) (f : ReferenceField S) where
  refs_nested :
      (v : String) (o : Option S) (ko : K)
      → ((v : String) (s : S) → f.refs (f.put_id v s) ≡ f.refs s)
      → (nested slot f).refs (slot.set (Option.map (f.put_id v) o) ko)
        ≡ elim o [ none ↦ [] | some s ↦ f.refs s ]
  refs_nested v none ko same = rw (laws.get_set none ko) refl
  refs_nested v (some s) ko same = rw (laws.get_set (some (f.put_id v s)) ko) (same v s)

  view_nested :
      (v : String) (o : Option S) (ko : K)
      → ((v : String) (s : S) (ko : K)
          → is_nonempty (f.refs s) ≡ true
          → view (slot.set (some (f.put_id v s)) ko) ≡ view (slot.set (some s) ko))
      → is_nonempty (elim o [ none ↦ [] | some s ↦ f.refs s ]) ≡ true
      → view (slot.set (Option.map (f.put_id v) o) ko) ≡ view (slot.set o ko)
  view_nested v none ko same h = refl
  view_nested v (some s) ko same h = same v s ko h

  -- A field of settings fades where it fades in the settings.
  pub nested-Fades :
      ((v : String) (s : S) → f.refs (f.put_id v s) ≡ f.refs s)
      → ((v : String) (s : S) (ko : K)
          → is_nonempty (f.refs s) ≡ true
          → view (slot.set (some (f.put_id v s)) ko) ≡ view (slot.set (some s) ko))
      → Fades kind view (nested slot f)
  nested-Fades same_refs same_view = record {
    refs_ack = λ s ko. rw (laws.get_ack s ko) refl;
    refs_put = λ v ko. refs_nested v (slot.get ko) ko same_refs;
    view_put = λ v ko h. view_nested v (slot.get ko) ko same_view h ∙ ap view (laws.set_get ko);
  }
