-- ===== src/References/Validity.antt =====
-- What validateReferenceFields accepts.
use ack_dms_controller.Base.{
  List, Option, [], arith, false, is_nonempty, none, refl, some, true, ◌&&◌, ◌||◌, ◌↔◌, ◌∷◌, ◌≡◌,
}
use ack_dms_controller.References.{
  ReferenceEnv, ReferenceField, or_else, validate_reference_field, validate_reference_fields,
}

-- A field that is required has references or identifiers, and no field has both.
abbrev pub IsChosen : {K : Type 0} → ReferenceField K → K → Type 0
IsChosen f ko =
    ((is_nonempty (f.refs ko) && is_nonempty (f.ids ko)) ≡ false)
    × (f.is_required ≡ true → (is_nonempty (f.refs ko) || is_nonempty (f.ids ko)) ≡ true)

abbrev pub AllChosen : {K : Type 0} → List (ReferenceField K) → K → Type 0
AllChosen [] ko = Unit
AllChosen (f ∷ fs) ko = IsChosen f ko × AllChosen fs ko

pub or_else_iff : {A : Type 0} (a b : Option A) → (or_else a b ≡ none) ↔ ((a ≡ none) × (b ≡ none))
unfolding or_else
or_else_iff none b = ((λ h. (refl, h)), λ h. h.1)
or_else_iff (some a) b = ((λ h. absurd (cc h)), λ h. absurd (cc (h.0)))

module _ {E K : Type 0} (env : ReferenceEnv E) where
  validate_reference_field_iff :
      (f : ReferenceField K) (ko : K) → (validate_reference_field env f ko ≡ none) ↔ IsChosen f ko
  unfolding validate_reference_field
  validate_reference_field_iff f ko = ground arith

  -- The validation finds no error exactly where every field that is required has references or
  -- identifiers, and no field has both.
  pub validate_reference_fields_iff :
      (fs : List (ReferenceField K)) (ko : K)
      → (validate_reference_fields env fs ko ≡ none) ↔ AllChosen fs ko
  unfolding validate_reference_fields
  validate_reference_fields_iff [] ko = ((λ h. tt), λ h. refl)
  validate_reference_fields_iff (f ∷ fs) ko =
      let both =
        or_else_iff (validate_reference_field env f ko) (validate_reference_fields env fs ko) in
      let one = validate_reference_field_iff f ko in
      let rest = validate_reference_fields_iff fs ko in
      ((λ h. (one.0 (both.0 h).0, rest.0 (both.0 h).1)), λ h. both.1 (one.1 h.0, rest.1 h.1))
