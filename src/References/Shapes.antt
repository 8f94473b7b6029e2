-- ===== src/References/Shapes.antt =====
-- The fields with references, by their shape: one reference, a list of them, and a field of
-- settings that may be nil.
use mathlib.Core.Option
use ack_dms_controller.Base.{
  Bool, List, Option, String, [], elements, false, none, some, true, ◌++◌, ◌∷◌,
}
use ack_dms_controller.References.{ReferenceField, ReferenceTarget, at_most_one}
use ack_dms_controller.Resource.{ReferenceWrapper}

-- A field with one reference and one identifier, by what reads and writes them.
abbrev pub scalar :
    {S : Type 0} (id_name ref_name : String) (is_required : Bool) (target : ReferenceTarget)
    → (S → Option ReferenceWrapper)
    → (S → Option String)
    → (Option String → S → S)
    → ReferenceField S
scalar id_name ref_name is_required target ref id set_id = record {
  id_name = id_name;
  ref_name = ref_name;
  is_required = is_required;
  is_list = false;
  target = target;
  refs = λ s. at_most_one (ref s);
  ids = λ s. at_most_one (id s);
  put_id = λ v s. set_id (some v) s;
  erase = λ s. set_id none s;
}

-- A field with a list of references and a list of identifiers.
abbrev pub listed :
    {S : Type 0} (id_name ref_name : String) (is_required : Bool) (target : ReferenceTarget)
    → (S → Option (List ReferenceWrapper))
    → (S → Option (List String))
    → (Option (List String) → S → S)
    → ReferenceField S
listed id_name ref_name is_required target refs ids set_ids = record {
  id_name = id_name;
  ref_name = ref_name;
  is_required = is_required;
  is_list = true;
  target = target;
  refs = λ s. elements (refs s);
  ids = λ s. elements (ids s);
  put_id = λ v s. set_ids (some (elements (ids s) ++ (v ∷ []))) s;
  erase = λ s. set_ids none s;
}

-- A pointer to settings inside a Spec.
pub record Slot (K S : Type 0) : Type 0 where
  pub get : K → Option S
  pub set : Option S → K → K

-- A field of settings that may be nil, as a field of the resource.
abbrev pub nested : {K S : Type 0} → Slot K S → ReferenceField S → ReferenceField K
nested slot f = record {
  id_name = f.id_name;
  ref_name = f.ref_name;
  is_required = f.is_required;
  is_list = f.is_list;
  target = f.target;
  refs = λ ko. elim (slot.get ko) [ none ↦ [] | some s ↦ f.refs s ];
  ids = λ ko. elim (slot.get ko) [ none ↦ [] | some s ↦ f.ids s ];
  put_id = λ v ko. slot.set (Option.map (f.put_id v) (slot.get ko)) ko;
  erase = λ ko. slot.set (Option.map f.erase (slot.get ko)) ko;
}

-- The fields of settings as fields of the resource, before others.
abbrev pub nested_all :
    {K S : Type 0}
    → Slot K S
    → List (ReferenceField S)
    → List (ReferenceField K)
    → List (ReferenceField K)
nested_all slot [] rest = rest
nested_all slot (f ∷ fs) rest = nested slot f ∷ nested_all slot fs rest
