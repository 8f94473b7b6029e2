-- ===== src/References/Blocks.antt =====
-- ClearResolvedReferences on fields that stand in settings, settings by settings.
use mathlib.Core.Option
use ack_dms_controller.Base.{
  Bool, List, Option, String, [], ap, false, if◌then◌else◌, is_nonempty, none, refl, some, sym,
  true, ◌∙◌, ◌∷◌, ◌≡◌,
}
use ack_dms_controller.References.{
  ReferenceField, ReferenceTarget, at_most_one, clear_resolved_references,
}
use ack_dms_controller.References.Clearing.{clear_resolved_references-cons, kept}
use ack_dms_controller.References.Shapes.{Slot, nested, nested_all, scalar}
use ack_dms_controller.Resource.{ReferenceWrapper}

pub clear-nil : {S : Type 0} (s : S) → clear_resolved_references [] s ≡ s
unfolding clear_resolved_references
clear-nil s = refl

-- One field with one reference.
pub clear-scalar :
    {S : Type 0} (id_name ref_name : String) (is_required : Bool) (target : ReferenceTarget)
    (ref : S → Option ReferenceWrapper) (id : S → Option String) (set_id : Option String → S → S)
    (fs : List (ReferenceField S)) (s : S)
    → ((s : S) → set_id (id s) s ≡ s)
    → clear_resolved_references (scalar id_name ref_name is_required target ref id set_id ∷ fs) s
      ≡ clear_resolved_references fs (set_id (kept (ref s) (id s)) s)
clear-scalar id_name ref_name is_required target ref id set_id fs s same =
    clear_resolved_references-cons (scalar id_name ref_name is_required target ref id set_id) fs s _
      (erased (is_nonempty (at_most_one (ref s))))
  where
    erased : (b : Bool) → (if b then set_id none s else s) ≡ set_id (if b then none else id s) s
    erased true = refl
    erased false = sym (same s)

module _ {K S : Type 0} (slot : Slot K S)
    (get_set : (o : Option S) (ko : K) → slot.get (slot.set o ko) ≡ o)
    (set_set : (o p : Option S) (ko : K) → slot.set o (slot.set p ko) ≡ slot.set o ko)
    (set_get : (ko : K) → slot.set (slot.get ko) ko ≡ ko) where
  clear-none :
      (fs : List (ReferenceField S)) (rest : List (ReferenceField K)) (ko : K)
      → clear_resolved_references (nested_all slot fs rest) (slot.set none ko)
        ≡ clear_resolved_references rest (slot.set none ko)
  clear-none [] rest ko = refl
  clear-none (f ∷ fs) rest ko =
      clear_resolved_references-cons (nested slot f) (nested_all slot fs rest) (slot.set none ko)
        (slot.set none ko) (rw (get_set none ko) refl)
      ∙ clear-none fs rest ko

  clear-some :
      (fs : List (ReferenceField S)) (rest : List (ReferenceField K)) (s : S) (ko : K)
      → clear_resolved_references (nested_all slot fs rest) (slot.set (some s) ko)
        ≡ clear_resolved_references rest (slot.set (some (clear_resolved_references fs s)) ko)
  unfolding clear_resolved_references
  clear-some [] rest s ko = refl
  clear-some (f ∷ fs) rest s ko =
      let s' = if is_nonempty (f.refs s) then f.erase s else s in
      clear_resolved_references-cons (nested slot f) (nested_all slot fs rest)
        (slot.set (some s) ko) (slot.set (some s') ko)
        (rw (get_set (some s) ko) (erased (is_nonempty (f.refs s))))
      ∙ clear-some fs rest s' ko
    where
      erased :
          (b : Bool)
          → (if b then slot.set (some (f.erase s)) (slot.set (some s) ko) else slot.set (some s) ko)
            ≡ slot.set (some (if b then f.erase s else s)) ko
      erased true = set_set _ _ ko
      erased false = refl

  module _ (fs : List (ReferenceField S)) (strip : S → S)
      (same : (s : S) → clear_resolved_references fs s ≡ strip s) where
    clear-at :
        (o : Option S) (rest : List (ReferenceField K)) (ko : K)
        → clear_resolved_references (nested_all slot fs rest) (slot.set o ko)
          ≡ clear_resolved_references rest (slot.set (Option.map strip o) ko)
    clear-at none rest ko = clear-none fs rest ko
    clear-at (some s) rest ko =
        clear-some fs rest s ko
        ∙ ap (λ x. clear_resolved_references rest (slot.set (some x) ko)) (same s)

    -- The fields of one settings, with what clearing them amounts to.
    pub clear-slot :
        (rest : List (ReferenceField K)) (ko : K)
        → clear_resolved_references (nested_all slot fs rest) ko
          ≡ clear_resolved_references rest (slot.set (Option.map strip (slot.get ko)) ko)
    clear-slot rest ko =
        ap (clear_resolved_references (nested_all slot fs rest)) (sym (set_get ko))
        ∙ clear-at (slot.get ko) rest ko
