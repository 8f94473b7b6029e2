-- ===== src/Compare.antt =====
-- ackcompare of the ACK runtime: a `Delta` holds the paths at which two resources differ, and is
-- known by two questions. Parameters of the model.
pub mod Content
pub mod Fields
use ack_dms_controller.Base.{
  Bool, List, Option, String, [], false, if◌then◌else◌, none, not, some, starts_with, true, ◌||◌,
  ◌∷◌, ◌≡◌,
}

-- `delta.Add` is given the path alone: nothing here reads the two values that it also keeps.
pub record DeltaOps (D : Type 0) : Type 0 where
  pub new_delta : D
  pub add : D → String → D
  pub different_at : D → String → Bool
  pub different_except : D → List String → Bool

-- `path.Contains(subject)` for one of the subjects.
abbrev pub lies_below : (String → String → Bool) → String → List String → Bool
lies_below within path [] = false
lies_below within path (s ∷ ss) = within path s || lies_below within path ss

-- What the documentation of ackcompare says: the two questions go over the added paths, and a path
-- lies within itself, and within nothing that is not its prefix.
pub record DeltaLaws {D : Type 0} (ops : DeltaOps D) (within : String → String → Bool)
    : Type 0 where
  pub at_new : (p : String) → ops.different_at ops.new_delta p ≡ false
  pub at_add :
      (d : D) (path p : String)
      → ops.different_at (ops.add d path) p ≡ (within path p || ops.different_at d p)
  pub except_new : (ps : List String) → ops.different_except ops.new_delta ps ≡ false
  pub except_add :
      (d : D) (path : String) (ps : List String)
      → ops.different_except (ops.add d path) ps
        ≡ (not (lies_below within path ps) || ops.different_except d ps)
  pub within_self : (p : String) → within p p ≡ true
  pub within_prefix : (p s : String) → within p s ≡ true → starts_with p s ≡ true

-- The test of a field: `HasNilDifference`, or else unequal values where both are there.
abbrev pub differs : {A : Type 0} → Bool → (A → A → Bool) → Option A → Option A → Bool
differs nil_difference equal none b = nil_difference
differs nil_difference equal (some x) none = nil_difference
differs nil_difference equal (some x) (some y) = if nil_difference then true else not (equal x y)

-- `*x == *y` on two flags.
abbrev pub same_flag : Bool → Bool → Bool
same_flag true y = y
same_flag false y = not y

module _ {D : Type 0} (ops : DeltaOps D) where
  -- `if ... { delta.Add(path, ...) }`
  abbrev pub add_if : Bool → String → D → D
  add_if test path d = if test then ops.add d path else d

  unfoldable pub add_checks : List (String × Bool) → D → D
  add_checks [] d = d
  add_checks ((path, test) ∷ rest) d = add_checks rest (add_if test path d)
