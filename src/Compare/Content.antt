-- ===== src/Compare/Content.antt =====
-- What a delta holds after a run of comparisons.
-- No comparison found a difference.
use ack_dms_controller.Base.{
  All, Bool, List, String, [], arith, false, not, refl, true, ◌&&◌, ◌||◌, ◌∷◌, ◌≡◌,
}
use ack_dms_controller.Compare.{DeltaLaws, DeltaOps, add_checks, add_if, lies_below}

abbrev pub Agree : List (String × Bool) → Type 0
Agree checks = All (λ c. c.1 ≡ false) checks

module _ (within : String → String → Bool) where
  -- Some comparison found a difference at a path that lies within `p`.
  abbrev pub any_within : String → List (String × Bool) → Bool
  any_within p [] = false
  any_within p ((path, test) ∷ rest) = (test && within path p) || any_within p rest

  -- Some comparison found a difference at a path that lies within none of `ps`.
  abbrev pub any_outside : List String → List (String × Bool) → Bool
  any_outside ps [] = false
  any_outside ps ((path, test) ∷ rest) =
      (test && not (lies_below within path ps)) || any_outside ps rest

module _ {D : Type 0} (ops : DeltaOps D) (within : String → String → Bool)
    (laws : DeltaLaws ops within) where
  pub different_at-add_checks :
      (p : String) (checks : List (String × Bool)) (d : D)
      → ops.different_at (add_checks ops checks d) p
        ≡ (any_within within p checks || ops.different_at d p)
  unfolding add_checks
  different_at-add_checks p [] d = refl
  different_at-add_checks p ((path, true) ∷ rest) d =
      ground (arith, different_at-add_checks p rest (ops.add d path), laws.at_add d path p)
  different_at-add_checks p ((path, false) ∷ rest) d =
      ground (arith, different_at-add_checks p rest d)

  pub different_except-add_checks :
      (ps : List String) (checks : List (String × Bool)) (d : D)
      → ops.different_except (add_checks ops checks d) ps
        ≡ (any_outside within ps checks || ops.different_except d ps)
  unfolding add_checks
  different_except-add_checks ps [] d = refl
  different_except-add_checks ps ((path, true) ∷ rest) d =
      ground
        (arith, different_except-add_checks ps rest (ops.add d path), laws.except_add d path ps)
  different_except-add_checks ps ((path, false) ∷ rest) d =
      ground (arith, different_except-add_checks ps rest d)

  pub different_at-add_if :
      (p path : String) (test : Bool) (d : D)
      → within path p ≡ false
      → ops.different_at (add_if ops test path d) p ≡ ops.different_at d p
  different_at-add_if p path true d h = ground (arith, laws.at_add d path p)
  different_at-add_if p path false d h = refl

  pub add_checks-Agree :
      (checks : List (String × Bool)) (d : D) → Agree checks → add_checks ops checks d ≡ d
  unfolding add_checks
  add_checks-Agree [] d h = refl
  add_checks-Agree ((path, test) ∷ rest) d h = rw h.0 (add_checks-Agree rest d h.1)
