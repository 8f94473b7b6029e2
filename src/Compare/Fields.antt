-- ===== src/Compare/Fields.antt =====
-- What the comparison of one field says, and which one a delta shows at the path of the field.
use ack_dms_controller.Base.{
  Bool, Bool-cases, List, Option, String, [], arith, eq_iff, false, if◌then◌else◌, inl, inr, none,
  not, or_default, refl, some, starts_with, subst, true, ◌&&◌, ◌==◌, ◌↔◌, ◌∷◌, ◌≡◌, ◌⊎◌,
}
use ack_dms_controller.Compare.{DeltaLaws, DeltaOps, differs}
use ack_dms_controller.Compare.Content.{any_within}

-- A field has changed: there is a nil difference, or two values that are not the same.
abbrev pub Changed : {A : Type 0} → Bool → (A → A → Type 0) → Option A → Option A → Type 0
Changed {A} nil_difference Same a b =
    (nil_difference ≡ true) ⊎ ((x : A) × (y : A) × (a ≡ some x) × (b ≡ some y) × ¬ Same x y)

pub differs-Changed :
    {A : Type 0} (nil_difference : Bool) (equal : A → A → Bool) (Same : A → A → Type 0)
    (a b : Option A)
    → ((x y : A) → (equal x y ≡ true) ↔ Same x y)
    → (differs nil_difference equal a b ≡ true) ↔ Changed nil_difference Same a b
differs-Changed nil_difference equal Same none b reads =
    (λ h. inl h, λ c. elim c [ inl h ↦ h | inr (x, y, e, _, _) ↦ absurd (cc e) ])
differs-Changed nil_difference equal Same (some x) none reads =
    (λ h. inl h, λ c. elim c [ inl h ↦ h | inr (_, y, _, e, _) ↦ absurd (cc e) ])
differs-Changed true equal Same (some x) (some y) reads = (λ h. inl refl, λ _. refl)
differs-Changed false equal Same (some x) (some y) reads = (
  λ h. inr (x, y, refl, refl, λ same. ground (arith, h, (reads x y).1 same)),
  λ c. elim c [
    | inl h ↦ absurd (cc h)
    | inr (u, v, ex, ey, unlike) ↦ elim (Bool-cases (equal x y)) [
      | inl alike ↦ absurd (
          unlike (
            subst (λ o. Same (or_default o x) v) ex
              (subst (λ o. Same x (or_default o y)) ey ((reads x y).0 alike))))
      | inr unequal ↦ rw unequal refl
    ]
  ],
)

-- No path starts with `p`.
abbrev all_apart : String → List (String × Bool) → Bool
all_apart p [] = true
all_apart p ((path, test) ∷ rest) = not (starts_with path p) && all_apart p rest

-- The result of the comparison at the path.
abbrev pub test_at : String → List (String × Bool) → Bool
test_at p [] = false
test_at p ((path, test) ∷ rest) = if path == p then test else test_at p rest

-- At most one path starts with `p`, and this is `p` itself.
abbrev pub is_sole : String → List (String × Bool) → Bool
is_sole p [] = true
is_sole p ((path, test) ∷ rest) =
    if path == p then all_apart p rest else not (starts_with path p) && is_sole p rest

module _ {D : Type 0} (ops : DeltaOps D) (within : String → String → Bool)
    (laws : DeltaLaws ops within) where
  pub within_apart : (path p : String) → starts_with path p ≡ false → within path p ≡ false
  within_apart path p h = ground (arith, laws.within_prefix path p)

  any_within-apart :
      (p : String) (checks : List (String × Bool))
      → all_apart p checks ≡ true
      → any_within within p checks ≡ false
  any_within-apart p [] h = refl
  any_within-apart p ((path, test) ∷ rest) h =
      ground (arith, h, within_apart path p, any_within-apart p rest)

  pub any_within-test_at :
      (p : String) (checks : List (String × Bool))
      → is_sole p checks ≡ true
      → any_within within p checks ≡ test_at p checks
  any_within-test_at p [] h = refl
  any_within-test_at p ((path, test) ∷ rest) h = elim (Bool-cases (path == p)) [
    | inl here ↦
        let hit : within path p ≡ true =
          subst (λ q. within path q ≡ true) ((eq_iff path p).0 here) (laws.within_self path) in
        let miss = any_within-apart p rest (rw here at h) in ground (arith, here, hit, miss)
    | inr elsewhere ↦ ground (arith, h, elsewhere, within_apart path p, any_within-test_at p rest)
  ]
