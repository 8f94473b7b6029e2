-- ===== src/Base/Segments.antt =====
-- Texts that a slash separates.
use Prim.Native.Char.{code}
use Prim.Native.Nat.{Ordering, compare}
use Prim.Native.String.{String, [], ◌∷◌, ◌++◌}
use mathlib.Core.Path.{◌≡◌, ap, refl, ◌∙◌}
use mathlib.Core.Bool.{Bool, false, true}
use mathlib.Core.List.{[], ◌∷◌}
use native.Mathlib.Omega.{arith}
use ack_dms_controller.Base.Lists.{concat}
use text.Mathlib.TextLemmas.{
  append-nil, cons-append, head-eq_of_cons-eq, nil-append, tail-eq_of_cons-eq,
}

-- A text without a slash, as account ids and the names of regions are.
unfoldable pub is_segment : String → Bool
is_segment [] = true
is_segment (c ∷ s) =
    let rest = is_segment s in elim (compare (code c) 47) [ Ordering.eq ↦ false | _ ↦ rest ]

slash-append : (s : String) → "/" ++ s ≡ "/" ∷ s
slash-append s = cons-append "/" "" s ∙ ap (λ t. "/" ∷ t) (nil-append s)

-- What stands before the first slash, and what stands behind it.
segments-agree :
    (a b s t : String)
    → is_segment a ≡ true
    → is_segment b ≡ true
    → a ++ ("/" ++ s) ≡ b ++ ("/" ++ t)
    → (a ≡ b) × (s ≡ t)
unfolding is_segment
segments-agree [] [] s t ha hb e = (
  refl,
  tail-eq_of_cons-eq
      (rw (nil-append (("/" ++ s)), nil-append (("/" ++ t)), slash-append s, slash-append t) at e),
)
segments-agree [] (c ∷ b) s t ha hb e = absurd (
    ground (
      arith,
      ap code (head-eq_of_cons-eq (rw (nil-append ("/" ++ s), slash-append s, cons-append) at e)),
    ))
segments-agree (c ∷ a) [] s t ha hb e = absurd (
    ground (
      arith,
      ap code (head-eq_of_cons-eq (rw (nil-append ("/" ++ t), slash-append t, cons-append) at e)),
    ))
segments-agree (c ∷ a) (d ∷ b) s t ha hb e =
    let e' = rw (cons-append c a, cons-append d b) at e in
    let (same, rest) =
      segments-agree a b s t (ground arith) (ground arith) (tail-eq_of_cons-eq e') in
    (cc (head-eq_of_cons-eq e', same), rest)

pub concat-agree :
    (a b s t c d : String)
    → is_segment a ≡ true
    → is_segment b ≡ true
    → is_segment s ≡ true
    → is_segment t ≡ true
    → concat (a ∷ "/" ∷ s ∷ "/" ∷ c ∷ []) ≡ concat (b ∷ "/" ∷ t ∷ "/" ∷ d ∷ [])
    → (a ≡ b) × (s ≡ t) × (c ≡ d)
unfolding concat
concat-agree a b s t c d ha hb hs ht e =
    let (first, rest) = segments-agree a b _ _ ha hb e in
    let (second, last) = segments-agree s t _ _ hs ht rest in
    (first, second, rw (append-nil c, append-nil d) at last)
