-- ===== src/Integer.antt =====
-- Go's signed integers, and the conversion from int64 to int32 with its overflow check.
use Prim.Native.Nat.{compare, Ordering, ◌-◌, ◌%◌, ◌^◌}
use ack_dms_controller.Base.{Bool, arith, false, if◌then◌else◌, true, ℕ, ◌≡◌}

abbrev pub ltb : ℕ → ℕ → Bool
ltb a b = elim (compare a b) [ Ordering.lt ↦ true | _ ↦ false ]

abbrev pub leb : ℕ → ℕ → Bool
leb a b = elim (compare a b) [ Ordering.gt ↦ false | _ ↦ true ]

-- `negsuc n` is -(n + 1).
pub data ℤ : Type 0 where
  pos : ℕ → ℤ
  negsuc : ℕ → ℤ

abbrev pub same_number : ℕ → ℕ → Bool
same_number a b = elim (compare a b) [ Ordering.eq ↦ true | _ ↦ false ]

-- `a == b` on two integers.
abbrev pub same_int : ℤ → ℤ → Bool
same_int (pos a) (pos b) = same_number a b
same_int (pos a) (negsuc b) = false
same_int (negsuc a) (pos b) = false
same_int (negsuc a) (negsuc b) = same_number a b

-- `math.MaxInt32`; `math.MinInt32` is `negsuc max_int32`.
abbrev pub max_int32 : ℕ
max_int32 = 2 ^ 31 - 1

-- `x > math.MaxInt32 || x < math.MinInt32`
unfoldable pub overflows_int32 : ℤ → Bool
overflows_int32 (pos n) = ltb max_int32 n
overflows_int32 (negsuc n) = ltb max_int32 n

-- The number for which the lower 32 bits stand.
abbrev pub from_bits : ℕ → ℤ
from_bits w = if ltb w (2 ^ 31) then pos w else negsuc (2 ^ 32 - 1 - w)

-- `int32(x)`, which keeps the lower 32 bits.
unfoldable pub to_int32 : ℤ → ℤ
to_int32 (pos n) = from_bits (n % 2 ^ 32)
to_int32 (negsuc n) = from_bits (2 ^ 32 - 1 - n % 2 ^ 32)

-- Where the check lets an integer through, the conversion changes nothing.
pub to_int32-fits : (x : ℤ) → overflows_int32 x ≡ false → to_int32 x ≡ x
unfolding to_int32 overflows_int32
to_int32-fits (pos n) h = ground arith
to_int32-fits (negsuc n) h = ground arith

pub eq_of_same_number : (a b : ℕ) → same_number a b ≡ true → a ≡ b
eq_of_same_number a b h = ground arith
