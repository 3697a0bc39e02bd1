-- ===== src/Tests/Numbers.antt =====
-- The integer types at concrete inputs.
use Prim.Native.Nat.{Ordering}
use libultrabus.Common.{◌≡◌, refl, some, arith}
use libultrabus.Common.Int.{pos, negsuc, compare_ℤ}
use libultrabus.Numbers.{Kind, Operand, assign, order}
use libultrabus.Numbers.Comparison.{order-compare}

-- 300 in a byte is 44.
assigned : assign Kind.byte (Operand.number Kind.i32 (pos 300)) ≡ some (pos 44)
unfolding assign
assigned = refl

ordered_run : order Kind.i16 (negsuc 4) Kind.u16 (pos 3) ≡ some Ordering.lt
unfolding order
ordered_run = refl

order-compare_example : compare_ℤ (negsuc 4) (pos 3) ≡ Ordering.lt
order-compare_example =
    order-compare Kind.i16 Kind.u16 (negsuc 4) (pos 3) (omega arith) (omega arith) ordered_run
