-- ===== src/Tests/Comparisons.antt =====
-- Comparisons of values at concrete inputs.
use Prim.Native.Nat.{compare, Ordering}
use libultrabus.Common.{ℕ, true, false, none, some, ◌≡◌, refl, ◌==◌, codes, same, arith}
use libultrabus.Common.Int.{pos}
use libultrabus.Numbers.{Kind}
use libultrabus.Values.{Text, Basic, Value, Values, Entries, ok, throw, Exception}
use libultrabus.Values.Compare.{Reals, equal_values, order_values}
use libultrabus.Values.Compare.Consistent.{Agree, order_values-equal_values}
use libultrabus.Values.Compare.Symmetric.{equal_values_comm}

-- Doubles of which none is a NaN, and which are not compared with integers.
abbrev pub reals : Reals
reals = record {
  equal_real = λ r q. r == q;
  equal_mixed = λ x r. false;
  order_real = λ r q. some (compare r q);
  order_mixed = λ x r. none;
}

reals_agree : (r q : ℕ) → reals.order_real r q ≡ some Ordering.eq → reals.equal_real r q ≡ true
reals_agree r q h = ground arith

reals-Agree : Agree reals
reals-Agree = record { real_agree = reals_agree; mixed_agree = λ x r h. absurd (cc h) }

reals_comm : (r q : ℕ) → reals.equal_real r q ≡ reals.equal_real q r
reals_comm r q = ground arith

abbrev pair : ℕ → Value
pair n = Value.struct (codes "(is)") (
    Values.cons (Value.basic (Basic.number Kind.i32 (pos n)))
      (Values.cons (Value.basic (Basic.text Text.string (codes "x"))) Values.nil))

-- A struct against a variant that holds one like it.
equivalent : order_values reals (pair 7) (Value.variant (pair 7)) ≡ ok (some Ordering.eq)
unfolding order_values same
equivalent = refl

less_run : order_values reals (pair 7) (pair 8) ≡ ok (some Ordering.lt)
unfolding order_values same
less_run = refl

order_values-equal_values_example : equal_values reals (pair 7) (Value.variant (pair 7)) ≡ ok true
order_values-equal_values_example =
    order_values-equal_values reals reals-Agree (pair 7) (Value.variant (pair 7)) equivalent

-- Dicts with keys of different classes.
mismatch :
    equal_values reals
      (Value.dict (codes "a{si}") Entries.end)
      (Value.dict (codes "a{ii}") Entries.end)
    ≡ throw Exception.bad_cast
unfolding equal_values
mismatch = refl

equal_values_comm_example :
    equal_values reals (pair 7) (Value.variant (pair 8))
    ≡ equal_values reals (Value.variant (pair 8)) (pair 7)
equal_values_comm_example = equal_values_comm reals (pair 7) (Value.variant (pair 8)) reals_comm
