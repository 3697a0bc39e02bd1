-- ===== src/Numbers/Comparison.antt =====
-- What the comparisons make of two numbers.
use Prim.Native.Nat.{Ordering}
use libultrabus.Common.{
  ℕ, ◌≤◌, ◌<◌, ◌-◌, ◌≡◌, ◌↔◌, some, none, true, false, Bool, not, ◌||◌, ◌&&◌, arith, Bool-cases,
  inl, inr,
}
use libultrabus.Common.Int.{ℤ, pos, negsuc, compare_ℤ, is_negative, ==ℤ_iff}
use libultrabus.Numbers.{
  Kind, modulus, is_boolean, InRange, convert, is_boolean, modulus, order, equal, is_signed, common,
  ordered,
}
use libultrabus.Numbers.Conversion.{convert-fits}

-- Where two types are ordered, the common type holds the values of both.
left_fits : (k l : Kind) (x : ℤ) → ordered k l ≡ true → InRange k x → InRange (common k l) x
left_fits k l (pos n) o h = ground arith
left_fits k l (negsuc n) o h = ground arith

right_fits : (k l : Kind) (x : ℤ) → ordered k l ≡ true → InRange l x → InRange (common k l) x
right_fits k l (pos n) o h = ground arith
right_fits k l (negsuc n) o h = ground arith

order_known :
    (k l : Kind) (x y : ℤ)
    → ordered k l ≡ true
    → InRange k x
    → InRange l y
    → order k x l y ≡ some (compare_ℤ x y)
unfolding order
order_known k l x y e hx hy = rw (
  e,
  convert-fits (common k l) x (left_fits k l x e hx),
  convert-fits (common k l) y (right_fits k l y e hy),
)

order_unknown : (k l : Kind) (x y : ℤ) → ordered k l ≡ false → order k x l y ≡ none
unfolding order
order_unknown k l x y e = rw e

-- Wherever operator<=> between two of the integer types does not answer "unordered", its answer is
-- the order of the two numbers. Doubles are left out.
pub order-compare :
    (k l : Kind) (x y : ℤ) {o : Ordering}
    → InRange k x
    → InRange l y
    → order k x l y ≡ some o
    → compare_ℤ x y ≡ o
order-compare k l x y hx hy h = elim (Bool-cases (ordered k l)) [
  | inl e ↦ cc (order_known k l x y e hx hy)
  | inr e ↦ cc (order_unknown k l x y e)
]

-- A negative number meets a type without a sign that is at least as wide as int.
abbrev pub is_mixed : Kind → ℤ → Kind → ℤ → Bool
is_mixed k x l y = not (is_signed (common k l)) && (is_negative x || is_negative y)

common_fits :
    (k l : Kind) (x y : ℤ)
    → InRange k x
    → InRange l y
    → is_mixed k x l y ≡ false
    → InRange (common k l) x × InRange (common k l) y
common_fits k l (pos m) (pos n) hx hy h = (ground arith, ground arith)
common_fits k l (negsuc m) (pos n) hx hy h = (ground arith, ground arith)
common_fits k l (pos m) (negsuc n) hx hy h = (ground arith, ground arith)
common_fits k l (negsuc m) (negsuc n) hx hy h = (ground arith, ground arith)

-- Unless a negative number meets a type without a sign that is at least as wide as int, two numbers
-- are equal for operator== exactly when they are equal.
pub equal_iff :
    (k l : Kind) (x y : ℤ)
    → InRange k x
    → InRange l y
    → is_mixed k x l y ≡ false
    → (equal k x l y ≡ true) ↔ (x ≡ y)
unfolding equal
equal_iff k l x y hx hy h =
    let (p, q) = common_fits k l x y hx hy h in
    rw (convert-fits (common k l) x p, convert-fits (common k l) y q) (==ℤ_iff x y)

-- A negative int is equal to the unsigned number with the same bits.
pub equal_mixed :
    (n : ℕ) → n < 0x80000000 → equal Kind.i32 (negsuc n) Kind.u32 (pos (0xffffffff - n)) ≡ true
unfolding equal convert
equal_mixed n h = ground arith

one_sided :
    (k : Kind)
    → is_signed k ≡ false
    → is_boolean k ≡ false
    → modulus k ≤ 0x100000000
    → ordered k Kind.u64 ≡ false
one_sided k s b m = ground arith

other_sided :
    (k : Kind)
    → is_signed k ≡ false
    → is_boolean k ≡ false
    → modulus k ≤ 0x100000000
    → ordered Kind.u64 k ≡ true
other_sided k s b m = ground arith

unmixed :
    (k : Kind) (x y : ℤ)
    → is_signed k ≡ false
    → InRange k x
    → InRange Kind.u64 y
    → is_mixed k x Kind.u64 y ≡ false
unmixed k (pos m) (pos n) s hx hy = ground arith
unmixed k (negsuc m) y s hx hy = absurd (ground arith)
unmixed k x (negsuc n) s hx hy = absurd (ground arith)

-- A number of at most 32 bits without a sign is ordered against one of 64 bits only if the latter
-- stands on the left, although operator== answers for both.
pub order_one_sided :
    (k : Kind) (x y : ℤ)
    → is_signed k ≡ false
    → is_boolean k ≡ false
    → modulus k ≤ 0x100000000
    → InRange k x
    → InRange Kind.u64 y
    → (order k x Kind.u64 y ≡ none)
      × (order Kind.u64 y k x ≡ some (compare_ℤ y x))
      × ((equal k x Kind.u64 y ≡ true) ↔ (x ≡ y))
order_one_sided k x y s b m hx hy = (
  order_unknown k Kind.u64 x y (one_sided k s b m),
  order_known Kind.u64 k y x (other_sided k s b m) hy hx,
  equal_iff k Kind.u64 x y hx hy (unmixed k x y s hx hy),
)
