-- ===== src/Numbers/Conversion.antt =====
-- What an assignment makes of a number.
use libultrabus.Common.{subst, true, some, Bool-cases, inl, inr, ◌≤◌, ◌≡◌, false, arith}
use libultrabus.Common.Int.{ℤ, pos, negsuc}
use libultrabus.Numbers.{Operand, assign, is_fd, Kind, modulus, is_boolean, InRange, convert}

-- Every conversion ends in the range of the type, whatever the number.
pub convert-InRange : (k : Kind) (v : ℤ) → InRange k (convert k v)
unfolding convert
convert-InRange Kind.boolean v = ground arith
convert-InRange k (pos n) = ground arith
convert-InRange k (negsuc n) = ground arith

-- A number that the type can hold is kept.
pub convert-fits : (k : Kind) (v : ℤ) → InRange k v → convert k v ≡ v
unfolding convert
convert-fits Kind.boolean (pos n) h = ground arith
convert-fits Kind.boolean (negsuc n) h = ground arith
convert-fits k (pos n) h = ground arith
convert-fits k (negsuc n) h = ground arith

-- A number that is assigned to a type of at least its width and back is unchanged, also where the
-- sign changes in between.
pub convert-convert :
    (k l : Kind) (v : ℤ)
    → InRange l v
    → modulus l ≤ modulus k
    → is_boolean k ≡ false
    → convert l (convert k v) ≡ v
unfolding convert
convert-convert k l (pos n) h w b = ground arith
convert-convert k l (negsuc n) h w b = ground arith

abbrev pub Holds : Kind → Operand → Type 0
Holds k (Operand.number l v) = InRange l v
Holds k (Operand.real converted) = InRange k converted
Holds k Operand.text = Unit {0}
Holds k Operand.container = Unit {0}

fd_kept :
    (k l : Kind) (u v : ℤ)
    → is_fd k ≡ true
    → InRange l u
    → assign k (Operand.number l u) ≡ some v
    → InRange k v
unfolding assign
fd_kept Kind.unix_fd Kind.unix_fd u v f h e =
    let same : u ≡ v = cc in subst (InRange Kind.unix_fd) same h
fd_kept k l u v f h e = absurd (ground arith)

-- Whatever is assigned, what operator= leaves behind lies in the range of its type.
pub assign-InRange :
    (k : Kind) (rhs : Operand) {v : ℤ} → Holds k rhs → assign k rhs ≡ some v → InRange k v
unfolding assign
assign-InRange k (Operand.number l u) {v} h e = elim (Bool-cases (is_fd k)) [
  | inl f ↦ fd_kept k l u v f h e
  | inr f ↦
      (let same : convert k u ≡ v = ground arith in subst (InRange k) same (convert-InRange k u))
]
assign-InRange k (Operand.real u) {v} h e = elim (Bool-cases (is_fd k)) [
  | inl f ↦ absurd (ground arith)
  | inr f ↦ (let same : u ≡ v = ground arith in subst (InRange k) same h)
]
assign-InRange k Operand.text h e = absurd (cc)
assign-InRange k Operand.container h e = absurd (cc)
