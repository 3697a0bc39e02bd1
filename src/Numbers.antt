-- ===== src/Numbers.antt =====
-- The integer types of lib/ultrabus/dbus_basic.hpp, and dbus_unix_fd of
-- lib/ultrabus/dbus_unix_fd.hpp: conversion when one is assigned to another, and the comparisons.
-- dbus_double itself is left out. The value of an integer is an element of ℤ; what C++ makes of it in
-- another type is written out.
pub mod Conversion
pub mod Comparison
use Prim.Native.Nat.{Ordering}
use libultrabus.Common.{
  ℕ, ◌+◌, ◌-◌, ◌%◌, Bool, true, false, ◌&&◌, ◌||◌, not, Option, none, some, ltb, ◌==◌,
  if◌then◌else◌,
}
use libultrabus.Common.Int.{ℤ, pos, negsuc, compare_ℤ, ◌==ℤ◌, Between}

-- The types of values, by their type codes.
pub data Kind : Type 0 where
  boolean byte i16 u16 i32 u32 i64 u64 unix_fd : Kind

-- 2 ^ w, for the w bits of `value_type`; unix_fd_t is int.
abbrev pub modulus : Kind → ℕ
modulus Kind.boolean = 2
modulus Kind.byte = 0x100
modulus Kind.i16 = 0x10000
modulus Kind.u16 = 0x10000
modulus Kind.i32 = 0x100000000
modulus Kind.u32 = 0x100000000
modulus Kind.i64 = 0x10000000000000000
modulus Kind.u64 = 0x10000000000000000
modulus Kind.unix_fd = 0x100000000

-- 2 ^ (w - 1)
abbrev pub half : Kind → ℕ
half Kind.boolean = 1
half Kind.byte = 0x80
half Kind.i16 = 0x8000
half Kind.u16 = 0x8000
half Kind.i32 = 0x80000000
half Kind.u32 = 0x80000000
half Kind.i64 = 0x8000000000000000
half Kind.u64 = 0x8000000000000000
half Kind.unix_fd = 0x80000000

abbrev pub is_signed : Kind → Bool
is_signed Kind.i16 = true
is_signed Kind.i32 = true
is_signed Kind.i64 = true
is_signed Kind.unix_fd = true
is_signed _ = false

-- What a `value_type` can hold.
abbrev pub InRange : Kind → ℤ → Type 0
InRange k v = if is_signed k then Between (half k) (half k) v else Between 0 (modulus k) v

-- The bits of `v`, cut to those of the type.
abbrev pub bits : ℕ → ℤ → ℕ
bits m (pos n) = n % m
bits m (negsuc n) = m - 1 - n % m

abbrev pub is_boolean : Kind → Bool
is_boolean Kind.boolean = true
is_boolean _ = false

-- The conversion of an integer to `value_type`.
unfoldable pub convert : Kind → ℤ → ℤ
convert k v =
    if is_boolean k
    then (if v ==ℤ pos 0 then pos 0 else pos 1)
    else (let u = bits (modulus k) v in
        if is_signed k && not (ltb u (half k)) then negsuc (modulus k - 1 - u) else pos u)

-- The right-hand side of an assignment: an integer, a double, given as what C++ makes of it in the
-- type of the left-hand side, a string, object path or signature, or a value that is not basic.
pub data Operand : Type 0 where
  number : Kind → ℤ → Operand
  real : (converted : ℤ) → Operand
  text container : Operand

abbrev pub is_fd : Kind → Bool
is_fd Kind.unix_fd = true
is_fd _ = false

-- operator= (const dbus_type&); `none` is std::invalid_argument. dbus_unix_fd has its own.
unfoldable pub assign : Kind → Operand → Option ℤ
unfolding convert
assign k (Operand.number l v) =
    if is_fd k then (if is_fd l then some v else none) else some (convert k v)
assign k (Operand.real converted) = if is_fd k then none else some converted
assign k Operand.text = none
assign k Operand.container = none

-- The usual arithmetic conversions of C++: the type in which two operands are compared.
abbrev pub promote : Kind → Kind
promote Kind.u32 = Kind.u32
promote Kind.i64 = Kind.i64
promote Kind.u64 = Kind.u64
promote _ = Kind.i32

abbrev pub join : Kind → Kind → Kind
join Kind.u64 l = Kind.u64
join k Kind.u64 = Kind.u64
join Kind.i64 l = Kind.i64
join k Kind.i64 = Kind.i64
join Kind.u32 l = Kind.u32
join k Kind.u32 = Kind.u32
join k l = Kind.i32

abbrev pub common : Kind → Kind → Kind
common k l = join (promote k) (promote l)

-- operator== (const dbus_type&), with an integer on the right
unfoldable pub equal : Kind → ℤ → Kind → ℤ → Bool
unfolding convert
equal k x l y = convert (common k l) x ==ℤ convert (common k l) y

-- Which pairs of types operator<=> leaves unordered, by the right-hand type.
abbrev pub ordered : Kind → Kind → Bool
ordered Kind.boolean Kind.boolean = true
ordered Kind.boolean l = false
ordered k Kind.boolean = false
ordered Kind.u64 Kind.i16 = false
ordered Kind.u32 Kind.i16 = false
ordered Kind.u64 Kind.i32 = false
ordered Kind.u32 Kind.i32 = false
ordered Kind.i16 Kind.u32 = false
ordered Kind.i32 Kind.u32 = false
ordered Kind.unix_fd Kind.u32 = false
ordered Kind.u64 Kind.i64 = false
ordered Kind.u64 Kind.u64 = true
ordered k Kind.u64 = false
ordered Kind.i32 Kind.unix_fd = true
ordered Kind.unix_fd Kind.unix_fd = true
ordered k Kind.unix_fd = false
ordered k l = true

-- operator<=> (const dbus_type&), with an integer on the right; `none` is std::partial_ordering::unordered.
unfoldable pub order : Kind → ℤ → Kind → ℤ → Option Ordering
unfolding convert
order k x l y =
    if ordered k l then some (compare_ℤ (convert (common k l) x) (convert (common k l) y)) else none
