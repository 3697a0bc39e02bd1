-- ===== src/Values/Compare.antt =====
-- operator== and operator<=> between any two values: the functions with a dbus_type on the right in
-- dbus_basic.hpp, dbus_string.hpp, dbus_array.hpp and .cpp, dbus_struct.hpp and .cpp, dbus_dict.hpp
-- and dbus_variant.hpp of lib/ultrabus. Two values are two objects: the test for one and the same
-- object is left out.
pub mod Reflexive
pub mod Consistent
pub mod Symmetric
use Prim.Native.Nat.{Ordering}
use libultrabus.Common.{
  ℕ, suc, Bool, true, false, not, ◌||◌, List, Option, none, some, ◌==◌, if◌then◌else◌, same,
}
use libultrabus.Common.Int.{ℤ}
use libultrabus.Numbers.{Kind, is_boolean, is_fd, equal, order}
use libultrabus.Values.{Basic, Value, Values, Entries, Result, ok, throw, Exception, char_at}
use libultrabus.Values.Assign.{unwrapped}
use libultrabus.Values.Dicts.Keys.{less_text}

-- The comparisons of C++ between doubles, and between an integer and a double.
pub record Reals : Type 0 where
  pub equal_real : ℕ → ℕ → Bool
  pub equal_mixed : ℤ → ℕ → Bool
  pub order_real : ℕ → ℕ → Option Ordering
  pub order_mixed : ℤ → ℕ → Option Ordering

abbrev pub flip : Option Ordering → Option Ordering
flip none = none
flip (some Ordering.lt) = some Ordering.gt
flip (some Ordering.eq) = some Ordering.eq
flip (some Ordering.gt) = some Ordering.lt

-- std::string's operator<=>
abbrev pub order_text : List ℕ → List ℕ → Ordering
unfolding less_text
order_text s t =
    if same s t then Ordering.eq else if less_text s t then Ordering.lt else Ordering.gt

-- What stands under variants: a comparison with a variant compares with what it holds.
abbrev pub strip : Value → Value
strip (Value.variant w) = strip w
strip v = v

abbrev pub size : Values → ℕ
size Values.nil = 0
size (Values.cons x xs) = suc (size xs)

-- `if (! (*lhs_i == *rhs_i)) return false;`, and the rest of the loop.
abbrev pub and_then : Result Bool → Result Bool → Result Bool
and_then (ok true) r = r
and_then (ok false) r = ok false
and_then (throw e) r = throw e

-- `if (res != equivalent) return res;`, and the rest of the loop.
abbrev pub or_else : Result (Option Ordering) → Result (Option Ordering) → Result (Option Ordering)
or_else (ok (some Ordering.eq)) r = r
or_else (ok o) r = ok o
or_else (throw e) r = throw e

module _ (c : Reals) where
  unfoldable pub equal_basic : Basic → Basic → Bool
  unfolding equal
  equal_basic (Basic.number k x) (Basic.number l y) = equal k x l y
  equal_basic (Basic.number k x) (Basic.real r) = c.equal_mixed x r
  equal_basic (Basic.real r) (Basic.number l y) = c.equal_mixed y r
  equal_basic (Basic.real r) (Basic.real q) = c.equal_real r q
  equal_basic (Basic.text t s) (Basic.text u r) = same s r
  equal_basic a b = false

  unfoldable pub order_basic : Basic → Basic → Option Ordering
  unfolding order order_text
  order_basic (Basic.number k x) (Basic.number l y) = order k x l y
  order_basic (Basic.number k x) (Basic.real r) = if is_boolean k then none else c.order_mixed x r
  order_basic (Basic.real r) (Basic.number l y) =
      if is_boolean l || is_fd l then none else flip (c.order_mixed y r)
  order_basic (Basic.real r) (Basic.real q) = c.order_real r q
  order_basic (Basic.text t s) (Basic.text u r) = some (order_text s r)
  order_basic a b = none

  -- Each class against what stands under variants on the right; the members of the left-hand side
  -- are given as the loop over them.
  abbrev pub against_basic : Basic → Value → Result Bool
  unfolding equal_basic
  against_basic a (Value.basic b) = ok (equal_basic a b)
  against_basic a v = ok false

  abbrev pub against_array : List ℕ → ℕ → (Values → Result Bool) → Value → Result Bool
  against_array s n loop (Value.array r ys) =
      if not (same s r) || not (n == size ys) then ok false else loop ys
  against_array s n loop v = ok false

  abbrev pub against_struct : List ℕ → ℕ → (Values → Result Bool) → Value → Result Bool
  against_struct s n loop (Value.struct r ys) =
      if not (same s r) || not (n == size ys) then ok false else loop ys
  against_struct s n loop v = ok false

  -- The cast to a dict with keys of the same class throws for another.
  abbrev pub against_dict : List ℕ → (Entries → Result Bool) → Value → Result Bool
  against_dict s loop (Value.dict r fs) =
      if not (char_at s 2 == char_at r 2)
      then throw Exception.bad_cast
      else if not (same s r)
      then ok false
      else loop fs
  against_dict s loop v = ok false

  -- operator==
  unfoldable mutual
    unfolding equal_basic

    pub equal_values : Value → Value → Result Bool
    equal_values (Value.basic b) rhs = against_basic b (strip rhs)
    equal_values (Value.array s xs) rhs = against_array s (size xs) (equal_members xs) (strip rhs)
    equal_values (Value.struct s xs) rhs = against_struct s (size xs) (equal_members xs) (strip rhs)
    equal_values (Value.dict s es) rhs = against_dict s (equal_entries es) (strip rhs)
    equal_values (Value.variant v) rhs = equal_values v (unwrapped rhs)

    pub equal_members : Values → Values → Result Bool
    equal_members Values.nil ys = ok true
    equal_members (Values.cons x xs) Values.nil = ok true
    equal_members (Values.cons x xs) (Values.cons y ys) =
        and_then (equal_values x y) (equal_members xs ys)

    pub equal_entries : Entries → Entries → Result Bool
    equal_entries Entries.end Entries.end = ok true
    equal_entries Entries.end (Entries.entry j w fs) = ok false
    equal_entries (Entries.entry k v es) Entries.end = ok false
    equal_entries (Entries.entry k v es) (Entries.entry j w fs) =
        and_then (ok (equal_basic k j)) (and_then (equal_values v w) (equal_entries es fs))

  abbrev pub order_against_basic : Basic → Value → Result (Option Ordering)
  unfolding order_basic
  order_against_basic a (Value.basic b) = ok (order_basic a b)
  order_against_basic a v = ok none

  abbrev pub order_against_array :
      List ℕ → (Values → Result (Option Ordering)) → Value → Result (Option Ordering)
  order_against_array s loop (Value.array r ys) = if not (same s r) then ok none else loop ys
  order_against_array s loop v = ok none

  abbrev pub order_against_struct :
      List ℕ → ℕ → (Values → Result (Option Ordering)) → Value → Result (Option Ordering)
  order_against_struct s n loop (Value.struct r ys) =
      if not (same s r) || not (n == size ys) then ok none else loop ys
  order_against_struct s n loop v = ok none

  abbrev pub order_against_dict :
      List ℕ → (Entries → Result (Option Ordering)) → Value → Result (Option Ordering)
  order_against_dict s loop (Value.dict r fs) =
      if not (char_at s 2 == char_at r 2)
      then throw Exception.bad_cast
      else if not (same s r)
      then ok none
      else loop fs
  order_against_dict s loop v = ok none

  -- operator<=>
  unfoldable mutual
    unfolding order_basic

    pub order_values : Value → Value → Result (Option Ordering)
    order_values (Value.basic b) rhs = order_against_basic b (strip rhs)
    order_values (Value.array s xs) rhs = order_against_array s (order_members xs) (strip rhs)
    order_values (Value.struct s xs) rhs =
        order_against_struct s (size xs) (order_members xs) (strip rhs)
    order_values (Value.dict s es) rhs = order_against_dict s (order_entries es) (strip rhs)
    order_values (Value.variant v) rhs = order_values v (unwrapped rhs)

    pub order_members : Values → Values → Result (Option Ordering)
    order_members Values.nil Values.nil = ok (some Ordering.eq)
    order_members Values.nil (Values.cons y ys) = ok (some Ordering.lt)
    order_members (Values.cons x xs) Values.nil = ok (some Ordering.gt)
    order_members (Values.cons x xs) (Values.cons y ys) =
        or_else (order_values x y) (order_members xs ys)

    pub order_entries : Entries → Entries → Result (Option Ordering)
    order_entries Entries.end Entries.end = ok (some Ordering.eq)
    order_entries Entries.end (Entries.entry j w fs) = ok (some Ordering.lt)
    order_entries (Entries.entry k v es) Entries.end = ok (some Ordering.gt)
    order_entries (Entries.entry k v es) (Entries.entry j w fs) =
        or_else (ok (order_basic k j)) (or_else (order_values v w) (order_entries es fs))
