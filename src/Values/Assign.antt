-- ===== src/Values/Assign.antt =====
-- operator= (const dbus_type&) of each class: dbus_basic.hpp, dbus_unix_fd.hpp, dbus_string.hpp,
-- dbus_opath.hpp, dbus_signature.hpp, dbus_array.hpp, dbus_struct.hpp, dbus_dict.hpp and
-- dbus_variant.hpp in lib/ultrabus. A double is converted by what C++ does.
pub mod Outcome
pub mod Copy
use libultrabus.Common.{
  subst, ℕ, Bool, true, false, List, [], ◌∷◌, ◌≡◌, refl, Option, none, some, ◌==◌, if◌then◌else◌,
  Bool-cases, inl, inr, Option-cases,
}
use libultrabus.Common.Int.{ℤ}
use libultrabus.Numbers.{Kind, Operand, InRange, is_fd}
use libultrabus.Numbers as Numbers
use libultrabus.Numbers.Conversion.{assign-InRange}
use libultrabus.Values.{
  ok_inj, Text, Basic, Value, Values, Entries, Result, ok, throw, Exception, Libdbus, signature,
  is_variant, char_at, code_of_text,
}
use libultrabus.Values.Typed.{IsTyped}

-- The conversions of C++ between a double and an integer type.
pub record Doubles : Type 0 where
  pub of_integer : ℤ → ℕ
  pub to_integer : Kind → ℕ → ℤ

-- dbus_variant (const dbus_type&), and what its assignment keeps.
abbrev pub unwrapped : Value → Value
unwrapped (Value.variant w) = w
unwrapped v = v

abbrev pub taken : Kind → Option ℤ → Result Value
taken k none = throw Exception.invalid_argument
taken k (some v) = ok (Value.basic (Basic.number k v))

abbrev pub assign_number : Doubles → Kind → Value → Result Value
assign_number d k (Value.basic (Basic.number l v)) = taken k (Numbers.assign k (Operand.number l v))
assign_number d k (Value.basic (Basic.real r)) =
    if is_fd k
    then throw Exception.invalid_argument
    else ok (Value.basic (Basic.number k (d.to_integer k r)))
assign_number d k (Value.basic (Basic.text t s)) = taken k (Numbers.assign k Operand.text)
assign_number d k rhs = taken k (Numbers.assign k Operand.container)

abbrev pub assign_real : Doubles → Value → Result Value
assign_real d (Value.basic (Basic.number l v)) = ok (Value.basic (Basic.real (d.of_integer v)))
assign_real d (Value.basic (Basic.real r)) = ok (Value.basic (Basic.real r))
assign_real d rhs = throw Exception.invalid_argument

abbrev pub assign_text : Text → Value → Result Value
assign_text t (Value.basic (Basic.text u s)) =
    if code_of_text t == code_of_text u
    then ok (Value.basic (Basic.text t s))
    else throw Exception.invalid_argument
assign_text t rhs = throw Exception.invalid_argument

abbrev pub assign_array : Value → Result Value
assign_array (Value.array s xs) = ok (Value.array s xs)
assign_array rhs = throw Exception.invalid_argument

abbrev pub assign_struct : Value → Result Value
assign_struct (Value.struct s xs) = ok (Value.struct s xs)
assign_struct rhs = throw Exception.invalid_argument

-- The dynamic_cast fails where the keys are of another class.
abbrev pub assign_dict : List ℕ → Value → Result Value
assign_dict sig (Value.dict s es) =
    if char_at sig 2 == char_at s 2 then ok (Value.dict s es) else throw Exception.bad_cast
assign_dict sig rhs = throw Exception.invalid_argument

unfoldable pub assign : Doubles → Value → Value → Result Value
unfolding Numbers.assign
assign d (Value.basic (Basic.number k v)) rhs = assign_number d k rhs
assign d (Value.basic (Basic.real r)) rhs = assign_real d rhs
assign d (Value.basic (Basic.text t s)) rhs = assign_text t rhs
assign d (Value.array s xs) rhs = assign_array rhs
assign d (Value.struct s xs) rhs = assign_struct rhs
assign d (Value.dict s es) rhs = assign_dict s rhs
assign d (Value.variant v) rhs = ok (Value.variant (unwrapped rhs))

-- What an assignment leaves: a basic value keeps its type, a container is a copy of the other, and a
-- variant holds the other value, or what the other variant holds.
abbrev pub Leaves : Value → Value → Value → Type 0
Leaves (Value.basic b) rhs v = signature v ≡ signature (Value.basic b)
Leaves (Value.variant w) rhs v = v ≡ Value.variant (unwrapped rhs)
Leaves lhs rhs v = v ≡ rhs
