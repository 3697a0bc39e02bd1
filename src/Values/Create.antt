-- ===== src/Values/Create.antt =====
-- create_dbus_type, create_dbus_dict and create_dbus_basic: lib/ultrabus/utils.cpp,
-- lib/ultrabus/dbus_dict.cpp and lib/ultrabus/dbus_basic.cpp, and the constructor of dbus_struct
-- with a signature, lib/ultrabus/dbus_struct.cpp. The fuel bounds the depth of structs in structs.
pub mod Complete
use libultrabus.Common.{
  ℕ, zero, suc, Bool, true, false, not, List, [], ◌∷◌, ◌++◌, Option, none, some, ◌==◌, ◌||◌,
  if◌then◌else◌, drop_char,
}
use libultrabus.Common.Int.{pos, negsuc}
use libultrabus.Numbers.{Kind}
use libultrabus.Values.{
  Text, Basic, Value, Values, Entries, Result, ok, throw, Exception, Libdbus, char_at,
}
use libultrabus.Values.Arrays.{new_array, rest}
use libultrabus.Values.Arrays as Arrays

-- A unique_ptr that is null or not, an exception, or the end of the fuel.
pub data Made : Type 0 where
  made : Value → Made
  null : Made
  thrown : Exception → Made
  out_of_fuel : Made

-- The value of the default constructor, for each type code of a basic type.
abbrev pub default_basic : ℕ → Option Basic
default_basic c =
    if c == b'b'
    then some (Basic.number Kind.boolean (pos 0))
    else if c == b'y'
    then some (Basic.number Kind.byte (pos 0))
    else if c == b'n'
    then some (Basic.number Kind.i16 (pos 0))
    else if c == b'q'
    then some (Basic.number Kind.u16 (pos 0))
    else if c == b'i'
    then some (Basic.number Kind.i32 (pos 0))
    else if c == b'u'
    then some (Basic.number Kind.u32 (pos 0))
    else if c == b'x'
    then some (Basic.number Kind.i64 (pos 0))
    else if c == b't'
    then some (Basic.number Kind.u64 (pos 0))
    else if c == b'd'
    then some (Basic.real 0)
    else if c == b's'
    then some (Basic.text Text.string [])
    else if c == b'o'
    then some (Basic.text Text.opath (b'/' ∷ []))
    else if c == b'g'
    then some (Basic.text Text.type_signature [])
    else if c == b'h'
    then some (Basic.number Kind.unix_fd (negsuc 0))
    else none

abbrev pub pointer : Option Basic → Made
pointer none = Made.null
pointer (some b) = Made.made (Value.basic b)

-- create_dbus_basic
unfoldable pub create_basic : ℕ → Made
create_basic c = pointer (default_basic c)

-- A dict for a class of keys that there is.
abbrev pub dict_for : Option Basic → ℕ → List ℕ → Made
dict_for none key_code value_sig = Made.null
dict_for (some b) key_code value_sig =
    Made.made (Value.dict (b'a' ∷ b'{' ∷ key_code ∷ (value_sig ++ b'}' ∷ [])) Entries.end)

-- create_dbus_dict; the constructor of dbus_dict validates the signature once more.
unfoldable pub create_dict : Libdbus → ℕ → List ℕ → Made
create_dict lib key_code value_sig =
    if lib.valid_single value_sig
    then dict_for (default_basic key_code) key_code value_sig
    else Made.null

abbrev pub array_made : Result Arrays.Array → Made
array_made (ok a) = Made.made (Arrays.freeze a)
array_made (throw e) = Made.thrown e

-- The attributes of a struct, or what its constructor ends with.
pub data Attributes : Type 0 where
  all : Values → Attributes
  fails : Made → Attributes

abbrev pub attribute : Made → Attributes → Attributes
attribute (Made.made v) (all xs) = all (Values.cons v xs)
attribute (Made.made v) (fails m) = fails m
attribute Made.null r = fails (Made.thrown Exception.invalid_argument)
attribute (Made.thrown e) r = fails (Made.thrown e)
attribute Made.out_of_fuel r = fails Made.out_of_fuel

-- The loop of the constructor of dbus_struct.
abbrev pub make_attributes : (List ℕ → Made) → List (List ℕ) → Attributes
make_attributes create [] = all Values.nil
make_attributes create (p ∷ ps) = attribute (create p) (make_attributes create ps)

abbrev pub with_attributes : List ℕ → Attributes → Made
with_attributes sig (all xs) = Made.made (Value.struct sig xs)
with_attributes sig (fails m) = m

abbrev pub is_empty : List ℕ → Bool
is_empty [] = true
is_empty (c ∷ cs) = false

-- dbus_struct (const std::string&)
unfoldable pub struct_made : Libdbus → (List ℕ → Made) → List ℕ → Made
struct_made lib create attributes =
    if is_empty attributes || not (lib.valid_signature (b'(' ∷ (attributes ++ b')' ∷ [])))
    then Made.thrown Exception.invalid_argument
    else with_attributes (b'(' ∷ (attributes ++ b')' ∷ []))
        (make_attributes create (lib.parts attributes))

-- The text from the fourth character on, without the last one.
abbrev pub entry_value : List ℕ → List ℕ
entry_value (a ∷ b ∷ k ∷ s) = drop_char s
entry_value s = []

-- create_dbus_type, given what makes the attributes of a struct.
unfoldable pub create_by : Libdbus → (List ℕ → Made) → List ℕ → Made
unfolding create_basic create_dict struct_made new_array
create_by lib create sig =
    if is_empty sig || not (lib.valid_single sig)
    then Made.null
    else if char_at sig 0 == b'a'
    then (if char_at sig 1 == b'{'
        then create_dict lib (char_at sig 2) (entry_value sig)
        else array_made (new_array lib (rest sig)))
    else if char_at sig 0 == b'('
    then struct_made lib create (drop_char (rest sig))
    else if char_at sig 0 == b'v'
    then Made.made (Value.variant (Value.basic (Basic.number Kind.i32 (pos 0))))
    else create_basic (char_at sig 0)

unfoldable pub create : Libdbus → ℕ → List ℕ → Made
unfolding create_by
create lib zero sig = Made.out_of_fuel
create lib (suc fuel) sig = create_by lib (create lib fuel) sig
