-- ===== src/Messages/Reading.antt =====
-- The arguments of a message read back: create_value_from_iter and message::arguments. A value is
-- read from the argument that the iterator stands at; the loops go over the arguments of a container.
use Prim.Native.Nat.{Ordering}
use libultrabus.Common.{ℕ, Bool, true, false, List, [], ◌∷◌, ◌++◌, some, ◌==◌, ◌-◌, if◌then◌else◌}
use libultrabus.Common.Int.{ℤ}
use libultrabus.Numbers.{Kind}
use libultrabus.Values.{
  Basic, Value, Result, ok, throw, Exception, Libdbus, code, char_at, make_text,
}
use libultrabus.Values.Typed.{is_basic_code}
use libultrabus.Values.Assign.{unwrapped}
use libultrabus.Values.Compare.{Reals, order_basic}
use libultrabus.Values.Arrays.{new_array, push_pointer}
use libultrabus.Values.Arrays as Arrays
use libultrabus.Values.Structs.{Struct, new_struct, add_pointer}
use libultrabus.Values.Structs as Structs
use libultrabus.Values.Dicts.{KeyClass, Dict, new_dict, set_pointer, value_signature}
use libultrabus.Values.Dicts as Dicts
use libultrabus.Messages.{Item, Items}

-- A unique_ptr that is null or not, an exception, or a loop that does not end.
pub data Read : Type 0 where
  made : Value → Read
  null : Read
  thrown : Exception → Read
  endless : Read

pub data Loop (A : Type 0) : Type 0 where
  finished : A → Loop A
  failed : Exception → Loop A
  running : Loop A

abbrev pub built : {A : Type 0} → (A → Value) → Loop A → Read
built f (Loop.finished a) = Read.made (f a)
built f (Loop.failed e) = Read.thrown e
built f Loop.running = Read.endless

-- `while ((value = create_value_from_iter (&iter)) != nullptr)`: what the loop has until now, and
-- its body with the rest.
abbrev pub while_made : {A : Type 0} → Read → A → (Value → Loop A) → Loop A
while_made (Read.made v) a body = body v
while_made Read.null a body = Loop.finished a
while_made (Read.thrown e) a body = Loop.failed e
while_made Read.endless a body = Loop.running

abbrev pub result_read : Result Value → Read
result_read (ok v) = Read.made v
result_read (throw e) = Read.thrown e

abbrev pub loop_with : {A : Type 0} → Result A → (A → Loop A) → Loop A
loop_with (ok a) loop = loop a
loop_with (throw e) loop = Loop.failed e

-- dbus_message_iter_get_arg_type
abbrev pub type_of : Item → ℕ
type_of (Item.basic_item b) = code b
type_of (Item.array_item s is) = b'a'
type_of (Item.struct_item is) = b'r'
type_of (Item.entry_item is) = b'e'
type_of (Item.variant_item s is) = b'v'

-- The comparison that orders the std::map of a dict.
unfoldable pub less_basic : Reals → Basic → Basic → Bool
unfolding order_basic
less_basic c a b = elim (order_basic c a b) [ some Ordering.lt ↦ true | _ ↦ false ]

abbrev pub keys : Reals → ℕ → KeyClass Basic
keys c k = record { less = less_basic c; key_code = k; to_basic = λ b. b; of_basic = some }

-- What the functions use from outside: the library, the comparisons of doubles, and the number of
-- the duplicate that libdbus makes of a file descriptor.
pub record Reader : Type 0 where
  pub lib : Libdbus
  pub reals : Reals
  pub duplicate : ℤ → ℤ

-- The constructors with a DBusBasicValue.
unfoldable pub read_basic : Reader → Basic → Read
unfolding make_text
read_basic r (Basic.number Kind.unix_fd x) =
    Read.made (Value.basic (Basic.number Kind.unix_fd (r.duplicate x)))
read_basic r (Basic.text t s) = result_read (make_text r.lib t s)
read_basic r b = Read.made (Value.basic b)

-- `key->cast<KeyType> ()`
abbrev pub with_key : Value → (Basic → Loop (Dict Basic)) → Loop (Dict Basic)
with_key (Value.basic b) next = next b
with_key v next = Loop.failed Exception.bad_cast

-- The body of the loop over the entries, from the key's type on. A `continue` comes back to the same
-- entry.
abbrev pub value_read : Read → (Value → Loop (Dict Basic)) → Loop (Dict Basic)
value_read (Read.made v) next = next v
value_read Read.null next = Loop.running
value_read (Read.thrown e) next = Loop.failed e
value_read Read.endless next = Loop.running

module _ (r : Reader) where
  abbrev pub stored_entry :
      ℕ → Dict Basic → (Dict Basic → Loop (Dict Basic)) → Value → Value → Loop (Dict Basic)
  stored_entry k d next key value =
      with_key key (λ b. next (set_pointer (keys r.reals k) b (some value) d).0)

  abbrev pub made_variant : Read → Read
  made_variant (Read.made v) = Read.made (Value.variant (unwrapped v))
  made_variant other = other

  -- create_dict_from_iter, with the loop over the entries for a class of keys.
  abbrev pub dict_read : List ℕ → (ℕ → Dict Basic → Loop (Dict Basic)) → Read
  dict_read sig loop =
      let k = char_at sig 2 in
      if is_basic_code k
      then built (Dicts.freeze (keys r.reals k))
          (loop_with (new_dict (keys r.reals k) r.lib (value_signature sig)) (loop k))
      else Read.null

  -- create_array_from_iter
  abbrev pub array_read : List ℕ → (Arrays.Array → Loop Arrays.Array) → Read
  array_read element_sig loop = built Arrays.freeze (loop_with (new_array r.lib element_sig) loop)

  -- create_value_from_iter
  unfoldable mutual
    unfolding read_basic add_pointer push_pointer

    pub read : Item → Read
    read (Item.basic_item b) = read_basic r b
    read (Item.struct_item is) = built Structs.freeze (read_struct is new_struct)
    read (Item.array_item s is) =
        let dict = dict_read (b'a' ∷ s) (read_entries is) in
        let array = array_read s (read_array is) in if char_at s 0 == b'{' then dict else array
    read (Item.entry_item is) = Read.null
    read (Item.variant_item s is) = made_variant (read_first is)

    -- What stands at the start of a container.
    pub read_first : Items → Read
    read_first Items.stop = Read.null
    read_first (Items.item i is) = read i

    -- create_struct_from_iter, the loop
    pub read_struct : Items → Struct → Loop Struct
    read_struct Items.stop s = Loop.finished s
    read_struct (Items.item i is) s =
        while_made (read i) s (λ v. read_struct is (add_pointer (some v) s))

    pub read_array : Items → Arrays.Array → Loop Arrays.Array
    read_array Items.stop a = Loop.finished a
    read_array (Items.item i is) a =
        while_made (read i) a (λ v. loop_with (push_pointer (some v) a) (read_array is))

    -- create_dict_from_iter_impl, the loop
    pub read_entries : Items → ℕ → Dict Basic → Loop (Dict Basic)
    read_entries Items.stop k d = Loop.finished d
    read_entries (Items.item (Item.entry_item es) is) k d =
        read_entry es k (stored_entry k d (read_entries is k))
    read_entries (Items.item i is) k d = Loop.finished d

    pub read_entry : Items → ℕ → (Value → Value → Loop (Dict Basic)) → Loop (Dict Basic)
    read_entry Items.stop k next = Loop.running
    read_entry (Items.item i is) k next =
        let rest = read_first is in
        let whole = value_read (read i) (λ key. value_read rest (next key)) in
        if type_of i == k then whole else Loop.running

-- message::arguments; max_args of 0 is no limit.
unfoldable pub arguments : Reader → Items → ℕ → List Value → Loop (List Value)
unfolding read
arguments r Items.stop max args = Loop.finished args
arguments r (Items.item i is) max args = while_made (read r i) args (λ v.
    let rest = arguments r is (max - 1) (args ++ v ∷ []) in
    if max == 1 then Loop.finished (args ++ v ∷ []) else rest)
