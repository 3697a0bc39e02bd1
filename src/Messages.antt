-- ===== src/Messages.antt =====
-- The arguments of a message: append_dbus_type_arg, create_value_from_iter and the functions under
-- it, and message::arguments, all in lib/ultrabus/message.cpp, and append_dbus_dict_arg of
-- lib/ultrabus/message.hpp.
-- A body is what libdbus holds between the calls: the arguments in their order, each container with
-- the signature it was opened with. An append that runs out of memory, or that libdbus refuses for a
-- text that is not UTF-8, is left out.
pub mod Reading
pub mod Sendable
pub mod Faithful
pub mod Document
use libultrabus.Common.{
  ℕ, Bool, true, false, List, [], ◌∷◌, ◌++◌, ◌==◌, ◌||◌, if◌then◌else◌, drop_char,
}
use libultrabus.Values.{Text, Basic, Value, Values, Entries, signature, code, char_at}
use libultrabus.Values.Typed.{is_basic_code}
use libultrabus.Values.Arrays.{rest}
use libultrabus.Values.Dicts.{value_signature}

mutual
  pub data Item : Type 0 where
    basic_item : Basic → Item
    array_item : List ℕ → Items → Item
    struct_item : Items → Item
    entry_item : Items → Item
    variant_item : List ℕ → Items → Item

  pub data Items : Type 0 where
    stop : Items
    item : Item → Items → Items

-- One body behind the other, which is what the calls of append make.
abbrev pub followed : Items → Items → Items
followed Items.stop js = js
followed (Items.item i is) js = Items.item i (followed is js)

abbrev pub one : Item → Items
one i = Items.item i Items.stop

-- What c_str () shows of a text.
abbrev pub until_nul : List ℕ → List ℕ
until_nul [] = []
until_nul (c ∷ cs) = let rest = until_nul cs in if c == 0 then [] else c ∷ rest

-- to_DBusBasicValue
abbrev pub plain : Basic → Basic
plain (Basic.text t s) = Basic.text t (until_nul s)
plain b = b

abbrev pub entry_signature : List ℕ → List ℕ
entry_signature sig = b'{' ∷ char_at sig 2 ∷ (value_signature sig ++ b'}' ∷ [])

-- append_dbus_type_arg
unfoldable mutual
  pub write : Value → Items
  write (Value.basic b) = one (Item.basic_item (plain b))
  write (Value.struct s Values.nil) = Items.stop
  write (Value.struct s (Values.cons x xs)) =
      one (Item.struct_item (followed (write x) (write_all xs)))
  write (Value.array s xs) = one (Item.array_item (rest s) (write_all xs))
  write (Value.dict s es) =
      let entries = write_entries es in
      if is_basic_code (char_at s 2)
      then one (Item.array_item (entry_signature s) entries)
      else Items.stop
  write (Value.variant v) = one (Item.variant_item (signature v) (write v))

  pub write_all : Values → Items
  write_all Values.nil = Items.stop
  write_all (Values.cons x xs) = followed (write x) (write_all xs)

  -- append_dbus_dict_arg, the loop
  pub write_entries : Entries → Items
  write_entries Entries.end = Items.stop
  write_entries (Entries.entry k v es) =
      Items.item (Item.entry_item (Items.item (Item.basic_item (plain k)) (write v)))
        (write_entries es)

-- append_args_impl
unfoldable pub append : List Value → Items
unfolding write
append [] = Items.stop
append (v ∷ vs) = followed (write v) (append vs)
