-- ===== src/Values/Structs.antt =====
-- dbus_struct: lib/ultrabus/dbus_struct.hpp and lib/ultrabus/dbus_struct.cpp.
pub mod Signature
use libultrabus.Common.{
  ℕ, zero, suc, Bool, true, false, List, [], ◌∷◌, ◌++◌, Option, none, some, ltb, if◌then◌else◌,
  erase_at, length, drop_char,
}
use libultrabus.Values.{
  Text, Basic, Value, Result, ok, throw, Exception, signature, of_list, to_list,
}
use libultrabus.Values.Typed.{signatures}

pub record Struct : Type 0 where
  pub sig : List ℕ
  pub items : List Value

abbrev pub freeze : Struct → Value
freeze s = Value.struct s.sig (of_list s.items)

-- dbus_struct ()
abbrev pub new_struct : Struct
new_struct = record { sig = b'(' ∷ b')' ∷ []; items = [] }

unfoldable pub add_attrib_signature : Value → List ℕ → List ℕ
add_attrib_signature item sig = drop_char sig ++ (signature item ++ b')' ∷ [])

unfoldable pub update_signature : Struct → Struct
update_signature s = record s { sig = b'(' ∷ (signatures (of_list s.items) ++ b')' ∷ []) }

-- add (const dbus_type&)
unfoldable pub add : Value → Struct → Struct
unfolding add_attrib_signature
add item s = record { sig = add_attrib_signature item s.sig; items = s.items ++ item ∷ [] }

-- add (dbus_type&&)
unfoldable pub add_moved : Value → Struct → Struct
unfolding add update_signature
add_moved item s = update_signature (add item s)

-- add (std::unique_ptr<dbus_type>&&)
unfoldable pub add_pointer : Option Value → Struct → Struct
unfolding add
add_pointer none s = s
add_pointer (some item) s = add item s

-- add (const char*)
unfoldable pub add_text : Option (List ℕ) → Struct → Struct
unfolding add_pointer
add_text none s = s
add_text (some text) s = add_pointer (some (Value.basic (Basic.text Text.string text))) s

unfoldable pub remove : ℕ → Struct → Struct
unfolding update_signature
remove pos s =
    if ltb pos (length s.items)
    then update_signature (record s { items = erase_at pos s.items })
    else s

-- get (size_t)
abbrev pub at : List Value → ℕ → Result Value
at [] pos = throw Exception.out_of_range
at (x ∷ xs) zero = ok x
at (x ∷ xs) (suc pos) = at xs pos

-- operator= (const dbus_type&)
unfoldable pub assign : Value → Struct → Result Struct
assign (Value.struct sig xs) s = ok (record { sig = sig; items = to_list xs })
assign _ s = throw Exception.invalid_argument

-- What a caller makes of an attribute through the reference that `get` returns, which the struct does
-- not notice.
unfoldable pub change_at : ℕ → Value → List Value → List Value
change_at pos v [] = []
change_at zero v (x ∷ xs) = v ∷ xs
change_at (suc pos) v (x ∷ xs) = x ∷ change_at pos v xs

-- The calls that change a struct, none of them with the struct itself or a part of it as argument.
pub data Operation : Type 0 where
  add_op add_moved_op : Value → Operation
  add_pointer_op : Option Value → Operation
  add_text_op : Option (List ℕ) → Operation
  remove_op : ℕ → Operation
  get_op : ℕ → Value → Operation
  update_signature_op : Operation
  assign_op : Value → Operation

abbrev pub after : Result Struct → Struct → Struct
after (ok s') s = s'
after (throw e) s = s

unfoldable pub run : Operation → Struct → Struct
unfolding add add_moved add_pointer add_text remove change_at update_signature assign
run (add_op v) s = add v s
run (add_moved_op v) s = add_moved v s
run (add_pointer_op v) s = add_pointer v s
run (add_text_op t) s = add_text t s
run (remove_op pos) s = remove pos s
run (get_op pos v) s = record s { items = change_at pos v s.items }
run update_signature_op s = update_signature s
run (assign_op v) s = after (assign v s) s

unfoldable pub run_all : List Operation → Struct → Struct
unfolding run
run_all [] s = s
run_all (op ∷ ops) s = run_all ops (run op s)
