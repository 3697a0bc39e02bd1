-- ===== src/Tests/Containers.antt =====
-- Arrays, structs, dicts and create_dbus_type at concrete inputs.
use libultrabus.Common.{
  false, ℕ, true, List, [], ◌∷◌, some, ◌≡◌, ◌↔◌, refl, codes, same, insert_at, erase_at, arith,
}
use libultrabus.Common.Int.{pos}
use libultrabus.Numbers.{Kind, InRange}
use libultrabus.Values.{Text, Basic, Value, Values, ok, make_text, of_list}
use libultrabus.Values.Typed.{IsTyped, AllTyped}
use libultrabus.Values.Arrays as Arrays
use libultrabus.Values.Arrays.{Array}
use libultrabus.Values.Arrays.Members.{Each}
use libultrabus.Values.Arrays.Calls as ArrayCalls
use libultrabus.Values.Arrays.Mixed.{insert_range-IsTyped_iff}
use libultrabus.Values.Structs as Structs
use libultrabus.Values.Structs.Signature.{any_get, run_all-update_signature}
use libultrabus.Values.Assign.{Doubles, assign, Leaves}
use libultrabus.Values.Assign.Outcome.{assign-IsTyped}
use libultrabus.Values.Dicts as Dicts
use libultrabus.Values.Dicts.{Dict}
use libultrabus.Values.Dicts.Keys.{text_keys, text_keys-IsOrder, text_keys-Recovers}
use libultrabus.Values.Dicts.Sequence.{Holds}
use libultrabus.Values.Dicts.Calls.{new_dict-run_all}
use libultrabus.Values.Dicts.Access.{get-set}
use libultrabus.Values.Create.{create}
use libultrabus.Values.Create.Complete.{Makes, create-Makes}
use libultrabus.Tests.Library.{library, library-Laws, library-Grammar}

abbrev word : List ℕ → Value
word s = Value.basic (Basic.text Text.string s)

abbrev number : ℕ → Value
number n = Value.basic (Basic.number Kind.i32 (pos n))

-- An array of strings.
abbrev words : Array
words = record { sig = codes "as"; items = word (codes "a") ∷ [] }

words-IsTyped : IsTyped library (Arrays.freeze words)
unfolding same
words-IsTyped = (codes "s", refl, refl, (refl, tt, tt))

-- One that fits, one that does not, an insertion and a range.
abbrev array_ops : List Arrays.Operation
array_ops =
    Arrays.push_text_op (codes "b")
    ∷ Arrays.push_back_op (number 7)
    ∷ Arrays.insert_count_op 1 2 (word (codes "c"))
    ∷ Arrays.insert_range_op 0 (word (codes "d") ∷ word (codes "e") ∷ [])
    ∷ Arrays.pop_back_op
    ∷ Arrays.insert_texts_op 1 (codes "f" ∷ codes "g" ∷ [])
    ∷ []

array_run :
    (Arrays.run_all library array_ops words).items
    ≡ word (codes "d")
      ∷ word (codes "f")
      ∷ word (codes "g")
      ∷ word (codes "e")
      ∷ word (codes "a")
      ∷ word (codes "c")
      ∷ word (codes "c")
      ∷ []
unfolding Arrays.run_all same insert_at make_text
array_run = refl

run_all-IsTyped_example : IsTyped library (Arrays.freeze (Arrays.run_all library array_ops words))
run_all-IsTyped_example =
    ArrayCalls.run_all-IsTyped library library-Laws array_ops words
      (tt, (omega arith, (tt, ((refl, tt, (refl, tt, tt)), (tt, (tt, tt)))))) words-IsTyped

abbrev mixed : Array
mixed = record { sig = codes "as"; items = word [] ∷ number 1 ∷ word (codes "a") ∷ [] }

mixed_run : Arrays.insert_range 0 (word [] ∷ number 1 ∷ []) words ≡ ok mixed
unfolding Arrays.insert_range same insert_at
mixed_run = refl

insert_range-IsTyped_iff_example :
    IsTyped library (Arrays.freeze mixed) ↔ Each library (codes "s") (word [] ∷ number 1 ∷ [])
insert_range-IsTyped_iff_example =
    insert_range-IsTyped_iff library words 0 (word []) (number 1 ∷ []) words-IsTyped mixed_run

abbrev struct_ops : List Structs.Operation
struct_ops =
    Structs.add_op (number 7)
    ∷ Structs.add_text_op (some (codes "a"))
    ∷ Structs.add_moved_op (Arrays.freeze words)
    ∷ Structs.remove_op 1
    ∷ Structs.remove_op 5
    ∷ []

struct_run : (Structs.run_all struct_ops Structs.new_struct).sig ≡ codes "(ias)"
unfolding Structs.run_all erase_at
struct_run = refl

run_all-update_signature_example :
    (any_get struct_ops ≡ false
      → (Structs.run_all struct_ops Structs.new_struct).sig
        ≡ (Structs.update_signature (Structs.run_all struct_ops Structs.new_struct)).sig)
    × AllTyped library (of_list (Structs.run_all struct_ops Structs.new_struct).items)
    × IsTyped library
        (Structs.freeze (Structs.update_signature (Structs.run_all struct_ops Structs.new_struct)))
run_all-update_signature_example =
    run_all-update_signature library struct_ops (omega arith, (tt, (words-IsTyped, (tt, (tt, tt)))))

abbrev doubles : Doubles
doubles = record { of_integer = λ v. 0; to_integer = λ k r. pos 0 }

zero_fits : (k : Kind) (r : ℕ) → InRange k (pos 0)
zero_fits Kind.boolean r = omega arith
zero_fits k r = omega arith

-- An array of numbers becomes one of strings.
replaced :
    assign doubles (Value.array (codes "ai") Values.nil) (Arrays.freeze words)
    ≡ ok (Arrays.freeze words)
unfolding assign
replaced = refl

assign-IsTyped_example :
    IsTyped library (Arrays.freeze words)
    × Leaves (Value.array (codes "ai") Values.nil) (Arrays.freeze words) (Arrays.freeze words)
assign-IsTyped_example =
    assign-IsTyped library doubles (Value.array (codes "ai") Values.nil) (Arrays.freeze words)
      zero_fits words-IsTyped replaced

single_struct : library.valid_single (codes "(ss)") ≡ true
unfolding same
single_struct = refl

-- A dict of strings to variants, with one entry.
abbrev keys : Dicts.KeyClass (List ℕ)
keys = text_keys Text.string

abbrev properties : Dict (List ℕ)
properties = record { sig = codes "a{sv}"; items = (codes "k", Value.variant (number 7)) ∷ [] }

abbrev no_properties : Dict (List ℕ)
no_properties = record { sig = codes "a{sv}"; items = [] }

properties-Holds : Holds library keys (codes "v") properties
unfolding same
properties-Holds = (refl, refl, (refl, tt, refl, (refl, omega arith), tt))

abbrev dict_ops : List (Dicts.Operation (List ℕ))
dict_ops =
    Dicts.set_op (codes "k") (word (codes "x"))
    ∷ Dicts.set_any_op (word (codes "a")) (Value.variant (number 7))
    ∷ Dicts.set_text_op (codes "k") (codes "y")
    ∷ Dicts.reset_op (codes "as")
    ∷ Dicts.set_basic_op (codes "b") (Basic.number Kind.i32 (pos 1))
    ∷ []

dict_created : Dicts.new_dict keys library (codes "v") ≡ ok no_properties
unfolding Dicts.new_dict same
dict_created = refl

new_dict-run_all_example :
    IsTyped library (Dicts.freeze keys (Dicts.run_all library keys dict_ops no_properties))
new_dict-run_all_example =
    new_dict-run_all library library-Laws keys (text_keys-Recovers Text.string) (codes "v") dict_ops
      (
        ((refl, tt), tt),
        ((tt, (refl, omega arith)), ((refl, tt), (tt, (((refl, tt), refl, omega arith), tt)))),
      )
      dict_created

set_run : (Dicts.set keys (codes "k") (word (codes "x")) properties).1 ≡ true
unfolding Dicts.set same
set_run = refl

get-set_example :
    Dicts.get keys doubles
      (codes "k")
      (word [])
      (Dicts.set keys (codes "k") (word (codes "x")) properties).0
    ≡ ok (word (codes "x"), true)
get-set_example =
    get-set library library-Laws doubles keys (text_keys-IsOrder Text.string) (codes "v")
      (codes "k") (word (codes "x")) (word []) properties properties-Holds tt tt refl set_run

create-Makes_example : Makes library (codes "(ss)") (create library 4 (codes "(ss)"))
create-Makes_example =
    create-Makes library library-Grammar 4 (codes "(ss)") single_struct (omega arith)
