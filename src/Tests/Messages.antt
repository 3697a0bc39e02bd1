-- ===== src/Tests/Messages.antt =====
-- A message with arguments, written and read back.
use libultrabus.Common.{arith, ℕ, List, [], ◌∷◌, ◌≡◌, refl, codes, same}
use libultrabus.Common.Int.{negsuc}
use libultrabus.Numbers.{Kind}
use libultrabus.Values.{Text, Basic, Value, Values, Entries, of_list, make_text, Exception}
use libultrabus.Values.Typed.{AllTyped}
use libultrabus.Values.Dicts.{new_dict}
use libultrabus.Values.Dicts.Keys.{less_text}
use libultrabus.Messages.{Item, append, one}
use libultrabus.Messages.Reading.{Reader, Read, Loop, less_basic, read, arguments}
use libultrabus.Messages.Sendable.{AllSendable}
use libultrabus.Messages.Faithful.{limited, arguments-append}
use libultrabus.Tests.Library.{library}
use libultrabus.Tests.Comparisons.{reals}

abbrev reader : Reader
reader = record { lib = library; reals = reals; duplicate = λ x. x }

abbrev word : ℕ → Value
word c = Value.basic (Basic.text Text.string (c ∷ []))

abbrev four_values : List Value
four_values =
    Value.dict (codes "a{ss}") (
      Entries.entry (Basic.text Text.string (codes "a")) (word b'x')
        (Entries.entry (Basic.text Text.string (codes "b")) (word b'y') Entries.end))
    ∷ Value.struct (codes "(sv)")
        (Values.cons (word b'x') (Values.cons (Value.variant (word b'z')) Values.nil))
    ∷ Value.array (codes "as") (Values.cons (word b'x') (Values.cons (word b'y') Values.nil))
    ∷ Value.basic (Basic.number Kind.i32 (negsuc 6))
    ∷ []

four_values-AllTyped : AllTyped library (of_list four_values)
unfolding same
four_values-AllTyped = (
  (b's', codes "s", refl, refl, (refl, tt, refl, tt, (refl, tt, refl, tt, tt))),
  (
    (refl, (tt, ((refl, tt), tt))),
    ((codes "s", refl, refl, (refl, tt, (refl, tt, tt))), (omega arith, tt)),
  ),
)

four_values-AllSendable : AllSendable reader (of_list four_values)
unfolding less_basic less_text same
four_values-AllSendable = (
  (refl, (refl, refl, (refl, tt), (refl, refl, tt, tt))),
  ((refl, (refl, tt)), ((refl, (refl, (refl, tt))), (refl, tt))),
)

arguments-append_example :
    arguments reader (append four_values) 3 [] ≡ Loop.finished (limited 3 four_values)
arguments-append_example =
    arguments-append reader four_values 3 four_values-AllTyped four_values-AllSendable

first_three_run : limited 3 four_values ≡ limited 0 four_values → ⊥
unfolding limited
first_three_run h = cc

-- An entry whose key is no string, in a dict of strings.
endless_run :
    read reader (
      Item.array_item (codes "{ss}") (one (Item.entry_item (one (Item.basic_item (Basic.real 0))))))
    ≡ Read.endless
unfolding read same new_dict
endless_run = refl

-- An object path that is not valid.
invalid_run :
    read reader (Item.basic_item (Basic.text Text.opath []))
    ≡ Read.thrown Exception.invalid_argument
unfolding read make_text same
invalid_run = refl
