-- ===== src/Values/Arrays.antt =====
-- dbus_array: lib/ultrabus/dbus_array.hpp. A position is an index of at most the size, as the
-- iterators have to be. A call that throws before it changes anything leaves the array as it is.
pub mod Members
pub mod Calls
pub mod Mixed
use libultrabus.Common.{
  ℕ, zero, suc, Bool, true, false, List, [], ◌∷◌, ◌++◌, map, Option, none, some, ◌==◌,
  if◌then◌else◌, same, insert_at, erase_at, erase_range, length, ◌-◌,
}
use libultrabus.Values.{
  Text, Basic, Value, Result, ok, throw, Exception, Libdbus, signature, code, of_list, to_list,
  char_at, make_text,
}

pub record Array : Type 0 where
  pub sig : List ℕ
  pub items : List Value

-- The array as a value, which is what `clone` makes.
abbrev pub freeze : Array → Value
freeze a = Value.array a.sig (of_list a.items)

abbrev pub rest : List ℕ → List ℕ
rest [] = []
rest (c ∷ cs) = cs

abbrev pub element_signature : Array → List ℕ
element_signature a = rest a.sig

-- dbus_array (const char*)
unfoldable pub new_array : Libdbus → List ℕ → Result Array
new_array lib element_sig =
    if lib.valid_single (b'a' ∷ element_sig)
    then ok (record { sig = b'a' ∷ element_sig; items = [] })
    else throw Exception.invalid_argument

-- verify_element_signature, before a change of the items.
abbrev pub verified : Bool → (List Value → List Value) → Array → Result Array
verified test change a =
    if test then ok (record a { items = change a.items }) else throw Exception.invalid_argument

unfoldable pub push_back : Value → Array → Result Array
push_back item a =
    verified (same (element_signature a) (signature item)) (λ items. items ++ item ∷ []) a

-- push_back (std::unique_ptr<dbus_type>&&)
unfoldable pub push_pointer : Option Value → Array → Result Array
unfolding push_back
push_pointer none a = ok a
push_pointer (some item) a = push_back item a

-- push_back (const T&), for a basic type T that is no string.
unfoldable pub push_basic : Basic → Array → Result Array
push_basic b a = verified (char_at a.sig 1 == code b) (λ items. items ++ Value.basic b ∷ []) a

-- The string type of a signature's element.
abbrev pub text_of_code : ℕ → Option Text
text_of_code c =
    if c == b's'
    then some Text.string
    else if c == b'o'
    then some Text.opath
    else if c == b'g'
    then some Text.type_signature
    else none

abbrev pub place_made : Result Value → (Value → List Value → List Value) → Array → Result Array
place_made (ok v) place a = ok (record a { items = place v a.items })
place_made (throw e) place a = throw e

-- The switch after verify_element_type_is_type_of_string, before an insertion.
abbrev pub insert_as :
    Libdbus → Option Text → List ℕ → (Value → List Value → List Value) → Array → Result Array
insert_as lib none s place a = throw Exception.invalid_argument
insert_as lib (some t) s place a = place_made (make_text lib t s) place a

-- push_back (const std::string&)
unfoldable pub push_text : Libdbus → List ℕ → Array → Result Array
push_text lib s a = insert_as lib (text_of_code (char_at a.sig 1)) s (λ v items. items ++ v ∷ []) a

unfoldable pub insert : ℕ → Value → Array → Result Array
insert pos item a = verified (same (element_signature a) (signature item)) (insert_at pos item) a

unfoldable pub insert_basic : ℕ → Basic → Array → Result Array
insert_basic pos b a = verified (char_at a.sig 1 == code b) (insert_at pos (Value.basic b)) a

unfoldable pub insert_text : Libdbus → ℕ → List ℕ → Array → Result Array
insert_text lib pos s a = insert_as lib (text_of_code (char_at a.sig 1)) s (insert_at pos) a

abbrev pub insert_times : ℕ → ℕ → Value → List Value → List Value
insert_times pos zero item items = items
insert_times pos (suc count) item items = insert_times pos count item (insert_at pos item items)

-- insert (const_iterator, size_t, const dbus_type&)
unfoldable pub insert_count : ℕ → ℕ → Value → Array → Result Array
insert_count pos count item a =
    verified (same (element_signature a) (signature item)) (insert_times pos count item) a

abbrev pub insert_all : ℕ → List Value → List Value → List Value
insert_all pos [] items = items
insert_all pos (x ∷ xs) items = insert_all (suc pos) xs (insert_at pos x items)

-- insert (const_iterator, InputIt, InputIt): only the first element's signature is looked at.
unfoldable pub insert_range : ℕ → List Value → Array → Result Array
insert_range pos [] a = ok a
insert_range pos (x ∷ xs) a =
    verified (same (element_signature a) (signature x)) (insert_all pos (x ∷ xs)) a

abbrev pub basics : List Basic → List Value
basics [] = []
basics (b ∷ bs) = Value.basic b ∷ basics bs

-- insert (const_iterator, std::initializer_list<T>), with the type code of dbus_basic<T>.
unfoldable pub insert_basics : ℕ → ℕ → List Basic → Array → Result Array
insert_basics pos c bs a = verified (char_at a.sig 1 == c) (insert_all pos (basics bs)) a

-- The loops of insert (const_iterator, std::initializer_list<const std::string>), which stop where a
-- constructor throws and keep what was inserted until then.
abbrev pub insert_made :
    Result Value
    → (List Value → List Value × Option Exception)
    → ℕ
    → List Value
    → List Value × Option Exception
insert_made (ok v) next pos items = next (insert_at pos v items)
insert_made (throw e) next pos items = (items, some e)

abbrev pub insert_texts_as :
    Libdbus → Text → ℕ → List (List ℕ) → List Value → List Value × Option Exception
insert_texts_as lib t pos [] items = (items, none)
insert_texts_as lib t pos (s ∷ texts) items =
    insert_made (make_text lib t s) (insert_texts_as lib t (suc pos) texts) pos items

abbrev pub insert_each :
    Libdbus → Option Text → ℕ → List (List ℕ) → Array → Array × Option Exception
insert_each lib none pos texts a = (a, some Exception.invalid_argument)
insert_each lib (some t) pos texts a =
    let (items, e) = insert_texts_as lib t pos texts a.items in (record a { items = items }, e)

unfoldable pub insert_texts : Libdbus → ℕ → List (List ℕ) → Array → Array × Option Exception
insert_texts lib pos texts a = insert_each lib (text_of_code (char_at a.sig 1)) pos texts a

abbrev pub drop_last : List Value → List Value
drop_last [] = []
drop_last (x ∷ []) = []
drop_last (x ∷ y ∷ ys) = x ∷ drop_last (y ∷ ys)

unfoldable pub pop_back : Array → Array
pop_back a = record a { items = drop_last a.items }

unfoldable pub erase : ℕ → Array → Array
erase pos a = record a { items = erase_at pos a.items }

-- erase (const_iterator, const_iterator), with the number of elements between them.
unfoldable pub erase_some : ℕ → ℕ → Array → Array
erase_some first n a = record a { items = erase_range first n a.items }

unfoldable pub clear : Array → Array
clear a = record a { items = [] }

-- operator= (const dbus_type&)
unfoldable pub assign : Value → Array → Result Array
assign (Value.array s xs) a = ok (record { sig = s; items = to_list xs })
assign _ a = throw Exception.invalid_argument

-- The loops of operator= (std::initializer_list<const std::string>), which stop where a constructor
-- throws, and keep what was made until then.
abbrev pub emplace_made :
    Result Value
    → (List Value → List Value × Option Exception)
    → List Value
    → List Value × Option Exception
emplace_made (ok v) next made = next (made ++ v ∷ [])
emplace_made (throw e) next made = (made, some e)

abbrev pub emplace_all : Libdbus → Text → List (List ℕ) → List Value → List Value × Option Exception
emplace_all lib t [] made = (made, none)
emplace_all lib t (s ∷ texts) made = emplace_made (make_text lib t s) (emplace_all lib t texts) made

-- The switch of operator= (std::initializer_list<const std::string>), for the string type of the
-- elements until then.
abbrev pub assign_as : Libdbus → Option Text → List (List ℕ) → Array → Array × Option Exception
assign_as lib none texts a =
    let (made, e) = emplace_all lib Text.string texts [] in
    (record { sig = b'a' ∷ b's' ∷ []; items = made }, e)
assign_as lib (some t) texts a =
    let (made, e) = emplace_all lib t texts [] in (record a { items = made }, e)

unfoldable pub assign_texts : Libdbus → List (List ℕ) → Array → Array × Option Exception
assign_texts lib [] a = (record a { items = [] }, none)
assign_texts lib (s ∷ texts) a = assign_as lib (text_of_code (char_at a.sig 1)) (s ∷ texts) a

-- operator= (std::initializer_list<T>), with the type code of dbus_basic<T>.
unfoldable pub assign_basics : ℕ → List Basic → Array → Array
assign_basics c [] a = record a { items = [] }
assign_basics c (b ∷ bs) a = record { sig = b'a' ∷ c ∷ []; items = basics (b ∷ bs) }

-- The calls that change an array; what is done through a reference or an iterator to an element
-- (at, operator[], front, back) is not among them.
pub data Operation : Type 0 where
  push_back_op : Value → Operation
  push_pointer_op : Option Value → Operation
  push_basic_op : Basic → Operation
  push_text_op : List ℕ → Operation
  insert_op : ℕ → Value → Operation
  insert_basic_op : ℕ → Basic → Operation
  insert_text_op : ℕ → List ℕ → Operation
  insert_count_op : ℕ → ℕ → Value → Operation
  insert_range_op : ℕ → List Value → Operation
  insert_basics_op : ℕ → ℕ → List Basic → Operation
  insert_texts_op : ℕ → List (List ℕ) → Operation
  pop_back_op : Operation
  erase_op : ℕ → Operation
  erase_some_op : ℕ → ℕ → Operation
  clear_op : Operation
  assign_op : Value → Operation
  assign_texts_op : List (List ℕ) → Operation
  assign_basics_op : ℕ → List Basic → Operation

-- The array after a call that may have thrown before it changed anything.
abbrev pub after : Result Array → Array → Array
after (ok a') a = a'
after (throw e) a = a

unfoldable pub run : Libdbus → Operation → Array → Array
unfolding push_back push_pointer push_basic push_text insert insert_basic insert_text insert_count
    insert_range insert_basics insert_texts pop_back erase erase_some clear assign assign_texts
    assign_basics
run lib (push_back_op v) a = after (push_back v a) a
run lib (push_pointer_op v) a = after (push_pointer v a) a
run lib (push_basic_op b) a = after (push_basic b a) a
run lib (push_text_op s) a = after (push_text lib s a) a
run lib (insert_op pos v) a = after (insert pos v a) a
run lib (insert_basic_op pos b) a = after (insert_basic pos b a) a
run lib (insert_text_op pos s) a = after (insert_text lib pos s a) a
run lib (insert_count_op pos n v) a = after (insert_count pos n v a) a
run lib (insert_range_op pos vs) a = after (insert_range pos vs a) a
run lib (insert_basics_op pos c bs) a = after (insert_basics pos c bs a) a
run lib (insert_texts_op pos texts) a = (insert_texts lib pos texts a).0
run lib pop_back_op a = pop_back a
run lib (erase_op pos) a = erase pos a
run lib (erase_some_op first n) a = erase_some first n a
run lib clear_op a = clear a
run lib (assign_op v) a = after (assign v a) a
run lib (assign_texts_op texts) a = (assign_texts lib texts a).0
run lib (assign_basics_op c bs) a = assign_basics c bs a

unfoldable pub run_all : Libdbus → List Operation → Array → Array
unfolding run
run_all lib [] a = a
run_all lib (op ∷ ops) a = run_all lib ops (run lib op a)
