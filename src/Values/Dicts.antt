-- ===== src/Values/Dicts.antt =====
-- dbus_dict: lib/ultrabus/dbus_dict.hpp, a template over the class of its keys. Its std::map is a
-- list that is searched and changed as in the order of the keys.
pub mod Map
pub mod Sequence
pub mod Calls
pub mod Access
pub mod Keys
use libultrabus.Common.{
  ℕ, Bool, true, false, List, [], ◌∷◌, ◌++◌, Option, none, some, ◌≡◌, ◌==◌, ◌||◌, if◌then◌else◌,
  same, drop_char,
}
use libultrabus.Values.{
  Text, Basic, Value, Entries, Result, ok, throw, Exception, Libdbus, signature, code, is_variant,
  char_at, make_text,
}
use libultrabus.Values.Typed.{is_basic_code}
use libultrabus.Values.Assign.{Doubles, unwrapped}
use libultrabus.Values.Assign as Assign

-- A class of keys: its values, their order by operator<=>, its type code, and the keys as values.
pub record KeyClass (K : Type 0) : Type 0 where
  pub less : K → K → Bool
  pub key_code : ℕ
  pub to_basic : K → Basic
  pub of_basic : Basic → Option K

pub record Dict (K : Type 0) : Type 0 where
  pub sig : List ℕ
  pub items : List (K × Value)

abbrev pub value_signature : List ℕ → List ℕ
value_signature (a ∷ b ∷ k ∷ s) = drop_char s
value_signature s = []

module _ {K : Type 0} (c : KeyClass K) where
  abbrev pub of_items : List (K × Value) → Entries
  of_items [] = Entries.end
  of_items ((k, v) ∷ es) = Entries.entry (c.to_basic k) v (of_items es)

  abbrev pub freeze : Dict K → Value
  freeze d = Value.dict d.sig (of_items d.items)

  -- items.find (key)
  unfoldable pub find : K → List (K × Value) → Option Value
  find k [] = none
  find k ((j, w) ∷ m) = if c.less j k then find k m else if c.less k j then none else some w

  -- items[key] = value
  unfoldable pub put : K → Value → List (K × Value) → List (K × Value)
  put k v [] = (k, v) ∷ []
  put k v ((j, w) ∷ m) =
      if c.less j k
      then (j, w) ∷ put k v m
      else if c.less k j
      then (k, v) ∷ (j, w) ∷ m
      else (j, v) ∷ m

  abbrev pub dict_signature : List ℕ → List ℕ
  dict_signature value_sig = b'a' ∷ b'{' ∷ c.key_code ∷ (value_sig ++ b'}' ∷ [])

  -- dbus_dict (const char*)
  unfoldable pub new_dict : Libdbus → List ℕ → Result (Dict K)
  new_dict lib value_sig =
      if lib.valid_single value_sig
      then ok (record { sig = dict_signature value_sig; items = [] })
      else throw Exception.invalid_argument

  abbrev pub stored : K → Value → Dict K → Dict K × Bool
  stored key v d = (record d { items = put key v d.items }, true)

  -- set (const key_type_t&, const dbus_type&)
  unfoldable pub set : K → Value → Dict K → Dict K × Bool
  unfolding put
  set key value d =
      if same (signature value) (value_signature d.sig)
      then stored key value d
      else if char_at (value_signature d.sig) 0 == b'v'
      then stored key (Value.variant (unwrapped value)) d
      else (d, false)

  -- set (const key_type_t&, std::unique_ptr<dbus_type>&&)
  unfoldable pub set_pointer : K → Option Value → Dict K → Dict K × Bool
  unfolding set
  set_pointer key none d = (d, false)
  set_pointer key (some value) d = set key value d

  -- The key that a value is, or that it holds as a variant.
  abbrev pub as_key : Value → Option K
  as_key (Value.basic b) = if code b == c.key_code then c.of_basic b else none
  as_key (Value.variant (Value.basic b)) = if code b == c.key_code then c.of_basic b else none
  as_key v = none

  abbrev pub set_found : Option K → Value → Dict K → Dict K × Bool
  unfolding set
  set_found none value d = (d, false)
  set_found (some k) value d = set k value d

  -- set (const dbus_type&, const dbus_type&)
  unfoldable pub set_any : Value → Value → Dict K → Dict K × Bool
  unfolding set
  set_any key value d = set_found (as_key key) value d

  -- set (const key_type_t&, const CppType&), for a type that is no string.
  unfoldable pub set_basic : K → Basic → Dict K → Dict K × Bool
  unfolding put
  set_basic key b d =
      if char_at d.sig 3 == b'v'
      then stored key (Value.variant (Value.basic b)) d
      else if char_at d.sig 3 == code b
      then stored key (Value.basic b) d
      else (d, false)

  -- An exception of the constructor is caught before the entry is made.
  abbrev pub stored_made : K → Result Value → Dict K → Dict K × Bool
  stored_made key (ok v) d = stored key v d
  stored_made key (throw e) d = (d, false)

  -- set (const key_type_t&, const std::string&)
  unfoldable pub set_text : Libdbus → K → List ℕ → Dict K → Dict K × Bool
  unfolding put make_text
  set_text lib key s d =
      let t = char_at d.sig 3 in
      if t == b'v'
      then stored key (Value.variant (Value.basic (Basic.text Text.string s))) d
      else if t == b's'
      then stored_made key (make_text lib Text.string s) d
      else if t == b'o'
      then stored_made key (make_text lib Text.opath s) d
      else if t == b'g'
      then stored_made key (make_text lib Text.type_signature s) d
      else (d, false)

  abbrev pub got : Result Value → Result (Value × Bool)
  got (ok v) = ok (v, true)
  got (throw e) = throw e

  -- What get does with the value of an entry: the destination and the result.
  abbrev pub get_found : Doubles → List ℕ → Value → Value → Result (Value × Bool)
  get_found dbl value_sig value dest =
      if is_variant dest || same (signature dest) value_sig
      then got (Assign.assign dbl dest value)
      else if is_variant value
      then (if same (signature dest) (signature (unwrapped value))
          then got (Assign.assign dbl dest (unwrapped value))
          else ok (dest, false))
      else ok (dest, false)

  abbrev pub get_entry : Doubles → List ℕ → Option Value → Value → Result (Value × Bool)
  get_entry dbl value_sig none dest = ok (dest, false)
  get_entry dbl value_sig (some value) dest = get_found dbl value_sig value dest

  -- get (const key_type_t&, dbus_type&)
  unfoldable pub get : Doubles → K → Value → Dict K → Result (Value × Bool)
  unfolding find Assign.assign
  get dbl key dest d = get_entry dbl (value_signature d.sig) (find key d.items) dest

  unfoldable pub clear : Dict K → Dict K
  clear d = record d { items = [] }

  -- reset (const char*)
  unfoldable pub reset : Libdbus → List ℕ → Dict K → Dict K × Bool
  reset lib value_sig d =
      if lib.valid_single value_sig
      then (record { sig = dict_signature value_sig; items = [] }, true)
      else (d, false)

  -- reset (int): the entries stay.
  unfoldable pub reset_code : ℕ → Dict K → Dict K × Bool
  reset_code type_code d =
      if type_code == b'v' || is_basic_code type_code
      then (record d { sig = dict_signature (type_code ∷ []) }, true)
      else (d, false)

-- Every operation that changes a dict, but reset (int).
pub data Operation (K : Type 0) : Type 0 where
  set_op : K → Value → Operation K
  set_pointer_op : K → Option Value → Operation K
  set_any_op : Value → Value → Operation K
  set_basic_op : K → Basic → Operation K
  set_text_op : K → List ℕ → Operation K
  clear_op : Operation K
  reset_op : List ℕ → Operation K

unfoldable pub run : {K : Type 0} → Libdbus → KeyClass K → Operation K → Dict K → Dict K
unfolding set set_pointer set_any set_basic set_text clear reset
run lib c (set_op k v) d = (set c k v d).0
run lib c (set_pointer_op k v) d = (set_pointer c k v d).0
run lib c (set_any_op k v) d = (set_any c k v d).0
run lib c (set_basic_op k b) d = (set_basic c k b d).0
run lib c (set_text_op k s) d = (set_text c lib k s d).0
run lib c clear_op d = clear c d
run lib c (reset_op s) d = (reset c lib s d).0

unfoldable pub run_all : {K : Type 0} → Libdbus → KeyClass K → List (Operation K) → Dict K → Dict K
unfolding run
run_all lib c [] d = d
run_all lib c (op ∷ ops) d = run_all lib c ops (run lib c op d)
