-- ===== src/Values/Texts.antt =====
-- to_string and to_json of every class of values: dbus_basic.hpp, dbus_string.hpp, dbus_unix_fd.hpp,
-- dbus_array.cpp, dbus_struct.cpp, dbus_dict.hpp and dbus_variant.hpp of lib/ultrabus. What
-- std::to_string makes of a double is a parameter.
pub mod Described
pub mod Read
use libultrabus.Common.{ℕ, Bool, true, false, not, List, [], ◌∷◌, ◌++◌, codes, if◌then◌else◌}
use libultrabus.Common.Int.{ℤ, pos, ◌==ℤ◌}
use libultrabus.Numbers.{Kind}
use libultrabus.Values.{Text, Basic, Value, Values, Entries, code_of_text, code, signature, char_at}
use libultrabus.Json.{to_json}
use libultrabus.Json.Decimal.{to_text}

abbrev pub is_true : ℤ → Bool
is_true x = not (x ==ℤ pos 0)

-- dbus_type::is_string
abbrev pub is_string : Value → Bool
is_string (Value.basic (Basic.text Text.string s)) = true
is_string v = false

-- The texts before the number.
abbrev pub number_head : Kind → List ℕ
number_head Kind.boolean = codes "{\"type\":\"boolean\",\"signature\":\"b\",\"value\":"
number_head Kind.byte = codes "{\"type\":\"byte\",\"signature\":\"y\",\"value\":"
number_head Kind.i16 = codes "{\"type\":\"int16\",\"signature\":\"n\",\"value\":"
number_head Kind.u16 = codes "{\"type\":\"uint16\",\"signature\":\"q\",\"value\":"
number_head Kind.i32 = codes "{\"type\":\"int32\",\"signature\":\"i\",\"value\":"
number_head Kind.u32 = codes "{\"type\":\"uint32\",\"signature\":\"u\",\"value\":"
number_head Kind.i64 = codes "{\"type\":\"int64\",\"signature\":\"x\",\"value\":"
number_head Kind.u64 = codes "{\"type\":\"uint64\",\"signature\":\"t\",\"value\":"
number_head Kind.unix_fd = codes "{\"type\":\"unix_fd\",\"signature\":\"h\",\"value\":"

unfoldable pub number_text : Kind → ℤ → List ℕ
unfolding to_text
number_text Kind.boolean x = if is_true x then codes "true" else codes "false"
number_text k x = to_text x

-- The body of the loop over the entries of a dict, with the texts of the key and the value.
abbrev pub json_entry : List ℕ → List ℕ → List ℕ
json_entry k v = codes "{\"key\":" ++ (k ++ (codes ",\"value\":" ++ (v ++ b'}' ∷ [])))

abbrev pub string_entry : List ℕ → List ℕ → List ℕ
string_entry k v = b'{' ∷ (k ++ b':' ∷ (v ++ b'}' ∷ []))

abbrev pub with_quotes : Bool → List ℕ → List ℕ
with_quotes quoted s = if quoted then b'"' ∷ (s ++ b'"' ∷ []) else s

module _ (real_text : ℕ → List ℕ) where
  unfoldable pub basic_json : Basic → List ℕ
  unfolding number_text to_json
  basic_json (Basic.number k x) = number_head k ++ (number_text k x ++ b'}' ∷ [])
  basic_json (Basic.real r) =
      codes "{\"type\":\"double\",\"signature\":\"d\",\"value\":" ++ (real_text r ++ b'}' ∷ [])
  basic_json (Basic.text t s) = to_json (code_of_text t) s

  -- to_json
  unfoldable mutual
    unfolding basic_json

    pub json : Value → List ℕ
    json (Value.basic b) = basic_json b
    json (Value.array s xs) =
        codes "{\"type\":\"array\",\"signature\":\""
        ++ (s ++ (codes "\",\"value\":[" ++ (json_all xs ++ codes "]}")))
    json (Value.struct s xs) =
        codes "{\"type\":\"struct\",\"signature\":\""
        ++ (s ++ (codes "\",\"value\":[" ++ (json_all xs ++ codes "]}")))
    json (Value.dict s es) =
        codes "{\"type\":\"dict\",\"signature\":\""
        ++ (s ++ (codes "\",\"value\":[" ++ (json_entries es ++ codes "]}")))
    json (Value.variant v) =
        codes "{\"type\":\"variant\",\"signature\":\"v\",\"value\":" ++ (json v ++ b'}' ∷ [])

    pub json_all : Values → List ℕ
    json_all Values.nil = []
    json_all (Values.cons x Values.nil) = json x
    json_all (Values.cons x (Values.cons y ys)) = json x ++ b',' ∷ json_all (Values.cons y ys)

    pub json_entries : Entries → List ℕ
    json_entries Entries.end = []
    json_entries (Entries.entry k v Entries.end) = json_entry (basic_json k) (json v)
    json_entries (Entries.entry k v (Entries.entry j w es)) =
        json_entry (basic_json k) (json v) ++ b',' ∷ json_entries (Entries.entry j w es)

  unfoldable pub basic_string : Basic → List ℕ
  unfolding number_text
  basic_string (Basic.number k x) = number_text k x
  basic_string (Basic.real r) = real_text r
  basic_string (Basic.text t s) = s

  -- to_string
  unfoldable mutual
    unfolding basic_string

    pub string : Value → List ℕ
    string (Value.basic b) = basic_string b
    string (Value.array s xs) = b'[' ∷ (string_all xs ++ b']' ∷ [])
    string (Value.struct s xs) = b'(' ∷ (string_all xs ++ b')' ∷ [])
    string (Value.dict s es) = b'[' ∷ (string_entries es ++ b']' ∷ [])
    string (Value.variant v) = string v

    pub string_all : Values → List ℕ
    string_all Values.nil = []
    string_all (Values.cons x Values.nil) = with_quotes (is_string x) (string x)
    string_all (Values.cons x (Values.cons y ys)) =
        with_quotes (is_string x) (string x) ++ b',' ∷ string_all (Values.cons y ys)

    pub string_entries : Entries → List ℕ
    string_entries Entries.end = []
    string_entries (Entries.entry k v Entries.end) =
        string_entry (with_quotes (is_string (Value.basic k)) (basic_string k))
          (with_quotes (is_string v) (string v))
    string_entries (Entries.entry k v (Entries.entry j w es)) =
        string_entry (with_quotes (is_string (Value.basic k)) (basic_string k))
          (with_quotes (is_string v) (string v))
        ++ b',' ∷ string_entries (Entries.entry j w es)
