-- ===== src/Json.antt =====
-- The JSON text of a string value: to_json of lib/ultrabus/dbus_string.hpp. Texts are lists of
-- bytes.
pub mod Reader
pub mod Faithful
pub mod Decimal
pub mod Document
use libultrabus.Common.{
  codes, ℕ, ◌+◌, ◌%◌, Bool, true, false, ◌||◌, List, [], ◌∷◌, ◌++◌, ltb, ◌==◌, if◌then◌else◌,
}

-- hex[n] of "0123456789abcdef"
abbrev pub hex : ℕ → ℕ
hex n = if ltb n 10 then n + b'0' else n + 87

-- The cases of the switch.
abbrev pub escape : ℕ → List ℕ
escape ch =
    if ch == 0x08
    then b'\\' ∷ b'b' ∷ []
    else if ch == 0x09
    then b'\\' ∷ b't' ∷ []
    else if ch == 0x0a
    then b'\\' ∷ b'n' ∷ []
    else if ch == 0x0c
    then b'\\' ∷ b'f' ∷ []
    else if ch == 0x0d
    then b'\\' ∷ b'r' ∷ []
    else if ch == 0x22
    then b'\\' ∷ b'"' ∷ []
    else if ch == 0x5c
    then b'\\' ∷ b'\\' ∷ []
    else b'\\' ∷ b'u' ∷ b'0' ∷ b'0' ∷ (if ltb ch 0x10 then b'0' else b'1') ∷ hex (ch % 16) ∷ []

abbrev pub is_special : ℕ → Bool
is_special ch = ltb ch 0x20 || (ch == b'"' || ch == b'\\')

unfoldable pub escape_char : ℕ → List ℕ
escape_char ch = if is_special ch then escape ch else ch ∷ []

unfoldable pub escape_string : List ℕ → List ℕ
unfolding escape_char
escape_string [] = []
escape_string (ch ∷ chs) = escape_char ch ++ escape_string chs

-- The text before the value, by the type code.
abbrev pub head : ℕ → List ℕ
head code =
    if code == b's'
    then codes "{\"type\":\"string\",\"signature\":\"s\",\"value\":\""
    else if code == b'o'
    then codes "{\"type\":\"object_path\",\"signature\":\"o\",\"value\":\""
    else if code == b'g'
    then codes "{\"type\":\"signature\",\"signature\":\"g\",\"value\":\""
    else codes "{\"type\":\"invalid\",\"signature\":\"-\",\"value\":\""

unfoldable pub to_json : ℕ → List ℕ → List ℕ
unfolding escape_string
to_json code basic_value = head code ++ (escape_string basic_value ++ codes "\"}")
