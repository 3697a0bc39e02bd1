-- ===== src/Json/Reader.antt =====
-- How a reader of JSON (RFC 8259, section 7) takes a string from a text: what to_json of
-- lib/ultrabus/dbus_string.hpp has to agree with. Only characters below 256 can be read from an
-- escape \uXXXX here, and a byte above 127 stands for itself.
use libultrabus.Common.{
  ℕ, zero, suc, ◌+◌, ◌-◌, ◌*◌, Option, none, some, true, false, ◌&&◌, ◌||◌, List, [], ◌∷◌, ltb, leb,
  ◌==◌, if◌then◌else◌,
}

unfoldable pub hex_value : ℕ → Option ℕ
hex_value c =
    if leb b'0' c && leb c b'9'
    then some (c - b'0')
    else if leb b'a' c && leb c b'f'
    then some (c - 87)
    else if leb b'A' c && leb c b'F'
    then some (c - 55)
    else none

-- The two last digits of \u00XX.
unfoldable pub read_digits : ℕ → ℕ → List ℕ → Option (ℕ × List ℕ)
unfolding hex_value
read_digits high low rest = elim (hex_value high) [
  | none ↦ none
  | some h ↦ elim (hex_value low) [ none ↦ none | some l ↦ some (h * 16 + l, rest) ]
]

unfoldable pub read_unicode : List ℕ → Option (ℕ × List ℕ)
unfolding read_digits
read_unicode (a ∷ b ∷ c ∷ d ∷ rest) = if a == b'0' && b == b'0' then read_digits c d rest else none
read_unicode _ = none

-- The character that a letter after a backslash stands for.
unfoldable pub short_escape : ℕ → Option ℕ
short_escape c =
    if c == b'"' || c == b'\\' || c == b'/'
    then some c
    else if c == b'b'
    then some 8
    else if c == b'f'
    then some 12
    else if c == b'n'
    then some 10
    else if c == b'r'
    then some 13
    else if c == b't'
    then some 9
    else none

unfoldable pub read_escape : List ℕ → Option (ℕ × List ℕ)
unfolding read_unicode short_escape
read_escape [] = none
read_escape (c ∷ rest) =
    if c == b'u'
    then read_unicode rest
    else elim (short_escape c) [ none ↦ none | some ch ↦ some (ch, rest) ]

-- One character of the string, which is not its closing quote.
unfoldable pub read_char : List ℕ → Option (ℕ × List ℕ)
unfolding read_escape
read_char [] = none
read_char (c ∷ rest) =
    if ltb c 0x20
    then none
    else if c == b'\\'
    then read_escape rest
    else if c == b'"'
    then none
    else some (c, rest)

-- The string up to its closing quote, and what follows the quote. The fuel is the number of
-- characters that may be read.
unfoldable pub read_string : ℕ → List ℕ → Option (List ℕ × List ℕ)
unfolding read_char
read_string _ [] = none
read_string zero (c ∷ rest) = if c == b'"' then some ([], rest) else none
read_string (suc fuel) (c ∷ rest) = elim (c == b'"') [
  | true ↦ some ([], rest)
  | false ↦ elim (read_char (c ∷ rest)) [
    | none ↦ none
    | some (ch, rest') ↦ elim (read_string fuel rest') [
      | none ↦ none
      | some (chs, end) ↦ some (ch ∷ chs, end)
    ]
  ]
]
