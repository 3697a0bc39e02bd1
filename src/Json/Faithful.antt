-- ===== src/Json/Faithful.antt =====
-- The text of to_json read back as JSON.
use libultrabus.Common.{
  ℕ, zero, suc, ◌<◌, ◌≡◌, refl, some, List, [], ◌∷◌, ◌++◌, ◌==◌, arith, Bool-cases, inl, inr,
  append_assoc, length, length-append, codes, ◌≤◌,
}
use libultrabus.Json.{escape_char, escape_string, to_json, head}
use libultrabus.Json.Reader.{read_char, read_string}

abbrev pub AllBytes : List ℕ → Type 0
AllBytes [] = Unit {0}
AllBytes (ch ∷ chs) = (ch < 256) × AllBytes chs

read_char-escape_char :
    (ch : ℕ) (rest : List ℕ) → ch < 256 → read_char (escape_char ch ++ rest) ≡ some (ch, rest)
unfolding read_char escape_char
read_char-escape_char ch rest h = ground arith

read_string-step :
    (fuel : ℕ) (text : List ℕ) {ch : ℕ} {rest chs end : List ℕ}
    → read_char text ≡ some (ch, rest)
    → read_string fuel rest ≡ some (chs, end)
    → read_string (suc fuel) text ≡ some (ch ∷ chs, end)
unfolding read_string
read_string-step fuel [] h k = unfold read_char in cc
read_string-step fuel (c ∷ text) h k = elim (Bool-cases (c == b'"')) [
  | inl e ↦ unfold read_char in ground arith
  | inr e ↦ rw (read_string, e, h, k)
]

read_string-quote : (fuel : ℕ) (rest : List ℕ) → read_string fuel (b'"' ∷ rest) ≡ some ([], rest)
unfolding read_string
read_string-quote zero rest = refl
read_string-quote (suc fuel) rest = refl

pub read_string-escape_string_long :
    (fuel : ℕ) (s rest : List ℕ)
    → AllBytes s
    → length s ≤ fuel
    → read_string fuel (escape_string s ++ b'"' ∷ rest) ≡ some (s, rest)
unfolding escape_string
read_string-escape_string_long fuel [] rest h k = read_string-quote fuel rest
read_string-escape_string_long zero (ch ∷ chs) rest h k = absurd (omega arith)
read_string-escape_string_long (suc fuel) (ch ∷ chs) rest h k = rw append_assoc (
    read_string-step fuel _ (read_char-escape_char ch _ h.0)
      (read_string-escape_string_long fuel chs rest h.1 (omega arith)))

-- A JSON reader takes from the text of any bytes exactly these bytes back, and stops at the quote
-- that to_json writes behind them.
pub read_string-escape_string :
    (s rest : List ℕ)
    → AllBytes s
    → read_string (length s) (escape_string s ++ b'"' ∷ rest) ≡ some (s, rest)
read_string-escape_string s rest h =
    read_string-escape_string_long (length s) s rest h (omega arith)

escape_char-lengthens : (ch : ℕ) → 0 < length (escape_char ch)
unfolding escape_char
escape_char-lengthens ch = ground arith

length-le-length-escape_string : (s : List ℕ) → length s ≤ length (escape_string s)
unfolding escape_string
length-le-length-escape_string [] = omega arith
length-le-length-escape_string (ch ∷ chs) = omega (
  arith,
  length-append (escape_char ch) (escape_string chs),
  escape_char-lengthens ch,
  length-le-length-escape_string chs,
)

-- With as much fuel as there are characters.
pub read_string-quoted :
    (s rest : List ℕ)
    → AllBytes s
    → let text = escape_string s ++ b'"' ∷ rest in read_string (length text) text ≡ some (s, rest)
read_string-quoted s rest h =
    read_string-escape_string_long _ s rest h (
      omega
        (arith, length-append (escape_string s) (b'"' ∷ rest), length-le-length-escape_string s))

-- The JSON text of a string of bytes is a text that only depends on the type code, and then what a
-- JSON reader takes for a string of exactly these bytes, and the closing brace.
pub to_json-read_string :
    (code : ℕ) (s : List ℕ)
    → AllBytes s
    → (text : List ℕ) × (to_json code s ≡ head code ++ text)
      × (read_string (length s) text ≡ some (s, b'}' ∷ []))
unfolding to_json
to_json-read_string code s h =
    (escape_string s ++ codes "\"}", refl, read_string-escape_string s (b'}' ∷ []) h)
