-- ===== src/Tests/Json.antt =====
-- The JSON text of strings at concrete inputs.
use libultrabus.Common.{ℕ, ◌≡◌, refl, List, [], ◌∷◌, codes}
use libultrabus.Json.{escape_string}

-- A quote, a line feed, byte 1 and a letter.
abbrev awkward : List ℕ
awkward = b'"' ∷ 10 ∷ 1 ∷ b'x' ∷ []

awkward_escaped : escape_string awkward ≡ codes "\\\"\\n\\u0001x"
unfolding escape_string
awkward_escaped = refl
