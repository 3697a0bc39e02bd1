-- ===== src/Messages/Document/Broken.antt =====
-- The JSON text of an error message, whose name is not closed by a quote.
use libultrabus.Common.{
  ℕ, zero, suc, ◌≡◌, refl, sym, some, none, List, [], ◌∷◌, ◌++◌, codes, append_assoc, subst, length,
  arith,
}
use libultrabus.Values.{Values}
use libultrabus.Json.Reader.{read_string}
use libultrabus.Json.Faithful.{read_string-quoted}
use libultrabus.Json.Document.{read}
use libultrabus.Values.Texts.Described.{AllPlain}
use libultrabus.Values.Texts.Read.{escape_string-plain, AllPlain-AllBytes}
use libultrabus.Messages.Document.{MessageType, Header, type_text, ended, fields_text, message_json}

AllPlain-append : (xs ys : List ℕ) → AllPlain xs → AllPlain ys → AllPlain (xs ++ ys)
AllPlain-append [] ys h k = k
AllPlain-append (x ∷ xs) ys h k = (h.0, h.1, AllPlain-append xs ys h.2 k)

-- The quote that closes the error's name is the one before the next field's name.
name_read :
    (name rest : List ℕ)
    → AllPlain name
    → let text = name ++ b',' ∷ b'"' ∷ rest in
      read_string (length text) text ≡ some (name ++ b',' ∷ [], rest)
name_read name rest p =
    let s = name ++ b',' ∷ [] in
    let plain : AllPlain s = AllPlain-append name (b',' ∷ []) p (refl, omega arith, tt) in
    let q = read_string-quoted s rest (AllPlain-AllBytes s plain) in
    rw (escape_string-plain s plain, append_assoc name (b',' ∷ []) (b'"' ∷ rest)) at q

-- A name without its closing quote.
open_name :
    (fuel : ℕ) (name rest : List ℕ)
    → AllPlain name
    → read fuel
        (codes "{\"type\":\"error\",\"error_name\":\"" ++ (name ++ b',' ∷ b'"' ∷ b'd' ∷ rest))
      ≡ none
unfolding read
open_name zero name rest p = refl
open_name (suc zero) name rest p = refl
open_name (suc (suc zero)) name rest p = refl
open_name (suc (suc (suc zero))) name rest p = refl
open_name (suc (suc (suc (suc zero)))) name rest p = refl
open_name (suc (suc (suc (suc (suc fuel))))) name rest p = rw (name_read name (b'd' ∷ rest) p) refl

fields_start :
    (real_text : ℕ → List ℕ) (h : Header) (args : Values)
    → (rest : List ℕ) × (fields_text real_text h args ≡ b',' ∷ b'"' ∷ b'd' ∷ rest)
unfolding fields_text
fields_start real_text h args = (_, refl)

-- The JSON text of an error message is never read, with any fuel, whatever its fields and arguments
-- are, if no character of its name is one that JSON escapes.
pub error-message_json :
    (fuel : ℕ) (real_text : ℕ → List ℕ) (h : Header) (args : Values)
    → h.type ≡ MessageType.error
    → AllPlain h.error_name
    → read fuel (message_json real_text h args) ≡ none
unfolding message_json
error-message_json fuel real_text h args e p =
    let (rest, q) = fields_start real_text h args in
    let text = λ (t : MessageType).
      codes "{\"type\":" ++ (type_text t h.error_name ++ ended t (fields_text real_text h args)) in
    subst (λ t. read fuel (text t) ≡ none) (sym e) (rw q (open_name fuel h.error_name rest p))
