-- ===== src/Common/Quotes.antt =====
-- Texts that stand between quotes in a match rule.
use Prim.Native.String.{String}
use Prim.Native.String.{◌++◌ as concat}
use Prim.Native.Char.{code}
use text.Mathlib.TextLemmas.{nil-append, cons-append, append_cancel_left}
use libultrabus.Common.{ℕ, ◌≡◌, refl, sym, ap, ◌∙◌, false, ◌==◌, arith}

-- No quote stands in it.
abbrev pub HasNoQuote : String → Type 0
HasNoQuote String.[] = Unit {0}
HasNoQuote (String.◌∷◌ c s) = ((code c == b'\'') ≡ false) × HasNoQuote s

abbrev first : String → ℕ
first String.[] = 0
first (String.◌∷◌ c s) = code c

first_quote : (x : String) → first (concat "'" x) ≡ b'\''
first_quote x = ap first (cons-append "'" "" x)

-- A text up to its first quote, and behind it.
pub quote_splits :
    (a b x y : String)
    → HasNoQuote a
    → HasNoQuote b
    → concat a (concat "'" x) ≡ concat b (concat "'" y)
    → (a ≡ b) × (x ≡ y)
quote_splits String.[] String.[] x y h k e =
    (refl, append_cancel_left "'" x y (sym (nil-append _) ∙ e ∙ nil-append _))
quote_splits String.[] (String.◌∷◌ c b) x y h k e =
    let f = ap first (sym (nil-append _) ∙ e ∙ cons-append c b (concat "'" y)) in
    let g = first_quote x in absurd (ground arith)
quote_splits (String.◌∷◌ c a) String.[] x y h k e =
    let f = ap first (sym (nil-append _) ∙ sym e ∙ cons-append c a (concat "'" x)) in
    let g = first_quote y in absurd (ground arith)
quote_splits (String.◌∷◌ c a) (String.◌∷◌ d b) x y h k e =
    let e' = rw (cons-append c a (concat "'" x), cons-append d b (concat "'" y)) at e in
    let (p, q) = quote_splits a b x y h.1 k.1 (cc) in let r : c ≡ d = cc in (cc, q)
