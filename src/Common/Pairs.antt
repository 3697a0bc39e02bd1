-- ===== src/Common/Pairs.antt =====
-- std::map from a pair of texts to a callback: the signal callbacks of an object proxy by interface and
-- signal, and those of the standard interfaces by bus name and object path. Only the map matters.
use Prim.Native.String.{String}
use text.Mathlib.Text.{◌==◌ as str_eq}
use text.Mathlib.TextPositions.{eq_refl}
use text.Mathlib.TextEquality.{eq_iff}
use libultrabus.Common.{
  ℕ, ◌≡◌, refl, Bool, true, false, ◌&&◌, Option, none, some, List, [], ◌∷◌, if◌then◌else◌, arith,
  ap, Bool-cases, inl, inr,
}

pub record Entry : Type 0 where
  pub first : String
  pub second : String
  pub callback : ℕ

abbrev pub is_key : String → String → Entry → Bool
is_key first second e = str_eq e.first first && str_eq e.second second

unfoldable pub find_callback : String → String → List Entry → Option ℕ
find_callback first second [] = none
find_callback first second (e ∷ es) =
    let rest = find_callback first second es in
    if is_key first second e then some e.callback else rest

unfoldable pub erase_callback : String → String → List Entry → List Entry
erase_callback first second [] = []
erase_callback first second (e ∷ es) =
    let rest = erase_callback first second es in if is_key first second e then rest else e ∷ rest

-- `emplace` of a new key, and the assignment to that of an old one.
unfoldable pub put_callback : String → String → ℕ → List Entry → List Entry
unfolding erase_callback
put_callback first second cb es =
    record { first = first; second = second; callback = cb } ∷ erase_callback first second es

pub find_callback-erase_callback :
    (i s : String) (es : List Entry) → find_callback i s (erase_callback i s es) ≡ none
unfolding find_callback erase_callback
find_callback-erase_callback i s [] = refl
find_callback-erase_callback i s (e ∷ es) = elim (Bool-cases (is_key i s e)) [
  | inl h ↦ rw (h) (find_callback-erase_callback i s es)
  | inr h ↦ rw (h, h) (find_callback-erase_callback i s es)
]

keys_differ :
    (i s j t : String) (e : Entry)
    → (str_eq i j && str_eq s t) ≡ false
    → is_key i s e ≡ true
    → is_key j t e ≡ false
keys_differ i s j t e d h =
    let a = eq_iff e.first i in
    let b = eq_iff e.second s in
    let p = ap (λ x. str_eq x j) (a.0 (ground arith)) in
    let q = ap (λ x. str_eq x t) (b.0 (ground arith)) in ground arith

pub find_callback-erase_others :
    (i s j t : String) (es : List Entry)
    → (str_eq i j && str_eq s t) ≡ false
    → find_callback j t (erase_callback i s es) ≡ find_callback j t es
unfolding find_callback erase_callback
find_callback-erase_others i s j t [] d = refl
find_callback-erase_others i s j t (e ∷ es) d = elim (Bool-cases (is_key i s e)) [
  | inl h ↦ rw (h, keys_differ i s j t e d h) (find_callback-erase_others i s j t es d)
  | inr h ↦ rw (h) (
      ap (λ o. if is_key j t e then some e.callback else o)
        (find_callback-erase_others i s j t es d))
]

pub find_callback-put_callback :
    (i s : String) (cb : ℕ) (es : List Entry) → find_callback i s (put_callback i s cb es) ≡ some cb
unfolding find_callback put_callback
find_callback-put_callback i s cb es = rw (eq_refl i, eq_refl s) refl

pub find_callback-put_others :
    (i s j t : String) (cb : ℕ) (es : List Entry)
    → (str_eq i j && str_eq s t) ≡ false
    → find_callback j t (put_callback i s cb es) ≡ find_callback j t es
unfolding find_callback put_callback
find_callback-put_others i s j t cb es d = rw (d) (find_callback-erase_others i s j t es d)
