-- ===== src/Common/Lists.antt =====
-- Texts as lists of bytes, and lists by index over the native numbers.
use Prim.Native.Nat.{ℕ, zero, suc, ◌+◌}
use Prim.Native.Char.{code}
use Prim.Native.String.{String}
use mathlib.Core.List.{List, [], ◌∷◌, ◌++◌}
use mathlib.Core.Path.{◌≡◌, refl, ap}
use mathlib.Core.Bool.{Bool, true, false, ◌&&◌}
use native.Mathlib.Omega.{arith}
use libultrabus.Common.Tests.{◌==◌}

-- The code points of a literal; these are its bytes when the text is ASCII.
abbrev pub codes : String → List ℕ
codes String.[] = []
codes (String.◌∷◌ c s) = code c ∷ codes s

abbrev pub length {ℓ} : {A : Type ℓ} → List A → ℕ
length [] = 0
length (x ∷ xs) = suc (length xs)

pub length-append {ℓ} : {A : Type ℓ} (xs ys : List A) → length (xs ++ ys) ≡ length xs + length ys
length-append [] ys = omega arith
length-append (x ∷ xs) ys = omega (arith, length-append xs ys)

-- std::string's operator==
unfoldable pub same : List ℕ → List ℕ → Bool
same [] [] = true
same [] (y ∷ ys) = false
same (x ∷ xs) [] = false
same (x ∷ xs) (y ∷ ys) = x == y && same xs ys

pub same→eq : (xs ys : List ℕ) → same xs ys ≡ true → xs ≡ ys
unfolding same
same→eq [] [] h = refl
same→eq [] (y ∷ ys) h = cc
same→eq (x ∷ xs) [] h = cc
same→eq (x ∷ xs) (y ∷ ys) h = ground (arith, same→eq xs ys)

pub same_refl : (xs : List ℕ) → same xs xs ≡ true
unfolding same
same_refl [] = refl
same_refl (x ∷ xs) = ground (arith, same_refl xs)

-- std::string's pop_back
abbrev pub drop_char : List ℕ → List ℕ
drop_char [] = []
drop_char (c ∷ []) = []
drop_char (c ∷ d ∷ cs) = c ∷ drop_char (d ∷ cs)

pub drop_char-append : (cs : List ℕ) (d : ℕ) → drop_char (cs ++ d ∷ []) ≡ cs
drop_char-append [] d = refl
drop_char-append (c ∷ []) d = refl
drop_char-append (c ∷ b ∷ cs) d = ap (λ r. c ∷ r) (drop_char-append (b ∷ cs) d)

-- `insert` before an index of at most the size, and `erase` of a range.
module _ {ℓ} {A : Type ℓ} where
  unfoldable pub insert_at : ℕ → A → List A → List A
  insert_at zero a xs = a ∷ xs
  insert_at (suc i) a [] = a ∷ []
  insert_at (suc i) a (x ∷ xs) = x ∷ insert_at i a xs

  unfoldable pub erase_at : ℕ → List A → List A
  erase_at i [] = []
  erase_at zero (x ∷ xs) = xs
  erase_at (suc i) (x ∷ xs) = x ∷ erase_at i xs

  -- From `first` on, `n` elements.
  unfoldable pub erase_range : ℕ → ℕ → List A → List A
  unfolding erase_at
  erase_range first zero xs = xs
  erase_range first (suc n) xs = erase_range first n (erase_at first xs)
