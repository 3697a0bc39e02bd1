-- ===== src/Values/Dicts/Keys.antt =====
-- The classes of keys: the integer types, and the three string types, whose operator<=> is that of
-- std::string.
use Prim.Native.Nat.{Ordering}
use libultrabus.Common.{
  ℕ, Bool, true, false, List, [], ◌∷◌, Option, none, some, ◌≡◌, refl, ◌==◌, ltb, if◌then◌else◌,
  arith,
}
use libultrabus.Common.Int.{ℤ, pos, negsuc, compare_ℤ}
use libultrabus.Numbers.{Kind}
use libultrabus.Values.{code, Text, Basic, code_of_text, code_of_kind}
use libultrabus.Values.Dicts.{KeyClass}
use libultrabus.Values.Dicts.Map.{IsOrder}
use libultrabus.Values.Dicts.Calls.{Recovers}

unfoldable pub less_number : ℤ → ℤ → Bool
less_number a b = elim (compare_ℤ a b) [ Ordering.lt ↦ true | _ ↦ false ]

unfoldable pub less_text : List ℕ → List ℕ → Bool
less_text [] [] = false
less_text [] (y ∷ ys) = true
less_text (x ∷ xs) [] = false
less_text (x ∷ xs) (y ∷ ys) = if ltb x y then true else if ltb y x then false else less_text xs ys

abbrev pub basic_number : Basic → Option ℤ
basic_number (Basic.number k v) = some v
basic_number b = none

abbrev pub basic_text : Basic → Option (List ℕ)
basic_text (Basic.text t s) = some s
basic_text b = none

abbrev pub number_keys : Kind → KeyClass ℤ
number_keys k = record {
  less = less_number;
  key_code = code_of_kind k;
  to_basic = Basic.number k;
  of_basic = basic_number;
}

abbrev pub text_keys : Text → KeyClass (List ℕ)
text_keys t = record {
  less = less_text;
  key_code = code_of_text t;
  to_basic = Basic.text t;
  of_basic = basic_text;
}

less_number_trans :
    (i j k : ℤ) → less_number i j ≡ true → less_number j k ≡ true → less_number i k ≡ true
unfolding less_number
less_number_trans (pos i) (pos j) (pos k) h g = ground arith
less_number_trans i j k h g = ground arith

less_number_total : (i j : ℤ) → less_number i j ≡ false → less_number j i ≡ false → i ≡ j
unfolding less_number
less_number_total (pos i) (pos j) h g = ground arith
less_number_total i j h g = ground arith

less_number_irrefl : (k : ℤ) → less_number k k ≡ false
unfolding less_number
less_number_irrefl (pos k) = ground arith
less_number_irrefl (negsuc k) = ground arith

less_text_trans :
    (xs ys zs : List ℕ) → less_text xs ys ≡ true → less_text ys zs ≡ true → less_text xs zs ≡ true
unfolding less_text
less_text_trans [] [] zs h g = absurd (cc)
less_text_trans [] (y ∷ ys) [] h g = absurd (cc)
less_text_trans [] (y ∷ ys) (z ∷ zs) h g = refl
less_text_trans (x ∷ xs) [] zs h g = absurd (cc)
less_text_trans (x ∷ xs) (y ∷ ys) [] h g = absurd (cc)
less_text_trans (x ∷ xs) (y ∷ ys) (z ∷ zs) h g = ground (arith, less_text_trans xs ys zs)

less_text_total : (xs ys : List ℕ) → less_text xs ys ≡ false → less_text ys xs ≡ false → xs ≡ ys
unfolding less_text
less_text_total [] [] h g = refl
less_text_total [] (y ∷ ys) h g = absurd (cc)
less_text_total (x ∷ xs) [] h g = absurd (cc)
less_text_total (x ∷ xs) (y ∷ ys) h g = ground (arith, less_text_total xs ys)

less_text_irrefl : (xs : List ℕ) → less_text xs xs ≡ false
unfolding less_text
less_text_irrefl [] = refl
less_text_irrefl (x ∷ xs) = ground (arith, less_text_irrefl xs)

pub number_keys-IsOrder : (k : Kind) → IsOrder (number_keys k)
number_keys-IsOrder k = record {
  irreflexive = less_number_irrefl;
  transitive = less_number_trans;
  total = less_number_total;
}

pub text_keys-IsOrder : (t : Text) → IsOrder (text_keys t)
text_keys-IsOrder t = record {
  irreflexive = less_text_irrefl;
  transitive = less_text_trans;
  total = less_text_total;
}

number-recovered :
    (k l : Kind) (v : ℤ)
    → (code_of_kind l == code_of_kind k) ≡ true
    → Basic.number k v ≡ Basic.number l v
number-recovered k l v h = ground arith

text-recovered :
    (t u : Text) (s : List ℕ)
    → (code_of_text u == code_of_text t) ≡ true
    → Basic.text t s ≡ Basic.text u s
text-recovered t u s h = ground arith

number_keys-recovered :
    (k : Kind) (b : Basic) (v : ℤ)
    → (code b == code_of_kind k) ≡ true
    → basic_number b ≡ some v
    → Basic.number k v ≡ b
number_keys-recovered k (Basic.number l u) v e h = ground (arith, number-recovered k l u)
number_keys-recovered k (Basic.real r) v e h = absurd (cc)
number_keys-recovered k (Basic.text t s) v e h = absurd (cc)

text_keys-recovered :
    (t : Text) (b : Basic) (s : List ℕ)
    → (code b == code_of_text t) ≡ true
    → basic_text b ≡ some s
    → Basic.text t s ≡ b
text_keys-recovered t (Basic.text u r) s e h = ground (arith, text-recovered t u r)
text_keys-recovered t (Basic.number k v) s e h = absurd (cc)
text_keys-recovered t (Basic.real r) s e h = absurd (cc)

pub number_keys-Recovers : (k : Kind) → Recovers (number_keys k)
number_keys-Recovers k = record { recovered = number_keys-recovered k }

pub text_keys-Recovers : (t : Text) → Recovers (text_keys t)
text_keys-Recovers t = record { recovered = text_keys-recovered t }
