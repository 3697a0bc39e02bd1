-- ===== src/Json/Decimal.antt =====
-- The decimal text of a number, which is what std::to_string makes of an integer, and how it is read.
use libultrabus.Common.{
  ℕ, zero, suc, ◌+◌, ◌-◌, ◌*◌, ◌/◌, ◌%◌, ◌≤◌, ◌<◌, ◌≡◌, refl, Bool, true, false, ◌&&◌, ◌||◌, List,
  [], ◌∷◌, ◌++◌, ltb, leb, if◌then◌else◌, Bool-cases, inl, inr, same, arith, same, Bool-cases, inl,
  inr,
}
use libultrabus.Common.Int.{ℤ, pos, negsuc}

-- One digit is left out of the fuel, so that `decimal n` has enough of it.
unfoldable pub digits : ℕ → ℕ → List ℕ
digits zero n = (n % 10 + b'0') ∷ []
digits (suc fuel) n =
    let more = digits fuel (n / 10) in
    if ltb n 10 then (n + b'0') ∷ [] else more ++ (n % 10 + b'0') ∷ []

unfoldable pub decimal : ℕ → List ℕ
unfolding digits
decimal n = digits n n

-- std::to_string
unfoldable pub to_text : ℤ → List ℕ
unfolding decimal
to_text (pos n) = decimal n
to_text (negsuc n) = b'-' ∷ decimal (suc n)

abbrev pub is_digit : ℕ → Bool
is_digit c = leb b'0' c && leb c b'9'

abbrev pub all_digits : List ℕ → Bool
all_digits [] = true
all_digits (c ∷ cs) = is_digit c && all_digits cs

-- The first digit is not 0.
abbrev pub leads : List ℕ → Bool
leads [] = false
leads (c ∷ cs) = ltb b'0' c

-- A number of JSON has no leading zero.
unfoldable pub is_decimal : List ℕ → Bool
unfolding same
is_decimal cs = all_digits cs && (leads cs || same cs (b'0' ∷ []))

unfoldable pub number_from : ℕ → List ℕ → ℕ
number_from acc [] = acc
number_from acc (c ∷ cs) = number_from (acc * 10 + (c - b'0')) cs

number_from-append :
    (acc c : ℕ) (cs : List ℕ)
    → number_from acc (cs ++ c ∷ []) ≡ number_from acc cs * 10 + (c - b'0')
unfolding number_from
number_from-append acc c [] = refl
number_from-append acc c (d ∷ cs) = number_from-append (acc * 10 + (d - b'0')) c cs

all_digits-append :
    (c : ℕ) (cs : List ℕ) → all_digits (cs ++ c ∷ []) ≡ (all_digits cs && is_digit c)
all_digits-append c [] = ground arith
all_digits-append c (d ∷ cs) = ground (arith, all_digits-append c cs)

leads-append : (cs ds : List ℕ) → leads cs ≡ true → leads (cs ++ ds) ≡ true
leads-append [] ds h = cc
leads-append (c ∷ cs) ds h = h

all_digits-digits : (fuel n : ℕ) → all_digits (digits fuel n) ≡ true
unfolding digits
all_digits-digits zero n = ground arith
all_digits-digits (suc fuel) n = elim (Bool-cases (ltb n 10)) [
  | inl e ↦ rw e (ground arith)
  | inr e ↦
      rw
        (
          e,
          all_digits-append (n % 10 + b'0') (digits fuel (n / 10)),
          all_digits-digits fuel (n / 10),
        )
        (ground arith)
]

leads-digits : (fuel n : ℕ) → 0 < n → n ≤ fuel → leads (digits fuel n) ≡ true
unfolding digits
leads-digits zero n h k = absurd (omega arith)
leads-digits (suc fuel) n h k = elim (Bool-cases (ltb n 10)) [
  | inl e ↦ rw e (ground arith)
  | inr e ↦ rw e (
      leads-append (digits fuel (n / 10)) _
        (leads-digits fuel (n / 10) (ground arith) (ground arith)))
]

number_from-digits : (fuel n : ℕ) → n ≤ fuel → number_from 0 (digits fuel n) ≡ n
unfolding digits
number_from-digits zero n k = unfold number_from in omega arith
number_from-digits (suc fuel) n k = elim (Bool-cases (ltb n 10)) [
  | inl e ↦ rw e (unfold number_from in omega arith)
  | inr e ↦
      rw
        (
          e,
          number_from-append 0 (n % 10 + b'0') (digits fuel (n / 10)),
          number_from-digits fuel (n / 10) (ground arith),
        )
        (omega arith)
]

pub decimal-is_decimal : (n : ℕ) → is_decimal (decimal n) ≡ true
unfolding is_decimal decimal
decimal-is_decimal zero = unfold digits in refl
decimal-is_decimal (suc n) =
    rw (all_digits-digits (suc n) (suc n), leads-digits (suc n) (suc n) (omega arith) (omega arith))
      refl

pub number_from-decimal : (n : ℕ) → number_from 0 (decimal n) ≡ n
unfolding decimal
number_from-decimal n = number_from-digits n n (omega arith)

pub all_digits-decimal : (n : ℕ) → all_digits (decimal n) ≡ true
unfolding decimal
all_digits-decimal n = all_digits-digits n n
