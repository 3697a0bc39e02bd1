-- ===== src/Values/Compare/Symmetric.antt =====
-- operator== with its sides exchanged.
use libultrabus.Common.{ℕ, false, ◌≡◌, refl, sym, ap, ◌∙◌, ◌==◌, same, arith, List, [], ◌∷◌}
use libultrabus.Common.Int.{ℤ, pos, negsuc, ◌==ℤ◌}
use libultrabus.Numbers.{Kind, equal, convert, common}
use libultrabus.Values.{Basic, Value, Values, Entries, ok, char_at, is_variant}
use libultrabus.Values.Assign.{unwrapped}
use libultrabus.Values.Compare.{
  Reals, strip, size, and_then, equal_basic, equal_values, equal_members, equal_entries,
}

common_comm : (k l : Kind) → common k l ≡ common l k
common_comm k l = ground arith

==ℤ_comm : (a b : ℤ) → (a ==ℤ b) ≡ (b ==ℤ a)
==ℤ_comm (pos a) (pos b) = ground arith
==ℤ_comm (pos a) (negsuc b) = refl
==ℤ_comm (negsuc a) (pos b) = refl
==ℤ_comm (negsuc a) (negsuc b) = ground arith

==_comm : (a b : ℕ) → (a == b) ≡ (b == a)
==_comm a b = ground arith

same_comm : (s t : List ℕ) → same s t ≡ same t s
unfolding same
same_comm [] [] = refl
same_comm [] (y ∷ ys) = refl
same_comm (x ∷ xs) [] = refl
same_comm (x ∷ xs) (y ∷ ys) = rw (==_comm x y, same_comm xs ys)

equal_comm : (k l : Kind) (x y : ℤ) → equal k x l y ≡ equal l y k x
unfolding equal
equal_comm k l x y =
    rw (common_comm k l) (==ℤ_comm (convert (common l k) x) (convert (common l k) y))

strip-unwrapped : (v : Value) → strip (unwrapped v) ≡ strip v
strip-unwrapped (Value.basic b) = refl
strip-unwrapped (Value.array s xs) = refl
strip-unwrapped (Value.struct s xs) = refl
strip-unwrapped (Value.dict s es) = refl
strip-unwrapped (Value.variant v) = refl

strip-strip : (v : Value) → strip (strip v) ≡ strip v
strip-strip (Value.basic b) = refl
strip-strip (Value.array s xs) = refl
strip-strip (Value.struct s xs) = refl
strip-strip (Value.dict s es) = refl
strip-strip (Value.variant v) = strip-strip v

strip-is_variant : (v : Value) → is_variant (strip v) ≡ false
strip-is_variant (Value.basic b) = refl
strip-is_variant (Value.array s xs) = refl
strip-is_variant (Value.struct s xs) = refl
strip-is_variant (Value.dict s es) = refl
strip-is_variant (Value.variant v) = strip-is_variant v

module _ (c : Reals) where
  -- A variant on the right is as what it holds.
  right_unwrapped : (v w : Value) → equal_values c v (unwrapped w) ≡ equal_values c v w
  unfolding equal_values
  right_unwrapped (Value.basic b) w = rw (strip-unwrapped w)
  right_unwrapped (Value.array s xs) w = rw (strip-unwrapped w)
  right_unwrapped (Value.struct s xs) w = rw (strip-unwrapped w)
  right_unwrapped (Value.dict s es) w = rw (strip-unwrapped w)
  right_unwrapped (Value.variant v) w = right_unwrapped v (unwrapped w)

  right_stripped : (v w : Value) → equal_values c v (strip w) ≡ equal_values c v w
  unfolding equal_values
  right_stripped (Value.basic b) w = rw (strip-strip w)
  right_stripped (Value.array s xs) w = rw (strip-strip w)
  right_stripped (Value.struct s xs) w = rw (strip-strip w)
  right_stripped (Value.dict s es) w = rw (strip-strip w)
  right_stripped (Value.variant v) w =
      right_unwrapped v (strip w) ∙ right_stripped v w ∙ sym (right_unwrapped v w)

  left_stripped : (v w : Value) → equal_values c (strip v) w ≡ equal_values c v w
  unfolding equal_values
  left_stripped (Value.basic b) w = refl
  left_stripped (Value.array s xs) w = refl
  left_stripped (Value.struct s xs) w = refl
  left_stripped (Value.dict s es) w = refl
  left_stripped (Value.variant v) w = left_stripped v w ∙ sym (right_unwrapped v w)

  equal_basic_comm :
      ((r q : ℕ) → c.equal_real r q ≡ c.equal_real q r)
      → (a b : Basic) → equal_basic c a b ≡ equal_basic c b a
  unfolding equal_basic
  equal_basic_comm real_comm (Basic.number k x) (Basic.number l y) = equal_comm k l x y
  equal_basic_comm real_comm (Basic.number k x) (Basic.real r) = refl
  equal_basic_comm real_comm (Basic.number k x) (Basic.text u r) = refl
  equal_basic_comm real_comm (Basic.real r) (Basic.number l y) = refl
  equal_basic_comm real_comm (Basic.real r) (Basic.real q) = real_comm r q
  equal_basic_comm real_comm (Basic.real r) (Basic.text u s) = refl
  equal_basic_comm real_comm (Basic.text t s) (Basic.number l y) = refl
  equal_basic_comm real_comm (Basic.text t s) (Basic.real q) = refl
  equal_basic_comm real_comm (Basic.text t s) (Basic.text u r) = same_comm s r

  module _ (real_comm : (r q : ℕ) → c.equal_real r q ≡ c.equal_real q r) where
    mutual
      unfolding equal_values

      -- With no variant on the right.
      plain_symmetric :
          (v w : Value) → is_variant w ≡ false → equal_values c v w ≡ equal_values c w v
      plain_symmetric (Value.basic a) (Value.basic b) n = ap ok (equal_basic_comm real_comm a b)
      plain_symmetric (Value.basic a) (Value.array r ys) n = refl
      plain_symmetric (Value.basic a) (Value.struct r ys) n = refl
      plain_symmetric (Value.basic a) (Value.dict r fs) n = refl
      plain_symmetric (Value.array s xs) (Value.basic b) n = refl
      plain_symmetric (Value.array s xs) (Value.array r ys) n =
          rw (same_comm s r, ==_comm (size xs) (size ys), members_symmetric xs ys)
      plain_symmetric (Value.array s xs) (Value.struct r ys) n = refl
      plain_symmetric (Value.array s xs) (Value.dict r fs) n = refl
      plain_symmetric (Value.struct s xs) (Value.basic b) n = refl
      plain_symmetric (Value.struct s xs) (Value.array r ys) n = refl
      plain_symmetric (Value.struct s xs) (Value.struct r ys) n =
          rw (same_comm s r, ==_comm (size xs) (size ys), members_symmetric xs ys)
      plain_symmetric (Value.struct s xs) (Value.dict r fs) n = refl
      plain_symmetric (Value.dict s es) (Value.basic b) n = refl
      plain_symmetric (Value.dict s es) (Value.array r ys) n = refl
      plain_symmetric (Value.dict s es) (Value.struct r ys) n = refl
      plain_symmetric (Value.dict s es) (Value.dict r fs) n =
          rw (==_comm (char_at s 2) (char_at r 2), same_comm s r, entries_symmetric es fs)
      plain_symmetric (Value.variant v) w n =
          right_unwrapped v w ∙ plain_symmetric v w n ∙ right_unwrapped w (Value.variant v)
      plain_symmetric v (Value.variant w) n = absurd (cc)

      members_symmetric : (xs ys : Values) → equal_members c xs ys ≡ equal_members c ys xs
      members_symmetric Values.nil Values.nil = refl
      members_symmetric Values.nil (Values.cons y ys) = refl
      members_symmetric (Values.cons x xs) Values.nil = refl
      members_symmetric (Values.cons x xs) (Values.cons y ys) = rw (members_symmetric xs ys) (
          ap (λ r. and_then r (equal_members c ys xs))
            (sym (right_stripped x y)
              ∙ plain_symmetric x (strip y) (strip-is_variant y)
              ∙ left_stripped y x))

      entries_symmetric : (es fs : Entries) → equal_entries c es fs ≡ equal_entries c fs es
      entries_symmetric Entries.end Entries.end = refl
      entries_symmetric Entries.end (Entries.entry j w fs) = refl
      entries_symmetric (Entries.entry k v es) Entries.end = refl
      entries_symmetric (Entries.entry k v es) (Entries.entry j w fs) =
          rw (equal_basic_comm real_comm k j, entries_symmetric es fs)
            (ap (λ r. and_then (ok (equal_basic c j k)) (and_then r (equal_entries c fs es)))
              (sym (right_stripped v w)
                ∙ plain_symmetric v (strip w) (strip-is_variant w)
                ∙ left_stripped w v))

-- operator== gives the same result, or throws the same exception, with its sides exchanged, for two
-- values of any classes and variants of them, if it does so for doubles.
pub equal_values_comm :
    (c : Reals) (v w : Value)
    → ((r q : ℕ) → c.equal_real r q ≡ c.equal_real q r)
    → equal_values c v w ≡ equal_values c w v
equal_values_comm c v w h =
    sym (right_stripped c v w)
    ∙ plain_symmetric c h v (strip w) (strip-is_variant w)
    ∙ left_stripped c w v
