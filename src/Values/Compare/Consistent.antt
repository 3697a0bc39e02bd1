-- ===== src/Values/Compare/Consistent.antt =====
-- operator<=> against operator==.
use Prim.Native.Nat.{Ordering}
use mathlib.Core.Bool.{false≢true}
use libultrabus.Common.{
  suc, ℕ, Bool, true, false, not, ◌||◌, ◌≡◌, refl, ap, Option, none, some, ◌==◌, ==_iff, same,
  arith, List, Bool-cases, inl, inr,
}
use libultrabus.Common.Int.{ℤ}
use libultrabus.Numbers.{equal, order}
use libultrabus.Values.{Basic, Value, Values, Entries, Exception, Result, ok, throw, char_at}
use libultrabus.Values.Assign.{unwrapped}
use libultrabus.Values.Dicts.Keys.{less_text}
use libultrabus.Values.Compare.{
  Reals, flip, order_text, strip, size, or_else, equal_basic, order_basic, against_basic,
  against_array, against_struct, against_dict, order_against_basic, order_against_array,
  order_against_struct, order_against_dict, equal_values, equal_members, equal_entries,
  order_values, order_members, order_entries,
}

-- Doubles that are equivalent for operator<=> are equal for operator==, as in C++.
pub record Agree (c : Reals) : Type 0 where
  pub real_agree : (r q : ℕ) → c.order_real r q ≡ some Ordering.eq → c.equal_real r q ≡ true
  pub mixed_agree :
      (x : ℤ) (r : ℕ) → c.order_mixed x r ≡ some Ordering.eq → c.equal_mixed x r ≡ true

is_equivalent : Result (Option Ordering) → Bool
is_equivalent (ok (some o)) = true
is_equivalent r = false

none_eq : ◌≡◌ {A = Result (Option Ordering)} (ok none) (ok (some Ordering.eq)) → ⊥
unfolding is_equivalent
none_eq h = false≢true (ap is_equivalent h)

thrown_eq :
    {e : Exception} → ◌≡◌ {A = Result (Option Ordering)} (throw e) (ok (some Ordering.eq)) → ⊥
unfolding is_equivalent
thrown_eq h = false≢true (ap is_equivalent h)

inner : {o : Option Ordering} → Result.ok o ≡ ok (some Ordering.eq) → o ≡ some Ordering.eq
inner h = cc

or_else_equivalent :
    (p q : Result (Option Ordering))
    → or_else p q ≡ ok (some Ordering.eq)
    → (p ≡ ok (some Ordering.eq)) × (q ≡ ok (some Ordering.eq))
or_else_equivalent (ok (some Ordering.eq)) q h = (refl, h)
or_else_equivalent (ok (some Ordering.lt)) q h = absurd (cc)
or_else_equivalent (ok (some Ordering.gt)) q h = absurd (cc)
or_else_equivalent (ok none) q h = absurd (cc)
or_else_equivalent (throw e) q h = absurd (cc)

some_inj : {x y : Ordering} → Option.some x ≡ some y → x ≡ y
some_inj h = cc

flip_eq : (o : Option Ordering) → flip o ≡ some Ordering.eq → o ≡ some Ordering.eq
flip_eq none h = cc
flip_eq (some Ordering.lt) h = cc
flip_eq (some Ordering.eq) h = refl
flip_eq (some Ordering.gt) h = cc

order_text-same : (s t : List ℕ) → order_text s t ≡ Ordering.eq → same s t ≡ true
unfolding order_text less_text
order_text-same s t h = elim (Bool-cases (same s t)) [ inl e ↦ e | inr e ↦ absurd (ground arith) ]

module _ (c : Reals) (a : Agree c) where
  basic_consistent : (x y : Basic) → order_basic c x y ≡ some Ordering.eq → equal_basic c x y ≡ true
  unfolding order_basic equal_basic order equal
  basic_consistent (Basic.number k x) (Basic.number l y) h = ground arith
  basic_consistent (Basic.number k x) (Basic.real r) h = ground (arith, a.mixed_agree x r)
  basic_consistent (Basic.real r) (Basic.number l y) h =
      ground (arith, a.mixed_agree y r, flip_eq (c.order_mixed y r))
  basic_consistent (Basic.real r) (Basic.real q) h = a.real_agree r q h
  basic_consistent (Basic.text t s) (Basic.text u r) h = order_text-same s r (some_inj h)
  basic_consistent x y h = absurd (cc)

  -- What the loops have shown: the members are equal, and as many.
  array_consistent :
      (s : List ℕ) (xs : Values) (w : Value)
      → ((ys : Values)
          → order_members c xs ys ≡ ok (some Ordering.eq)
          → (equal_members c xs ys ≡ ok true) × (size xs ≡ size ys))
      → order_against_array c s (order_members c xs) w ≡ ok (some Ordering.eq)
      → against_array c s (size xs) (equal_members c xs) w ≡ ok true
  array_consistent s xs (Value.array r ys) loop h = elim (Bool-cases (same s r)) [
    | inl e ↦ (let (p, q) = loop ys (rw e at h) in rw (e, (==_iff (size xs) (size ys)).1 q) p)
    | inr e ↦ absurd (none_eq (rw e at h))
  ]
  array_consistent s xs (Value.basic b) loop h = absurd (none_eq h)
  array_consistent s xs (Value.struct r ys) loop h = absurd (none_eq h)
  array_consistent s xs (Value.dict r fs) loop h = absurd (none_eq h)
  array_consistent s xs (Value.variant v) loop h = absurd (none_eq h)

  struct_consistent :
      (s : List ℕ) (xs : Values) (w : Value)
      → ((ys : Values)
          → order_members c xs ys ≡ ok (some Ordering.eq)
          → (equal_members c xs ys ≡ ok true) × (size xs ≡ size ys))
      → order_against_struct c s (size xs) (order_members c xs) w ≡ ok (some Ordering.eq)
      → against_struct c s (size xs) (equal_members c xs) w ≡ ok true
  struct_consistent s xs (Value.struct r ys) loop h =
      elim (Bool-cases (not (same s r) || not (size xs == size ys))) [
        | inl e ↦ absurd (none_eq (rw e at h))
        | inr e ↦ rw e (loop ys (rw e at h)).0
      ]
  struct_consistent s xs (Value.basic b) loop h = absurd (none_eq h)
  struct_consistent s xs (Value.array r ys) loop h = absurd (none_eq h)
  struct_consistent s xs (Value.dict r fs) loop h = absurd (none_eq h)
  struct_consistent s xs (Value.variant v) loop h = absurd (none_eq h)

  dict_consistent :
      (s : List ℕ) (es : Entries) (w : Value)
      → ((fs : Entries)
          → order_entries c es fs ≡ ok (some Ordering.eq)
          → equal_entries c es fs ≡ ok true)
      → order_against_dict c s (order_entries c es) w ≡ ok (some Ordering.eq)
      → against_dict c s (equal_entries c es) w ≡ ok true
  dict_consistent s es (Value.dict r fs) loop h = elim (Bool-cases (char_at s 2 == char_at r 2)) [
    | inl k ↦ elim (Bool-cases (same s r)) [
      | inl e ↦ rw (k, e) (loop fs (rw (k, e) at h))
      | inr e ↦ absurd (none_eq (rw (k, e) at h))
    ]
    | inr k ↦ absurd (thrown_eq (rw k at h))
  ]
  dict_consistent s es (Value.basic b) loop h = absurd (none_eq h)
  dict_consistent s es (Value.array r ys) loop h = absurd (none_eq h)
  dict_consistent s es (Value.struct r ys) loop h = absurd (none_eq h)
  dict_consistent s es (Value.variant v) loop h = absurd (none_eq h)

  against_basic_consistent :
      (b : Basic) (w : Value)
      → order_against_basic c b w ≡ ok (some Ordering.eq)
      → against_basic c b w ≡ ok true
  unfolding order_against_basic against_basic
  against_basic_consistent b (Value.basic d) h = ap ok (basic_consistent b d (inner h))
  against_basic_consistent b (Value.array r ys) h = absurd (none_eq h)
  against_basic_consistent b (Value.struct r ys) h = absurd (none_eq h)
  against_basic_consistent b (Value.dict r fs) h = absurd (none_eq h)
  against_basic_consistent b (Value.variant v) h = absurd (none_eq h)

  mutual
    unfolding equal_values order_values

    consistent :
        (v w : Value) → order_values c v w ≡ ok (some Ordering.eq) → equal_values c v w ≡ ok true
    consistent (Value.basic b) w h = against_basic_consistent b (strip w) h
    consistent (Value.array s xs) w h = array_consistent s xs (strip w) (members_consistent xs) h
    consistent (Value.struct s xs) w h = struct_consistent s xs (strip w) (members_consistent xs) h
    consistent (Value.dict s es) w h = dict_consistent s es (strip w) (entries_consistent es) h
    consistent (Value.variant v) w h = consistent v (unwrapped w) h

    members_consistent :
        (xs ys : Values)
        → order_members c xs ys ≡ ok (some Ordering.eq)
        → (equal_members c xs ys ≡ ok true) × (size xs ≡ size ys)
    members_consistent Values.nil Values.nil h = (refl, refl)
    members_consistent Values.nil (Values.cons y ys) h = absurd (cc)
    members_consistent (Values.cons x xs) Values.nil h = absurd (cc)
    members_consistent (Values.cons x xs) (Values.cons y ys) h =
        let (p, q) = or_else_equivalent (order_values c x y) (order_members c xs ys) h in
        let (e, n) = members_consistent xs ys q in (rw (consistent x y p) e, ap suc n)

    entries_consistent :
        (es fs : Entries)
        → order_entries c es fs ≡ ok (some Ordering.eq)
        → equal_entries c es fs ≡ ok true
    entries_consistent Entries.end Entries.end h = refl
    entries_consistent Entries.end (Entries.entry j w fs) h = absurd (cc)
    entries_consistent (Entries.entry k v es) Entries.end h = absurd (cc)
    entries_consistent (Entries.entry k v es) (Entries.entry j w fs) h =
        let (p, r) = or_else_equivalent (ok (order_basic c k j)) _ h in
        let (q, t) = or_else_equivalent (order_values c v w) (order_entries c es fs) r in
        rw (basic_consistent k j (inner p), consistent v w q) (entries_consistent es fs t)

-- Two values of any classes that are equivalent for operator<=> are equal for operator==, if this is
-- so for the doubles in them.
pub order_values-equal_values :
    (c : Reals) (a : Agree c) (v w : Value)
    → order_values c v w ≡ ok (some Ordering.eq)
    → equal_values c v w ≡ ok true
order_values-equal_values c a v w h = consistent c a v w h
