-- ===== src/Values/Compare/Reflexive.antt =====
-- A value against itself, which is where the code answers without looking.
use libultrabus.Common.{true, ◌≡◌, refl, same_refl, ==_iff}
use libultrabus.Common.Int.{==ℤ_iff}
use libultrabus.Numbers.{convert, common}
use libultrabus.Values.{Basic, Value, Values, Entries, ok, char_at}
use libultrabus.Values.Compare.{
  Reals, size, equal_basic, equal_values, equal_members, equal_entries,
}

module _ (c : Reals) where
  -- No double in it is a NaN, which is not equal to itself.
  abbrev pub NoNanBasic : Basic → Type 0
  NoNanBasic (Basic.real r) = c.equal_real r r ≡ true
  NoNanBasic b = Unit {0}

  abbrev mutual
    pub NoNan : Value → Type 0
    NoNan (Value.basic b) = NoNanBasic b
    NoNan (Value.array s xs) = NoNans xs
    NoNan (Value.struct s xs) = NoNans xs
    NoNan (Value.dict s es) = NoNanEntries es
    NoNan (Value.variant v) = NoNan v

    pub NoNans : Values → Type 0
    NoNans Values.nil = Unit {0}
    NoNans (Values.cons x xs) = NoNan x × NoNans xs

    pub NoNanEntries : Entries → Type 0
    NoNanEntries Entries.end = Unit {0}
    NoNanEntries (Entries.entry k v es) = NoNanBasic k × NoNan v × NoNanEntries es

  equal_basic_refl : (b : Basic) → NoNanBasic b → equal_basic c b b ≡ true
  unfolding equal_basic
  equal_basic_refl (Basic.number k x) h = (==ℤ_iff (convert (common k k) x) _).1 refl
  equal_basic_refl (Basic.real r) h = h
  equal_basic_refl (Basic.text t s) h = same_refl s

  mutual
    unfolding equal_values

    reflexive : (v : Value) → NoNan v → equal_values c v v ≡ ok true
    reflexive (Value.basic b) h = rw (equal_basic_refl b h)
    reflexive (Value.array s xs) h =
        rw (same_refl s, (==_iff (size xs) (size xs)).1 refl) (members_reflexive xs h)
    reflexive (Value.struct s xs) h =
        rw (same_refl s, (==_iff (size xs) (size xs)).1 refl) (members_reflexive xs h)
    reflexive (Value.dict s es) h =
        rw ((==_iff (char_at s 2) (char_at s 2)).1 refl, same_refl s) (entries_reflexive es h)
    reflexive (Value.variant v) h = reflexive v h

    members_reflexive : (xs : Values) → NoNans xs → equal_members c xs xs ≡ ok true
    members_reflexive Values.nil h = refl
    members_reflexive (Values.cons x xs) h = rw (reflexive x h.0) (members_reflexive xs h.1)

    entries_reflexive : (es : Entries) → NoNanEntries es → equal_entries c es es ≡ ok true
    entries_reflexive Entries.end h = refl
    entries_reflexive (Entries.entry k v es) h =
        rw (equal_basic_refl k h.0, reflexive v h.1) (entries_reflexive es h.2)

-- For operator== a value without a NaN is equal to any copy of itself, so that the shortcut for one
-- and the same object gives what the comparison of the members would give.
pub equal_values_refl : (c : Reals) (v : Value) → NoNan c v → equal_values c v v ≡ ok true
equal_values_refl c v h = reflexive c v h
