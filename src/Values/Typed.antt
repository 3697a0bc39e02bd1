-- ===== src/Values/Typed.antt =====
-- What holds of every value: its members have the types that its signature says, numbers are in the
-- range of their types, object paths and signatures are valid, and no variant holds a variant.
use libultrabus.Common.{ℕ, List, [], ◌∷◌, ◌++◌, ◌≡◌, Bool, ◌==◌, ◌||◌, true, false}
use libultrabus.Numbers.{InRange}
use libultrabus.Values.{Text, Basic, Value, Values, Entries, Libdbus, signature, code, is_variant}

-- The signatures of the members, one after the other.
abbrev pub signatures : Values → List ℕ
signatures Values.nil = []
signatures (Values.cons x xs) = signature x ++ signatures xs

abbrev pub is_basic_code : ℕ → Bool
is_basic_code c =
    c == b'b'
    || c == b'y'
    || c == b'n'
    || c == b'q'
    || c == b'i'
    || c == b'u'
    || c == b'x'
    || c == b't'
    || c == b'd'
    || c == b's'
    || c == b'o'
    || c == b'g'
    || c == b'h'

-- What is used of dbus_signature_validate_single: what it takes is one complete type, and so is the
-- type of an array's elements, so that nothing follows the code of a basic type or of a variant; and
-- "as" is valid.
pub record Laws (lib : Libdbus) : Type 0 where
  pub basic_alone :
      (c : ℕ) (cs : List ℕ)
      → is_basic_code c ≡ true
      → lib.valid_single (b'a' ∷ c ∷ cs) ≡ true
      → cs ≡ []
  pub single_alone :
      (c : ℕ) (cs : List ℕ)
      → is_basic_code c || c == b'v' ≡ true
      → lib.valid_single (c ∷ cs) ≡ true
      → cs ≡ []
  pub strings_valid : lib.valid_single (b'a' ∷ b's' ∷ []) ≡ true

module _ (lib : Libdbus) where
  abbrev pub IsTypedBasic : Basic → Type 0
  IsTypedBasic (Basic.number k v) = InRange k v
  IsTypedBasic (Basic.real r) = Unit {0}
  IsTypedBasic (Basic.text Text.string s) = Unit {0}
  IsTypedBasic (Basic.text Text.opath s) = lib.valid_path s ≡ true
  IsTypedBasic (Basic.text Text.type_signature s) = lib.valid_signature s ≡ true

  abbrev mutual
    pub IsTyped : Value → Type 0
    IsTyped (Value.basic b) = IsTypedBasic b
    IsTyped (Value.array s xs) =
        (e : List ℕ) × (s ≡ b'a' ∷ e) × (lib.valid_single s ≡ true) × EachTyped e xs
    IsTyped (Value.struct s xs) = (s ≡ b'(' ∷ (signatures xs ++ b')' ∷ [])) × AllTyped xs
    IsTyped (Value.dict s es) =
        (k : ℕ) × (e : List ℕ) × (s ≡ b'a' ∷ b'{' ∷ k ∷ (e ++ b'}' ∷ []))
        × (lib.valid_single e ≡ true)
        × EntriesTyped k e es
    IsTyped (Value.variant v) = (is_variant v ≡ false) × IsTyped v

    -- Every member has the signature `e`.
    pub EachTyped : List ℕ → Values → Type 0
    EachTyped e Values.nil = Unit {0}
    EachTyped e (Values.cons x xs) = (signature x ≡ e) × IsTyped x × EachTyped e xs

    pub AllTyped : Values → Type 0
    AllTyped Values.nil = Unit {0}
    AllTyped (Values.cons x xs) = IsTyped x × AllTyped xs

    pub EntriesTyped : ℕ → List ℕ → Entries → Type 0
    EntriesTyped k e Entries.end = Unit {0}
    EntriesTyped k e (Entries.entry b x es) =
        (code b ≡ k) × IsTypedBasic b × (signature x ≡ e) × IsTyped x × EntriesTyped k e es
