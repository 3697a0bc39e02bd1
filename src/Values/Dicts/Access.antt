-- ===== src/Values/Dicts/Access.antt =====
-- get of a dbus_dict after set, and after reset (int).
use libultrabus.Common.{
  drop_char-append, ℕ, Bool, true, false, List, [], ◌∷◌, ◌≡◌, ◌≢◌, refl, sym, ap, ◌∙◌, ◌==◌, ◌||◌,
  same, same_refl, Bool-cases, inl, inr,
}
use libultrabus.Values.{Value, ok, Libdbus, signature, is_variant, char_at}
use libultrabus.Values.Typed.{IsTyped, EntriesTyped, is_basic_code, Laws}
use mathlib.Core.Bool.{false≢true}
use libultrabus.Values.Assign.{Doubles, unwrapped}
use libultrabus.Values.Assign.Copy.{SameClass, assign_same}
use libultrabus.Values.Dicts.{
  KeyClass, Dict, freeze, of_items, reset_code, value_signature, set, get, get_found,
}
use libultrabus.Values.Dicts.Sequence.{Holds, value_known, first_alone}
use libultrabus.Values.Dicts.Map.{IsOrder, find-put, find-put_other}

or_right : (a b : Bool) → b ≡ true → a || b ≡ true
or_right true b h = refl
or_right false b h = h

unwrapped_plain : (v : Value) → is_variant v ≡ false → unwrapped v ≡ v
unwrapped_plain (Value.variant w) h = absurd (cc)
unwrapped_plain (Value.basic b) h = refl
unwrapped_plain (Value.array s xs) h = refl
unwrapped_plain (Value.struct s xs) h = refl
unwrapped_plain (Value.dict s es) h = refl

SameClass-plain : (v w : Value) → SameClass v w → is_variant w ≡ false → is_variant v ≡ false
SameClass-plain (Value.variant v) (Value.variant w) s h = h
SameClass-plain (Value.variant v) w s h = absurd s
SameClass-plain v w s h = refl

variant_known : (v : Value) → is_variant v ≡ true → signature v ≡ b'v' ∷ []
variant_known (Value.variant v) h = refl
variant_known v h = absurd (cc)

module _ (lib : Libdbus) (dbl : Doubles) {K : Type 0} (c : KeyClass K) where
  -- What `get` makes of a value that was stored as it is.
  found_plain :
      (sig : List ℕ) (v dest : Value)
      → same (signature v) sig ≡ true
      → SameClass dest v
      → signature dest ≡ signature v
      → IsTyped lib v
      → get_found c dbl sig v dest ≡ ok (v, true)
  found_plain sig v dest h s e t = rw (
    or_right (is_variant dest) (same (signature dest) sig) (rw e h),
    assign_same lib dbl dest v s e t,
  )

  -- What `get` makes of a value that was stored in a variant.
  found_wrapped :
      (sig : List ℕ) (v dest : Value)
      → same (signature v) sig ≡ false
      → is_variant v ≡ false
      → SameClass dest v
      → signature dest ≡ signature v
      → IsTyped lib v
      → get_found c dbl sig (Value.variant v) dest ≡ ok (v, true)
  found_wrapped sig v dest h n s e t =
      let apart : same (signature dest) sig ≡ false = rw e h in
      let equal : same (signature dest) (signature v) ≡ true = rw e (same_refl (signature v)) in
      rw (SameClass-plain dest v s n, apart, equal, assign_same lib dbl dest v s e t)

  -- A value that is no variant, or has the signature of the values, is stored as itself or in a
  -- variant.
  stored_variant :
      (laws : Laws lib) (e : List ℕ) (v : Value) (d : Dict K)
      → Holds lib c e d
      → same (signature v) (value_signature d.sig) ≡ false
      → (char_at (value_signature d.sig) 0 == b'v') ≡ true
      → is_variant v ≡ false
  stored_variant laws e v d h a q = elim (Bool-cases (is_variant v)) [
    | inr n ↦ n
    | inl y ↦
        (let known = value_known lib c e d.sig h.0 in
          let only = first_alone lib c laws e b'v' (rw known at q) refl h.1 in
          let both : signature v ≡ value_signature d.sig = variant_known v y ∙ only ∙ sym known in
          let equal : same (signature v) (value_signature d.sig) ≡ true =
            rw both (same_refl (value_signature d.sig)) in
          absurd (cc))
  ]

-- What set has stored in a typed dict under a key, get copies from there into a value of its class
-- and signature and returns true, whether the dict holds it as it is or in a variant.
pub get-set :
    (lib : Libdbus) (laws : Laws lib) (dbl : Doubles) {K : Type 0} (c : KeyClass K) (o : IsOrder c)
    (e : List ℕ) (k : K) (v dest : Value) (d : Dict K)
    → Holds lib c e d
    → IsTyped lib v
    → SameClass dest v
    → signature dest ≡ signature v
    → (set c k v d).1 ≡ true
    → get c dbl k dest (set c k v d).0 ≡ ok (v, true)
unfolding set get
get-set lib laws dbl c o e k v dest d h t s eq done =
    elim (Bool-cases (same (signature v) (value_signature d.sig))) [
      | inl a ↦
          rw (a, find-put c o k v d.items)
            (found_plain lib dbl c (value_signature d.sig) v dest a s eq t)
      | inr a ↦ elim (Bool-cases (char_at (value_signature d.sig) 0 == b'v')) [
        | inl q ↦
            (let n = stored_variant lib dbl c laws e v d h a q in
              rw (a, q, unwrapped_plain v n, find-put c o k (Value.variant v) d.items)
                (found_wrapped lib dbl c (value_signature d.sig) v dest a n s eq t))
        | inr q ↦ absurd (false≢true (rw (a, q) at done))
      ]
    ]

-- set changes nothing of what get does for another key.
pub get-set_other :
    {K : Type 0} (c : KeyClass K) (o : IsOrder c) (dbl : Doubles) (j k : K) (v dest : Value)
    (d : Dict K)
    → j ≢ k
    → get c dbl j dest (set c k v d).0 ≡ get c dbl j dest d
unfolding set get
get-set_other c o dbl j k v dest d ne =
    elim (Bool-cases (same (signature v) (value_signature d.sig))) [
      | inl a ↦ rw (a, find-put_other c o j k v d.items ne)
      | inr a ↦ elim (Bool-cases (char_at (value_signature d.sig) 0 == b'v')) [
        | inl q ↦ rw (a, q, find-put_other c o j k (Value.variant (unwrapped v)) d.items ne)
        | inr q ↦ rw (a, q)
      ]
    ]

-- reset with a type code keeps the entries: unless the values already have that type, a typed dict
-- with an entry is left with an entry of another type than its signature says.
pub reset_code-entries :
    (lib : Libdbus) {K : Type 0} (c : KeyClass K) (type_code : ℕ) (e : List ℕ) (k : K) (v : Value)
    (m : List (K × Value)) (d : Dict K)
    → Holds lib c e d
    → d.items ≡ (k, v) ∷ m
    → type_code == b'v' || is_basic_code type_code ≡ true
    → type_code ∷ [] ≢ e
    → ¬ IsTyped lib (freeze c (reset_code c type_code d).0)
unfolding reset_code
reset_code-entries lib c type_code e k v m d h items valid ne typed =
    let (k', e', s, q, t) = rw valid at typed in
    let named : type_code ∷ [] ≡ e' = ap value_signature s ∙ drop_char-append e' b'}' in
    let now : EntriesTyped lib k' e' (of_items c ((k, v) ∷ m)) = rw items at t in
    let before : EntriesTyped lib c.key_code e (of_items c ((k, v) ∷ m)) = rw items at h.2 in
    ne (named ∙ sym now.2 ∙ before.2)
