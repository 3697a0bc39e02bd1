-- ===== src/Values/Dicts/Sequence.antt =====
-- The entries of a dbus_dict against its signature.
use libultrabus.Common.{
  ◌||◌, inl, inr, ℕ, Bool, true, List, [], ◌∷◌, ◌++◌, ◌≡◌, refl, ap, ◌∙◌, if_intro, ◌==◌, same,
  same→eq, drop_char-append, ==_iff, arith,
}
use libultrabus.Values.{
  Text, Basic, Value, Result-cases, code_of_text, Libdbus, signature, code, char_at, make_text,
}
use libultrabus.Values.Typed.{IsTyped, IsTypedBasic, EntriesTyped, is_basic_code, Laws}
use libultrabus.Values.Arrays.Members.{make_text-IsTyped}
use libultrabus.Values.Assign.{unwrapped}
use libultrabus.Values.Assign.Outcome.{unwrapped-IsTyped}
use libultrabus.Values.Dicts.{
  KeyClass, Dict, value_signature, of_items, put, stored, set, set_basic, set_text, stored_made,
}

module _ (lib : Libdbus) {K : Type 0} (c : KeyClass K) where
  -- A key has the type of the class, and what a basic value must have.
  abbrev pub IsKey : K → Type 0
  IsKey k = (code (c.to_basic k) ≡ c.key_code) × IsTypedBasic lib (c.to_basic k)

  module _ (e : List ℕ) (k : K) (v : Value) (ok_key : IsKey k) (s : signature v ≡ e)
      (t : IsTyped lib v) where
    put-EntriesTyped :
        (m : List (K × Value))
        → EntriesTyped lib c.key_code e (of_items c m)
        → EntriesTyped lib c.key_code e (of_items c (put c k v m))
    unfolding put
    put-EntriesTyped [] h = (ok_key.0, ok_key.1, s, t, tt)
    put-EntriesTyped ((j, w) ∷ m) (a, b, d, f, h) =
        if_intro (λ l. EntriesTyped lib c.key_code e (of_items c l)) (c.less j k)
          (λ p. (a, b, d, f, put-EntriesTyped m h))
          (λ p.
            if_intro (λ l. EntriesTyped lib c.key_code e (of_items c l)) (c.less k j)
              (λ q. (ok_key.0, ok_key.1, s, t, (a, b, d, f, h))) (λ q. (a, b, s, t, h)))

  -- A dict whose entries have values of the signature `e`.
  abbrev pub Holds : List ℕ → Dict K → Type 0
  Holds e d =
      (d.sig ≡ b'a' ∷ b'{' ∷ c.key_code ∷ (e ++ b'}' ∷ []))
      × (lib.valid_single e ≡ true)
      × EntriesTyped lib c.key_code e (of_items c d.items)

  pub stored-Holds :
      (e : List ℕ) (k : K) (v : Value) (d : Dict K)
      → IsKey k
      → signature v ≡ e
      → IsTyped lib v
      → Holds e d
      → Holds e (stored c k v d).0
  stored-Holds e k v d g s t (p, q, h) = (p, q, put-EntriesTyped e k v g s t d.items h)

  pub value_known :
      (e sig : List ℕ) → sig ≡ b'a' ∷ b'{' ∷ c.key_code ∷ (e ++ b'}' ∷ []) → value_signature sig ≡ e
  value_known e sig p = ap value_signature p ∙ drop_char-append e b'}'

  module _ (laws : Laws lib) where
    pub first_alone :
        (e : List ℕ) (x : ℕ)
        → (char_at e 0 == x) ≡ true
        → is_basic_code x || x == b'v' ≡ true
        → lib.valid_single e ≡ true
        → x ∷ [] ≡ e
    first_alone [] x h b v = absurd (ground arith)
    first_alone (y ∷ ys) x h b v =
        let first : y ≡ x = (==_iff y x).0 h in
        let alone = laws.single_alone y ys (rw first b) v in cc

    first_known :
        (e sig : List ℕ) (x : ℕ)
        → (char_at sig 3 == x) ≡ true
        → is_basic_code x || x == b'v' ≡ true
        → sig ≡ b'a' ∷ b'{' ∷ c.key_code ∷ (e ++ b'}' ∷ [])
        → lib.valid_single e ≡ true
        → x ∷ [] ≡ e
    first_known [] sig x h b p v =
        let q : char_at sig 3 ≡ b'}' = ap (λ t. char_at t 3) p in absurd (ground arith)
    first_known (y ∷ ys) sig x h b p v =
        let q : char_at sig 3 ≡ y = ap (λ t. char_at t 3) p in
        first_alone (y ∷ ys) x (rw (← q) h) b v

    pub set-Holds :
        (e : List ℕ) (k : K) (v : Value) (d : Dict K)
        → IsKey k
        → IsTyped lib v
        → Holds e d
        → Holds e (set c k v d).0
    unfolding set
    set-Holds e k v d g t h =
        let known = value_known e d.sig h.0 in
        if_intro (λ (r : Dict K × Bool). Holds e r.0) (same (signature v) (value_signature d.sig))
          (λ p. stored-Holds e k v d g (same→eq _ _ p ∙ known) t h)
          (λ p.
            if_intro (λ (r : Dict K × Bool). Holds e r.0)
              (char_at (value_signature d.sig) 0 == b'v')
              (λ q.
                stored-Holds e k (Value.variant (unwrapped v)) d g
                  (first_alone e b'v' (rw known at q) refl h.1) (unwrapped-IsTyped lib v t) h)
              (λ q. h))

    pub basic-Holds :
        (e : List ℕ) (k : K) (b : Basic) (d : Dict K)
        → IsKey k
        → is_basic_code (code b) ≡ true
        → IsTypedBasic lib b
        → Holds e d
        → Holds e (set_basic c k b d).0
    unfolding set_basic
    basic-Holds e k b d g i t h =
        if_intro (λ (r : Dict K × Bool). Holds e r.0) (char_at d.sig 3 == b'v')
          (λ p.
            stored-Holds e k (Value.variant (Value.basic b)) d g
              (first_known e d.sig b'v' p refl h.0 h.1) (refl, t) h)
          (λ p.
            if_intro (λ (r : Dict K × Bool). Holds e r.0) (char_at d.sig 3 == code b)
              (λ q.
                stored-Holds e k (Value.basic b) d g
                  (first_known e d.sig (code b) q (rw i refl) h.0 h.1) t h)
              (λ q. h))

    made-Holds :
        (e : List ℕ) (k : K) (t : Text) (s : List ℕ) (d : Dict K)
        → IsKey k
        → code_of_text t ∷ [] ≡ e
        → Holds e d
        → Holds e (stored_made c k (make_text lib t s) d).0
    made-Holds e k t s d g p h = elim (Result-cases (make_text lib t s)) [
      | inl (v, m) ↦
          (let (sv, tv) = make_text-IsTyped lib t s m in
            rw m (stored-Holds e k v d g (sv ∙ p) tv h))
      | inr (x, m) ↦ rw m h
    ]

    pub text-Holds :
        (e : List ℕ) (k : K) (s : List ℕ) (d : Dict K)
        → IsKey k
        → Holds e d
        → Holds e (set_text c lib k s d).0
    unfolding set_text
    text-Holds e k s d g h =
        if_intro (λ (r : Dict K × Bool). Holds e r.0) (char_at d.sig 3 == b'v')
          (λ p.
            stored-Holds e k (Value.variant (Value.basic (Basic.text Text.string s))) d g
              (first_known e d.sig b'v' p refl h.0 h.1) (refl, tt) h)
          (λ p.
            if_intro (λ (r : Dict K × Bool). Holds e r.0) (char_at d.sig 3 == b's')
              (λ q. made-Holds e k Text.string s d g (first_known e d.sig b's' q refl h.0 h.1) h)
              (λ p.
                if_intro (λ (r : Dict K × Bool). Holds e r.0) (char_at d.sig 3 == b'o')
                  (λ q. made-Holds e k Text.opath s d g (first_known e d.sig b'o' q refl h.0 h.1) h)
                  (λ p.
                    if_intro (λ (r : Dict K × Bool). Holds e r.0) (char_at d.sig 3 == b'g')
                      (λ q.
                        made-Holds e k Text.type_signature s d g
                          (first_known e d.sig b'g' q refl h.0 h.1) h)
                      (λ q. h))))
