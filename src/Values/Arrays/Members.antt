-- ===== src/Values/Arrays/Members.antt =====
-- The members of a dbus_array against its signature.
use libultrabus.Common.{
  ℕ, zero, suc, true, List, [], ◌∷◌, ◌++◌, some, ◌≡◌, refl, sym, ap, ◌∙◌, ◌==◌, same, same→eq,
  ==_iff, insert_at, erase_at, erase_range, Bool-cases, inl, inr, arith, subst,
}
use libultrabus.Values.{
  ok_inj, Result-cases, Text, Basic, Value, Values, Result, ok, Libdbus, signature, code_of_text,
  of_list, to_list, char_at, make_text,
}
use libultrabus.Values.Typed.{IsTyped, EachTyped, Laws, is_basic_code}
use libultrabus.Values.Arrays.{
  rest, text_of_code, insert_times, insert_all, drop_last, emplace_all, insert_texts_as,
}

module _ (lib : Libdbus) where
  abbrev pub Each : List ℕ → List Value → Type 0
  Each e xs = EachTyped lib e (of_list xs)

  module _ (e : List ℕ) (v : Value) (s : signature v ≡ e) (t : IsTyped lib v) where
    pub Each-append : (xs : List Value) → Each e xs → Each e (xs ++ v ∷ [])
    Each-append [] h = (s, t, tt)
    Each-append (x ∷ xs) h = (h.0, h.1, Each-append xs h.2)

    pub Each-insert_at : (i : ℕ) (xs : List Value) → Each e xs → Each e (insert_at i v xs)
    unfolding insert_at
    Each-insert_at zero xs h = (s, t, h)
    Each-insert_at (suc i) [] h = (s, t, tt)
    Each-insert_at (suc i) (x ∷ xs) h = (h.0, h.1, Each-insert_at i xs h.2)

    pub Each-insert_times : (i n : ℕ) (xs : List Value) → Each e xs → Each e (insert_times i n v xs)
    Each-insert_times i zero xs h = h
    Each-insert_times i (suc n) xs h =
        Each-insert_times i n (insert_at i v xs) (Each-insert_at i xs h)

  pub Each-insert_all :
      (e : List ℕ) (i : ℕ) (vs xs : List Value)
      → Each e vs
      → Each e xs
      → Each e (insert_all i vs xs)
  Each-insert_all e i [] xs g h = h
  Each-insert_all e i (v ∷ vs) xs g h =
      Each-insert_all e (suc i) vs (insert_at i v xs) g.2 (Each-insert_at e v g.0 g.1 i xs h)

  pub Each-erase_at : (e : List ℕ) (i : ℕ) (xs : List Value) → Each e xs → Each e (erase_at i xs)
  unfolding erase_at
  Each-erase_at e i [] h = tt
  Each-erase_at e zero (x ∷ xs) h = h.2
  Each-erase_at e (suc i) (x ∷ xs) h = (h.0, h.1, Each-erase_at e i xs h.2)

  pub Each-erase_range :
      (e : List ℕ) (i n : ℕ) (xs : List Value) → Each e xs → Each e (erase_range i n xs)
  unfolding erase_range
  Each-erase_range e i zero xs h = h
  Each-erase_range e i (suc n) xs h =
      Each-erase_range e i n (erase_at i xs) (Each-erase_at e i xs h)

  pub Each-drop_last : (e : List ℕ) (xs : List Value) → Each e xs → Each e (drop_last xs)
  Each-drop_last e [] h = tt
  Each-drop_last e (x ∷ []) h = tt
  Each-drop_last e (x ∷ y ∷ ys) h = (h.0, h.1, Each-drop_last e (y ∷ ys) h.2)

  pub Each-to_list : (e : List ℕ) (xs : Values) → EachTyped lib e xs → Each e (to_list xs)
  Each-to_list e Values.nil h = tt
  Each-to_list e (Values.cons x xs) h = (h.0, h.1, Each-to_list e xs h.2)

  Typed_of_made :
      (t : Text) {u v : Value}
      → Result.ok u ≡ ok v
      → (signature u ≡ code_of_text t ∷ []) × IsTyped lib u
      → (signature v ≡ code_of_text t ∷ []) × IsTyped lib v
  Typed_of_made t h p =
      subst (λ w. (signature w ≡ code_of_text t ∷ []) × IsTyped lib w) (ok_inj h) p

  pub make_text-IsTyped :
      (t : Text) (s : List ℕ) {v : Value}
      → make_text lib t s ≡ ok v
      → (signature v ≡ code_of_text t ∷ []) × IsTyped lib v
  unfolding make_text
  make_text-IsTyped Text.string s h = Typed_of_made Text.string h (refl, tt)
  make_text-IsTyped Text.opath s {v} h = elim (Bool-cases (lib.valid_path s)) [
    | inl e ↦
        (let made : Result.ok (Value.basic (Basic.text Text.opath s)) ≡ ok v = ground arith in
          Typed_of_made Text.opath made (refl, e))
    | inr e ↦ absurd (ground arith)
  ]
  make_text-IsTyped Text.type_signature s {v} h = elim (Bool-cases (lib.valid_signature s)) [
    | inl e ↦
        (let made : Result.ok (Value.basic (Basic.text Text.type_signature s)) ≡ ok v =
            ground arith in
          Typed_of_made Text.type_signature made (refl, e))
    | inr e ↦ absurd (ground arith)
  ]

  pub emplace_all-Each :
      (t : Text) (texts : List (List ℕ)) (made : List Value)
      → Each (code_of_text t ∷ []) made
      → Each (code_of_text t ∷ []) (emplace_all lib t texts made).0
  emplace_all-Each t [] made h = h
  emplace_all-Each t (s ∷ texts) made h = elim (Result-cases (make_text lib t s)) [
    | inl (v, e) ↦
        (let p = make_text-IsTyped t s e in
          rw e (
            emplace_all-Each t texts (made ++ v ∷ [])
              (Each-append (code_of_text t ∷ []) v p.0 p.1 made h)))
    | inr (x, e) ↦ rw e h
  ]

  pub insert_texts_as-Each :
      (t : Text) (i : ℕ) (texts : List (List ℕ)) (xs : List Value)
      → Each (code_of_text t ∷ []) xs
      → Each (code_of_text t ∷ []) (insert_texts_as lib t i texts xs).0
  insert_texts_as-Each t i [] xs h = h
  insert_texts_as-Each t i (s ∷ texts) xs h = elim (Result-cases (make_text lib t s)) [
    | inl (v, e) ↦
        (let p = make_text-IsTyped t s e in
          rw e (
            insert_texts_as-Each t (suc i) texts (insert_at i v xs)
              (Each-insert_at (code_of_text t ∷ []) v p.0 p.1 i xs h)))
    | inr (x, e) ↦ rw e h
  ]

  -- What verify_element_signature has found.
  pub element_known : (s w e : List ℕ) → same (rest s) w ≡ true → s ≡ b'a' ∷ e → w ≡ e
  element_known s w e h p = sym (same→eq (rest s) w h) ∙ ap rest p

  basic_known_nil :
      (s : List ℕ) (c : ℕ) → is_basic_code c ≡ true → (char_at s 1 == c) ≡ true → s ≡ b'a' ∷ [] → ⊥
  basic_known_nil s c b h p =
      let q = ap (λ t. char_at t 1) p in
      let first : 0 ≡ c = sym q ∙ (==_iff _ c).0 h in ground arith

  is_basic_code-code_of_text : (t : Text) → is_basic_code (code_of_text t) ≡ true
  is_basic_code-code_of_text Text.string = refl
  is_basic_code-code_of_text Text.opath = refl
  is_basic_code-code_of_text Text.type_signature = refl

  text_of_code-code : (c : ℕ) (t : Text) → text_of_code c ≡ some t → (c == code_of_text t) ≡ true
  text_of_code-code c Text.string h = ground arith
  text_of_code-code c Text.opath h = ground arith
  text_of_code-code c Text.type_signature h = ground arith

  module _ (laws : Laws lib) where
    pub basic_known :
        (s : List ℕ) (c : ℕ) (e : List ℕ)
        → is_basic_code c ≡ true
        → (char_at s 1 == c) ≡ true
        → s ≡ b'a' ∷ e
        → lib.valid_single s ≡ true
        → c ∷ [] ≡ e
    basic_known s c [] b h p v = absurd (basic_known_nil s c b h p)
    basic_known s c (d ∷ ds) b h p v =
        let q = ap (λ t. char_at t 1) p in
        let first : d ≡ c = sym q ∙ (==_iff _ c).0 h in
        let alone = laws.basic_alone d ds (rw first b) (rw p at v) in cc

    pub text_known :
        (s : List ℕ) (t : Text) (e : List ℕ)
        → text_of_code (char_at s 1) ≡ some t
        → s ≡ b'a' ∷ e
        → lib.valid_single s ≡ true
        → code_of_text t ∷ [] ≡ e
    text_known s t e h p v =
        basic_known s (code_of_text t) e (is_basic_code-code_of_text t)
          (text_of_code-code (char_at s 1) t h) p v
