-- ===== src/Values/Create/Complete.antt =====
-- What create_dbus_type makes of a valid signature.
use libultrabus.Common.{
  Option-cases, inl, inr, subst, ◌≢◌, length-append, if_intro, ==_iff, ℕ, zero, suc, ◌≤◌, ◌<◌, true,
  false, List, [], ◌∷◌, ◌++◌, ◌≡◌, refl, sym, ap, Option, none, some, ◌==◌, if◌then◌else◌,
  drop_char-append, length, arith,
}
use libultrabus.Common.Int.{pos, negsuc}
use libultrabus.Numbers.{Kind}
use libultrabus.Values.{Text, Basic, Value, Values, Entries, Libdbus, signature, code}
use libultrabus.Values.Typed.{IsTyped, IsTypedBasic, AllTyped, signatures, is_basic_code}
use libultrabus.Values.Create.{Made, default_basic, all, make_attributes, create_by, create}

abbrev pub join : List (List ℕ) → List ℕ
join [] = []
join (p ∷ ps) = p ++ join ps

module _ (lib : Libdbus) where
  abbrev pub AllSingle : List (List ℕ) → Type 0
  AllSingle [] = Unit {0}
  AllSingle (p ∷ ps) = (lib.valid_single p ≡ true) × AllSingle ps

  -- A single complete type, by the grammar of D-Bus: a basic type or a variant, an array, a dict, or
  -- a struct of one or more complete types, which are what the iterator goes through.
  pub data Form (s : List ℕ) : Type 0 where
    basic_form : (c : ℕ) → s ≡ c ∷ [] → is_basic_code c ≡ true → Form s
    variant_form : s ≡ b'v' ∷ [] → Form s
    array_form : (x : ℕ) (e : List ℕ) → s ≡ b'a' ∷ x ∷ e → (x == b'{') ≡ false → Form s
    dict_form :
        (k : ℕ) (e : List ℕ)
        → s ≡ b'a' ∷ b'{' ∷ k ∷ (e ++ b'}' ∷ [])
        → is_basic_code k ≡ true
        → lib.valid_single e ≡ true
        → Form s
    struct_form :
        (x : ℕ) (p : List ℕ) (ps : List (List ℕ))
        → s ≡ b'(' ∷ (join ((x ∷ p) ∷ ps) ++ b')' ∷ [])
        → lib.parts (join ((x ∷ p) ∷ ps)) ≡ (x ∷ p) ∷ ps
        → AllSingle ((x ∷ p) ∷ ps)
        → lib.valid_signature s ≡ true
        → Form s

-- What is used of libdbus: dbus_signature_validate_single takes only complete types, and "/" is an
-- object path and the empty text a signature.
pub record Grammar (lib : Libdbus) : Type 0 where
  pub form : (s : List ℕ) → lib.valid_single s ≡ true → Form lib s
  pub root_valid : lib.valid_path (b'/' ∷ []) ≡ true
  pub empty_valid : lib.valid_signature [] ≡ true

-- A made value has the signature and is typed.
abbrev pub Makes : Libdbus → List ℕ → Made → Type 0
Makes lib s m = (v : Value) × (m ≡ Made.made v) × (signature v ≡ s) × IsTyped lib v

module _ (lib : Libdbus) (g : Grammar lib) where
  -- What the default constructors make for the type code `c`.
  abbrev IsDefault : ℕ → Option Basic → Type 0
  IsDefault c none = Unit {0}
  IsDefault c (some b) = (code b ≡ c) × IsTypedBasic lib b

  case-IsDefault :
      (c : ℕ) (b : Basic) (other : Option Basic)
      → IsTypedBasic lib b
      → IsDefault c other
      → IsDefault c (if c == code b then some b else other)
  case-IsDefault c b other t h =
      if_intro (IsDefault c) (c == code b) (λ e. (sym ((==_iff c (code b)).0 e), t)) (λ n. h)

  default_basic-IsDefault : (c : ℕ) → IsDefault c (default_basic c)
  default_basic-IsDefault c = case-IsDefault c (Basic.number Kind.boolean (pos 0)) _ (omega arith) (
      case-IsDefault c (Basic.number Kind.byte (pos 0)) _ (omega arith) (
        case-IsDefault c (Basic.number Kind.i16 (pos 0)) _ (omega arith) (
          case-IsDefault c (Basic.number Kind.u16 (pos 0)) _ (omega arith) (
            case-IsDefault c (Basic.number Kind.i32 (pos 0)) _ (omega arith) (
              case-IsDefault c (Basic.number Kind.u32 (pos 0)) _ (omega arith) (
                case-IsDefault c (Basic.number Kind.i64 (pos 0)) _ (omega arith) (
                  case-IsDefault c (Basic.number Kind.u64 (pos 0)) _ (omega arith) (
                    case-IsDefault c (Basic.real 0) _ tt (
                      case-IsDefault c (Basic.text Text.string []) _ tt (
                        case-IsDefault c (Basic.text Text.opath (b'/' ∷ [])) _ g.root_valid (
                          case-IsDefault c (Basic.text Text.type_signature []) _ g.empty_valid (
                            case-IsDefault c (Basic.number Kind.unix_fd (negsuc 0)) _ (omega arith)
                              (tt)))))))))))))

  default_basic-known : (c : ℕ) → is_basic_code c ≡ true → default_basic c ≢ none
  default_basic-known c h e = ground arith

  default_known :
      (c : ℕ)
      → is_basic_code c ≡ true
      → (b : Basic) × (default_basic c ≡ some b) × (code b ≡ c) × IsTypedBasic lib b
  default_known c h = elim (Option-cases (default_basic c)) [
    | inl e ↦ absurd (default_basic-known c h e)
    | inr (b, e) ↦
        (let d : IsDefault c (some b) = subst (IsDefault c) e (default_basic-IsDefault c) in
          (b, e, d.0, d.1))
  ]

  -- The attributes of a struct, if each is made.
  make_attributes_lem :
      (create_part : List ℕ → Made) (ps : List (List ℕ))
      → AllSingle lib ps
      → ((p : List ℕ)
          → lib.valid_single p ≡ true
          → length p ≤ length (join ps)
          → Makes lib p (create_part p))
      → (xs : Values) × (make_attributes create_part ps ≡ all xs)
        × (signatures xs ≡ join ps)
        × AllTyped lib xs
  make_attributes_lem create_part [] a h = (Values.nil, refl, refl, tt)
  make_attributes_lem create_part (p ∷ ps) a h =
      let (v, m, s, t) = h p a.0 (omega (arith, length-append p (join ps))) in
      let (xs, n, r, u) =
        make_attributes_lem create_part ps a.1
          (λ q w l. h q w (omega (arith, length-append p (join ps)))) in
      (Values.cons v xs, rw (m, n) refl, rw (s, r) refl, (t, u))

  module _ (create_part : List ℕ → Made) where
    basic_made :
        (c : ℕ)
        → is_basic_code c ≡ true
        → lib.valid_single (c ∷ []) ≡ true
        → Makes lib (c ∷ []) (create_by lib create_part (c ∷ []))
    unfolding create_by
    basic_made c b h =
        let (v, e, k, t) = default_known c b in
        let not_array : (c == b'a') ≡ false = ground arith in
        let not_struct : (c == b'(') ≡ false = ground arith in
        let not_variant : (c == b'v') ≡ false = ground arith in
        (Value.basic v, rw (h, not_array, not_struct, not_variant, e), ap (λ x. x ∷ []) k, t)

    variant_made :
        lib.valid_single (b'v' ∷ []) ≡ true
        → Makes lib (b'v' ∷ []) (create_by lib create_part (b'v' ∷ []))
    unfolding create_by
    variant_made h = (
      Value.variant (Value.basic (Basic.number Kind.i32 (pos 0))),
      rw h,
      refl,
      (refl, omega arith),
    )

    array_is_made :
        (x : ℕ) (e : List ℕ)
        → (x == b'{') ≡ false
        → lib.valid_single (b'a' ∷ x ∷ e) ≡ true
        → Makes lib (b'a' ∷ x ∷ e) (create_by lib create_part (b'a' ∷ x ∷ e))
    unfolding create_by
    array_is_made x e n h =
        (Value.array (b'a' ∷ x ∷ e) Values.nil, rw (h, n), refl, (x ∷ e, refl, h, tt))

    dict_is_made :
        (k : ℕ) (e : List ℕ)
        → is_basic_code k ≡ true
        → lib.valid_single e ≡ true
        → lib.valid_single (b'a' ∷ b'{' ∷ k ∷ (e ++ b'}' ∷ [])) ≡ true
        → Makes lib
            (b'a' ∷ b'{' ∷ k ∷ (e ++ b'}' ∷ []))
            (create_by lib create_part (b'a' ∷ b'{' ∷ k ∷ (e ++ b'}' ∷ [])))
    unfolding create_by
    dict_is_made k e b v h =
        let (d, f, c, t) = default_known k b in
        (
          Value.dict (b'a' ∷ b'{' ∷ k ∷ (e ++ b'}' ∷ [])) Entries.end,
          rw (h, drop_char-append e b'}', v, f),
          refl,
          (k, e, refl, v, tt),
        )

    struct_is_made :
        (x : ℕ) (p : List ℕ) (ps : List (List ℕ))
        → lib.parts (join ((x ∷ p) ∷ ps)) ≡ (x ∷ p) ∷ ps
        → AllSingle lib ((x ∷ p) ∷ ps)
        → lib.valid_signature (b'(' ∷ (join ((x ∷ p) ∷ ps) ++ b')' ∷ [])) ≡ true
        → lib.valid_single (b'(' ∷ (join ((x ∷ p) ∷ ps) ++ b')' ∷ [])) ≡ true
        → ((q : List ℕ)
            → lib.valid_single q ≡ true
            → length q ≤ length (join ((x ∷ p) ∷ ps))
            → Makes lib q (create_part q))
        → Makes lib
            (b'(' ∷ (join ((x ∷ p) ∷ ps) ++ b')' ∷ []))
            (create_by lib create_part (b'(' ∷ (join ((x ∷ p) ∷ ps) ++ b')' ∷ [])))
    unfolding create_by
    struct_is_made x p ps split a valid h r =
        let attributes : List ℕ = join ((x ∷ p) ∷ ps) in
        let (xs, m, s, t) = make_attributes_lem create_part ((x ∷ p) ∷ ps) a r in
        (
          Value.struct (b'(' ∷ (attributes ++ b')' ∷ [])) xs,
          rw (h, drop_char-append attributes b')', valid, split, m),
          refl,
          (rw s refl, t),
        )

    -- A signature of any form, if what makes the attributes of structs makes shorter ones.
    create_by-Makes :
        (s : List ℕ)
        → Form lib s
        → lib.valid_single s ≡ true
        → ((q : List ℕ)
            → lib.valid_single q ≡ true
            → length q < length s
            → Makes lib q (create_part q))
        → Makes lib s (create_by lib create_part s)
    create_by-Makes s (basic_form c e b) h r =
        subst (λ w. Makes lib w (create_by lib create_part w)) (sym e) (basic_made c b (rw e at h))
    create_by-Makes s (variant_form e) h r =
        subst (λ w. Makes lib w (create_by lib create_part w)) (sym e) (variant_made (rw e at h))
    create_by-Makes s (array_form x t e n) h r =
        subst (λ w. Makes lib w (create_by lib create_part w)) (sym e)
          (array_is_made x t n (rw e at h))
    create_by-Makes s (dict_form k t e b v) h r =
        subst (λ w. Makes lib w (create_by lib create_part w)) (sym e)
          (dict_is_made k t b v (rw e at h))
    create_by-Makes s (struct_form x p ps e split a valid) h r =
        let longer = ap length e in
        let counted = length-append (join ((x ∷ p) ∷ ps)) (b')' ∷ []) in
        subst (λ w. Makes lib w (create_by lib create_part w)) (sym e)
          (struct_is_made x p ps split a (rw e at valid) (rw e at h) (λ q v l. r q v (omega arith)))

  Form-length : (s : List ℕ) → Form lib s → 0 < length s
  Form-length s (basic_form c e b) = let l = ap length e in omega arith
  Form-length s (variant_form e) = let l = ap length e in omega arith
  Form-length s (array_form x t e n) = let l = ap length e in omega arith
  Form-length s (dict_form k t e b v) = let l = ap length e in omega arith
  Form-length s (struct_form x p ps e split a v) = let l = ap length e in omega arith

-- For every valid single signature, and fuel of at least its length, create_dbus_type returns a
-- value, which has exactly this signature and is typed throughout.
pub create-Makes :
    (lib : Libdbus) (g : Grammar lib) (fuel : ℕ) (s : List ℕ)
    → lib.valid_single s ≡ true
    → length s ≤ fuel
    → Makes lib s (create lib fuel s)
unfolding create
create-Makes lib g zero s h l = let n = Form-length lib g s (g.form s h) in absurd (omega arith)
create-Makes lib g (suc fuel) s h l =
    create_by-Makes lib g (create lib fuel) s (g.form s h) h
      (λ q v m. create-Makes lib g fuel q v (omega arith))
