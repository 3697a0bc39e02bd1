-- ===== src/Objects/Paths.antt =====
-- std::map from object paths, as a list.
use Prim.Native.String.{String}
use text.Mathlib.Text.{◌==◌ as str_eq}
use text.Mathlib.TextEquality.{eq_iff}
use libultrabus.Common.{
  ℕ, ◌≡◌, refl, Bool, true, false, Option, none, some, List, [], ◌∷◌, if◌then◌else◌, ap, ◌∙◌,
  Bool-cases, inl, inr, sym,
}

pub record Entry : Type 0 where
  pub path : String
  pub callback : Option ℕ

unfoldable pub find_path : String → List Entry → Option (Option ℕ)
find_path q [] = none
find_path q (e ∷ es) =
    let rest = find_path q es in if str_eq e.path q then some e.callback else rest

unfoldable pub erase_path : String → List Entry → List Entry
erase_path p [] = []
erase_path p (e ∷ es) = let rest = erase_path p es in if str_eq e.path p then rest else e ∷ rest

unfoldable pub put_path : String → Option ℕ → List Entry → List Entry
unfolding erase_path
put_path p cb es = record { path = p; callback = cb } ∷ erase_path p es

abbrev pub is_some : Option (Option ℕ) → Bool
is_some none = false
is_some (some cb) = true

pub same_path : (p q r : String) → str_eq p q ≡ true → str_eq p r ≡ str_eq q r
same_path p q r e = ap (λ x. str_eq x r) ((eq_iff p q).0 e)

if_same :
    {A : Type 0} (c : Bool) (x y z : A)
    → (if c then x else (if c then y else z)) ≡ (if c then x else z)
if_same true x y z = refl
if_same false x y z = refl

if_true : {A : Type 0} (c : Bool) (x y : A) → c ≡ true → (if c then x else y) ≡ x
if_true true x y e = refl
if_true false x y e = cc

if_false : {A : Type 0} (c : Bool) (x y : A) → c ≡ false → (if c then x else y) ≡ y
if_false true x y e = cc
if_false false x y e = refl

pub find_path-erase_path :
    (p q : String) (es : List Entry)
    → find_path q (erase_path p es) ≡ (if str_eq p q then none else find_path q es)
unfolding find_path erase_path
find_path-erase_path p q [] = elim (Bool-cases (str_eq p q)) [
  | inl h ↦ rw (h) refl
  | inr h ↦ rw (h) refl
]
find_path-erase_path p q (e ∷ es) =
    let rest = find_path-erase_path p q es in
    elim (Bool-cases (str_eq e.path p)) [
      | inl h ↦
          let k = same_path e.path p q h in rw (h, k) (rest ∙ sym (if_same (str_eq p q) _ _ _))
      | inr h ↦ elim (Bool-cases (str_eq p q)) [
        | inl g ↦
            let k = ap (λ x. str_eq e.path x) ((eq_iff p q).0 g) in
            let m = sym k ∙ h in rw (h, m) (rest ∙ if_true _ _ _ g ∙ sym (if_true _ _ _ g))
        | inr g ↦
            let m = rest ∙ if_false (str_eq p q) none (find_path q es) g in
            rw (h) (
              ap (λ o. if str_eq e.path q then some e.callback else o) m
              ∙ sym (if_false (str_eq p q) _ _ g))
      ]
    ]

pub find_path-put_path :
    (p q : String) (cb : Option ℕ) (es : List Entry)
    → find_path q (put_path p cb es) ≡ (if str_eq p q then some cb else find_path q es)
unfolding find_path put_path
find_path-put_path p q cb es =
    ap (λ o. if str_eq p q then some cb else o) (find_path-erase_path p q es)
    ∙ if_same (str_eq p q) _ _ _
