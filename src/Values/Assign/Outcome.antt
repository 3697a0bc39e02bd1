-- ===== src/Values/Assign/Outcome.antt =====
-- What operator= of each class leaves behind.
use libultrabus.Common.{
  arith, subst, ℕ, List, [], ◌∷◌, ◌≡◌, refl, Option, none, some, ◌==◌, Bool-cases, inl, inr,
}
use libultrabus.Common.Int.{ℤ}
use libultrabus.Numbers.{Kind, Operand, InRange, is_fd}
use libultrabus.Numbers.Conversion.{assign-InRange}
use libultrabus.Values.{
  code_of_kind, ok_inj, Text, Basic, Value, Entries, Result, ok, Libdbus, signature, char_at,
}
use libultrabus.Values.Typed.{IsTyped}
use libultrabus.Values.Assign.{
  Doubles, unwrapped, taken, assign_number, assign_text, assign_dict, assign, Leaves,
}

-- A double that is converted ends in the range of the type, as it does where C++ defines the result.
abbrev pub ConvertsInRange : Doubles → Type 0
ConvertsInRange d = (k : Kind) (r : ℕ) → InRange k (d.to_integer k r)

module _ (lib : Libdbus) where
  abbrev pub IsAssigned : Value → Value → Value → Type 0
  IsAssigned lhs rhs v = IsTyped lib v × Leaves lhs rhs v

  taken-IsTyped :
      (k : Kind) (o : Option ℤ) {v : Value}
      → ((u : ℤ) → o ≡ some u → InRange k u)
      → taken k o ≡ ok v
      → IsTyped lib v × (signature v ≡ code_of_kind k ∷ [])
  taken-IsTyped k none r h = absurd (cc)
  taken-IsTyped k (some u) r h =
      subst (λ v. IsTyped lib v × (signature v ≡ code_of_kind k ∷ [])) (ok_inj h) (r u refl, refl)

  -- A result that is the other value itself.
  copied-IsTyped :
      (lhs rhs : Value) {v : Value}
      → IsTyped lib rhs
      → Leaves lhs rhs rhs
      → Result.ok rhs ≡ ok v
      → IsAssigned lhs rhs v
  copied-IsTyped lhs rhs t l h = subst (IsAssigned lhs rhs) (ok_inj h) (t, l)

  number-IsTyped :
      (d : Doubles) (k : Kind) (old : ℤ) (rhs : Value) {v : Value}
      → ConvertsInRange d
      → IsTyped lib rhs
      → assign_number d k rhs ≡ ok v
      → IsAssigned (Value.basic (Basic.number k old)) rhs v
  number-IsTyped d k old (Value.basic (Basic.number l u)) c t h =
      taken-IsTyped k _ (λ w. assign-InRange k (Operand.number l u) t) h
  number-IsTyped d k old (Value.basic (Basic.real r)) {v} c t h = elim (Bool-cases (is_fd k)) [
    | inl e ↦ absurd (ground arith)
    | inr e ↦
        (let made : Result.ok (Value.basic (Basic.number k (d.to_integer k r))) ≡ ok v =
            ground arith in
          subst (IsAssigned (Value.basic (Basic.number k old)) (Value.basic (Basic.real r)))
            (ok_inj made) (c k r, refl))
  ]
  number-IsTyped d k old (Value.basic (Basic.text u s)) c t h =
      taken-IsTyped k _ (λ w. assign-InRange k Operand.text tt) h
  number-IsTyped d k old (Value.array s xs) c t h =
      taken-IsTyped k _ (λ w. assign-InRange k Operand.container tt) h
  number-IsTyped d k old (Value.struct s xs) c t h =
      taken-IsTyped k _ (λ w. assign-InRange k Operand.container tt) h
  number-IsTyped d k old (Value.dict s es) c t h =
      taken-IsTyped k _ (λ w. assign-InRange k Operand.container tt) h
  number-IsTyped d k old (Value.variant w) c t h =
      taken-IsTyped k _ (λ w. assign-InRange k Operand.container tt) h

  text-IsTyped :
      (t : Text) (old : List ℕ) (rhs : Value) {v : Value}
      → IsTyped lib rhs
      → assign_text t rhs ≡ ok v
      → IsAssigned (Value.basic (Basic.text t old)) rhs v
  text-IsTyped Text.string old (Value.basic (Basic.text Text.string s)) t h =
      copied-IsTyped (Value.basic (Basic.text Text.string old))
        (Value.basic (Basic.text Text.string s)) t refl h
  text-IsTyped Text.opath old (Value.basic (Basic.text Text.opath s)) t h =
      copied-IsTyped (Value.basic (Basic.text Text.opath old))
        (Value.basic (Basic.text Text.opath s)) t refl h
  text-IsTyped Text.type_signature old (Value.basic (Basic.text Text.type_signature s)) t h =
      copied-IsTyped (Value.basic (Basic.text Text.type_signature old))
        (Value.basic (Basic.text Text.type_signature s)) t refl h
  text-IsTyped t old rhs k h = absurd (ground arith)

  dict-IsTyped :
      (sig : List ℕ) (old : Entries) (rhs : Value) {v : Value}
      → IsTyped lib rhs
      → assign_dict sig rhs ≡ ok v
      → IsAssigned (Value.dict sig old) rhs v
  dict-IsTyped sig old (Value.dict s es) {v} t h =
      elim (Bool-cases (char_at sig 2 == char_at s 2)) [
        | inl e ↦
            (let same_key : Result.ok (Value.dict s es) ≡ ok v = ground arith in
              copied-IsTyped (Value.dict sig old) (Value.dict s es) t refl same_key)
        | inr e ↦ absurd (ground arith)
      ]
  dict-IsTyped sig old (Value.basic b) t h = absurd (cc)
  dict-IsTyped sig old (Value.array s xs) t h = absurd (cc)
  dict-IsTyped sig old (Value.struct s xs) t h = absurd (cc)
  dict-IsTyped sig old (Value.variant w) t h = absurd (cc)

  pub unwrapped-IsTyped :
      (rhs : Value) → IsTyped lib rhs → IsTyped lib (Value.variant (unwrapped rhs))
  unwrapped-IsTyped (Value.variant w) t = t
  unwrapped-IsTyped (Value.basic b) t = (refl, t)
  unwrapped-IsTyped (Value.array s xs) t = (refl, t)
  unwrapped-IsTyped (Value.struct s xs) t = (refl, t)
  unwrapped-IsTyped (Value.dict s es) t = (refl, t)

-- An assignment of a typed value that does not throw leaves a typed value; a basic value keeps its
-- type, an array, struct or dict becomes a copy of the other one, signature included, and a variant
-- holds the other value, or what the other variant holds, but never a variant.
pub assign-IsTyped :
    (lib : Libdbus) (d : Doubles) (lhs rhs : Value) {v : Value}
    → ConvertsInRange d
    → IsTyped lib rhs
    → assign d lhs rhs ≡ ok v
    → IsTyped lib v × Leaves lhs rhs v
unfolding assign
assign-IsTyped lib d (Value.basic (Basic.number k old)) rhs c t h =
    number-IsTyped lib d k old rhs c t h
assign-IsTyped lib d (Value.basic (Basic.real old)) (Value.basic (Basic.number l u)) {v} c t h =
    subst (IsAssigned lib (Value.basic (Basic.real old)) (Value.basic (Basic.number l u)))
      (ok_inj h) (tt, refl)
assign-IsTyped lib d (Value.basic (Basic.real old)) (Value.basic (Basic.real r)) c t h =
    copied-IsTyped lib (Value.basic (Basic.real old)) (Value.basic (Basic.real r)) tt refl h
assign-IsTyped lib d (Value.basic (Basic.real old)) rhs c t h = absurd (cc)
assign-IsTyped lib d (Value.basic (Basic.text u old)) rhs c t h = text-IsTyped lib u old rhs t h
assign-IsTyped lib d (Value.array s xs) (Value.array r ys) c t h =
    copied-IsTyped lib (Value.array s xs) (Value.array r ys) t refl h
assign-IsTyped lib d (Value.array s xs) rhs c t h = absurd (cc)
assign-IsTyped lib d (Value.struct s xs) (Value.struct r ys) c t h =
    copied-IsTyped lib (Value.struct s xs) (Value.struct r ys) t refl h
assign-IsTyped lib d (Value.struct s xs) rhs c t h = absurd (cc)
assign-IsTyped lib d (Value.dict s es) rhs c t h = dict-IsTyped lib s es rhs t h
assign-IsTyped lib d (Value.variant w) rhs c t h =
    subst (IsAssigned lib (Value.variant w) rhs) (ok_inj h) (unwrapped-IsTyped lib rhs t, refl)
