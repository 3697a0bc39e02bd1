-- ===== src/Values/Assign/Copy.antt =====
-- operator= between values of one signature.
use libultrabus.Common.{subst, ℕ, [], ◌∷◌, ◌≡◌, refl, sym, ap, some, arith, ==_iff}
use libultrabus.Common.Int.{ℤ}
use libultrabus.Numbers.{Kind, Operand, InRange, convert}
use libultrabus.Numbers as Numbers
use libultrabus.Numbers.Conversion.{convert-fits}
use libultrabus.Values.{
  Text, Basic, Value, ok, Libdbus, signature, char_at, code_of_text, code_of_kind,
}
use libultrabus.Values.Typed.{IsTyped}
use libultrabus.Values.Assign.{Doubles, taken, assign}

-- Two values of classes that can be assigned to each other.
abbrev pub SameClass : Value → Value → Type 0
SameClass (Value.basic a) (Value.basic b) = Unit {0}
SameClass (Value.array s xs) (Value.array r ys) = Unit {0}
SameClass (Value.struct s xs) (Value.struct r ys) = Unit {0}
SameClass (Value.dict s es) (Value.dict r fs) = Unit {0}
SameClass (Value.variant v) (Value.variant w) = Unit {0}
SameClass v w = ⊥

first_char : {a b : ℕ} → a ∷ [] ≡ b ∷ [] → a ≡ b
first_char p = ap (λ s. char_at s 0) p

code_of_kind_inj : (k l : Kind) → code_of_kind k ≡ code_of_kind l → k ≡ l
code_of_kind_inj k l h = ground arith

code_of_text_inj : (t u : Text) → code_of_text t ≡ code_of_text u → t ≡ u
code_of_text_inj t u h = ground arith

number_same : (k : Kind) (u : ℤ) → InRange k u → Numbers.assign k (Operand.number k u) ≡ some u
unfolding Numbers.assign
number_same k u h = ground (arith, convert-fits k u h)

basic_same :
    (lib : Libdbus) (d : Doubles) (a b : Basic)
    → signature (Value.basic a) ≡ signature (Value.basic b)
    → IsTyped lib (Value.basic b)
    → assign d (Value.basic a) (Value.basic b) ≡ ok (Value.basic b)
unfolding assign
basic_same lib d (Basic.number k v) (Basic.number l u) s t =
    subst
      (λ m. taken m (Numbers.assign m (Operand.number l u)) ≡ ok (Value.basic (Basic.number l u)))
      (sym (code_of_kind_inj k l (first_char s))) (ap (taken l) (number_same l u t))
basic_same lib d (Basic.text t q) (Basic.text u r) s h =
    let e = first_char s in ground (arith, code_of_text_inj t u e)
basic_same lib d (Basic.real q) (Basic.real r) s t = refl
basic_same lib d (Basic.number k v) (Basic.text u r) s t =
    let e = first_char s in absurd (ground arith)
basic_same lib d (Basic.number k v) (Basic.real r) s t =
    let e = first_char s in absurd (ground arith)
basic_same lib d (Basic.text t q) (Basic.number l u) s h =
    let e = first_char s in absurd (ground arith)
basic_same lib d (Basic.text t q) (Basic.real r) s h = let e = first_char s in absurd (ground arith)
basic_same lib d (Basic.real q) (Basic.number l u) s t =
    let e = first_char s in absurd (ground arith)
basic_same lib d (Basic.real q) (Basic.text u r) s t = let e = first_char s in absurd (ground arith)

-- Between two values of one class and one signature, operator= makes a copy.
pub assign_same :
    (lib : Libdbus) (d : Doubles) (lhs rhs : Value)
    → SameClass lhs rhs
    → signature lhs ≡ signature rhs
    → IsTyped lib rhs
    → assign d lhs rhs ≡ ok rhs
unfolding assign
assign_same lib d (Value.basic a) (Value.basic b) c s t = basic_same lib d a b s t
assign_same lib d (Value.array s xs) (Value.array r ys) c e t = refl
assign_same lib d (Value.struct s xs) (Value.struct r ys) c e t = refl
assign_same lib d (Value.dict s es) (Value.dict r fs) c e t =
    rw ((==_iff (char_at s 2) (char_at r 2)).1 (ap (λ q. char_at q 2) e))
assign_same lib d (Value.variant v) (Value.variant w) c e t = refl
assign_same lib d lhs rhs c e t = absurd c
