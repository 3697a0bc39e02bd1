-- ===== src/Matches/Rules.antt =====
-- std::set<std::string>, as a list that holds each string once. Only the set matters.
use Prim.Native.String.{String}
use text.Mathlib.Text.{◌==◌ as str_eq}
use text.Mathlib.TextEquality.{eq_iff}
use libultrabus.Common.{
  ◌≡◌, refl, Bool, true, false, not, ◌&&◌, ◌||◌, List, [], ◌∷◌, if◌then◌else◌, arith, if_intro, ap,
}

unfoldable pub contains : String → List String → Bool
contains q [] = false
contains q (r ∷ rs) = str_eq r q || contains q rs

unfoldable pub emplace : String → List String → List String
unfolding contains
emplace r rs = if contains r rs then rs else r ∷ rs

unfoldable pub erase : String → List String → List String
erase r [] = []
erase r (q ∷ rs) = if str_eq q r then erase r rs else q ∷ erase r rs

pub contains_same :
    (r q : String) (rs : List String) → str_eq r q ≡ true → contains r rs ≡ contains q rs
contains_same r q rs e = ap (λ x. contains x rs) ((eq_iff r q).0 e)

contains_found :
    (r q : String) (rs : List String)
    → contains r rs ≡ true
    → contains q rs ≡ (str_eq r q || contains q rs)
contains_found r q rs e = ground (arith, contains_same r q rs)

pub contains-emplace :
    (r q : String) (rs : List String) → contains q (emplace r rs) ≡ (str_eq r q || contains q rs)
unfolding emplace contains
contains-emplace r q rs =
    if_intro (λ xs. contains q xs ≡ (str_eq r q || contains q rs)) (contains r rs)
      (contains_found r q rs) (λ _. refl)

pub contains-erase :
    (r q : String) (rs : List String)
    → contains q (erase r rs) ≡ (not (str_eq r q) && contains q rs)
unfolding erase contains
contains-erase r q [] = ground arith
contains-erase r q (p ∷ rs) =
    ground (arith, contains-erase r q rs, eq_iff p r, eq_iff p q, eq_iff r q)
