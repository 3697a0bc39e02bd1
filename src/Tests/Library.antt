-- ===== src/Tests/Library.antt =====
-- A library that knows four signatures, and satisfies what is used of libdbus.
use libultrabus.Common.{
  ℕ, Bool, true, false, ◌||◌, List, [], ◌∷◌, ◌≡◌, ◌==◌, refl, codes, same, same→eq, if◌then◌else◌,
  arith, inl, inr, ◌⊎◌,
}
use libultrabus.Values.{Libdbus}
use libultrabus.Values.Typed.{Laws, is_basic_code}
use libultrabus.Values.Create.Complete.{Form, Grammar}

abbrev single : List ℕ → Bool
single s =
    same s (codes "s") || (same s (codes "v") || (same s (codes "as") || same s (codes "(ss)")))

abbrev pub library : Libdbus
library = record {
  valid_path = λ s. same s (codes "/");
  valid_signature = λ s. same s [] || same s (codes "(ss)");
  valid_single = single;
  parts = λ s. if same s (codes "ss") then codes "s" ∷ codes "s" ∷ [] else s ∷ [];
}

or_cases : (a b : Bool) → a || b ≡ true → (a ≡ true) ⊎ (b ≡ true)
or_cases true b h = inl refl
or_cases false b h = inr h

basic_alone_single :
    (c : ℕ) (cs : List ℕ) → is_basic_code c ≡ true → single (b'a' ∷ c ∷ cs) ≡ true → cs ≡ []
unfolding same
basic_alone_single c [] b h = refl
basic_alone_single c (d ∷ ds) b h = ground arith

single_alone_single :
    (c : ℕ) (cs : List ℕ) → is_basic_code c || c == b'v' ≡ true → single (c ∷ cs) ≡ true → cs ≡ []
unfolding same
single_alone_single c [] b h = refl
single_alone_single c (d ∷ ds) b h = ground arith

pub library-Laws : Laws library
unfolding same
library-Laws = record {
  basic_alone = basic_alone_single;
  single_alone = single_alone_single;
  strings_valid = refl;
}

single-Form : (s : List ℕ) → single s ≡ true → Form library s
unfolding same
single-Form s h = elim (or_cases _ _ h) [
  | inl a ↦ Form.basic_form b's' (same→eq s (codes "s") a) refl
  | inr k ↦ elim (or_cases _ _ k) [
    | inl a ↦ Form.variant_form (same→eq s (codes "v") a)
    | inr j ↦ elim (or_cases _ _ j) [
      | inl a ↦ Form.array_form b's' [] (same→eq s (codes "as") a) refl
      | inr a ↦
          (let e = same→eq s (codes "(ss)") a in
            Form.struct_form b's' [] (codes "s" ∷ []) e refl (refl, (refl, tt)) (rw e refl))
    ]
  ]
]

pub library-Grammar : Grammar library
unfolding same
library-Grammar = record { form = single-Form; root_valid = refl; empty_valid = refl }
