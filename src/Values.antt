-- ===== src/Values.antt =====
-- The values of libultrabus: the subclasses of dbus_type (lib/ultrabus/dbus_type.hpp), each with its
-- member `sig` where that is not fixed by the class, and its value. A double is known by a number
-- only. A unique_ptr that owns a value is the value; a dbus_variant that was moved from gets a new
-- dbus_i32 when it is next read, and so is one that holds it.
pub mod Typed
pub mod Arrays
pub mod Structs
pub mod Assign
pub mod Dicts
pub mod Create
pub mod Compare
pub mod Texts
use libultrabus.Common.{
  ℕ, ◌≡◌, refl, ◌⊎◌, inl, inr, Bool, true, false, List, [], ◌∷◌, zero, suc, if◌then◌else◌,
}
use libultrabus.Common.Int.{ℤ, pos}
use libultrabus.Numbers.{Kind}

pub data Text : Type 0 where
  string opath type_signature : Text

pub data Basic : Type 0 where
  number : Kind → ℤ → Basic
  real : ℕ → Basic
  text : Text → List ℕ → Basic

mutual
  pub data Value : Type 0 where
    basic : Basic → Value
    array : List ℕ → Values → Value
    struct : List ℕ → Values → Value
    dict : List ℕ → Entries → Value
    variant : Value → Value

  pub data Values : Type 0 where
    nil : Values
    cons : Value → Values → Values

  pub data Entries : Type 0 where
    end : Entries
    entry : Basic → Value → Entries → Entries

-- std::invalid_argument, std::bad_cast and std::out_of_range
pub data Exception : Type 0 where
  invalid_argument bad_cast out_of_range : Exception

pub data Result {ℓ} (A : Type ℓ) : Type ℓ where
  ok : A → Result A
  throw : Exception → Result A

-- To split on a call, and to read off its result.
pub Result-cases {ℓ} :
    {A : Type ℓ} (r : Result A) → ((a : A) × (r ≡ ok a)) ⊎ ((e : Exception) × (r ≡ throw e))
Result-cases (ok a) = inl (a, refl)
Result-cases (throw e) = inr (e, refl)

pub ok_inj {ℓ} : {A : Type ℓ} {a b : A} → Result.ok a ≡ ok b → a ≡ b
ok_inj h = cc

abbrev pub code_of_kind : Kind → ℕ
code_of_kind Kind.boolean = b'b'
code_of_kind Kind.byte = b'y'
code_of_kind Kind.i16 = b'n'
code_of_kind Kind.u16 = b'q'
code_of_kind Kind.i32 = b'i'
code_of_kind Kind.u32 = b'u'
code_of_kind Kind.i64 = b'x'
code_of_kind Kind.u64 = b't'
code_of_kind Kind.unix_fd = b'h'

abbrev pub code_of_text : Text → ℕ
code_of_text Text.string = b's'
code_of_text Text.opath = b'o'
code_of_text Text.type_signature = b'g'

abbrev pub code : Basic → ℕ
code (Basic.number k v) = code_of_kind k
code (Basic.real r) = b'd'
code (Basic.text t s) = code_of_text t

-- dbus_type::signature
abbrev pub signature : Value → List ℕ
signature (Value.basic b) = code b ∷ []
signature (Value.array s xs) = s
signature (Value.struct s xs) = s
signature (Value.dict s es) = s
signature (Value.variant v) = b'v' ∷ []

abbrev pub is_variant : Value → Bool
is_variant (Value.variant v) = true
is_variant _ = false

abbrev pub of_list : List Value → Values
of_list [] = Values.nil
of_list (x ∷ xs) = Values.cons x (of_list xs)

abbrev pub to_list : Values → List Value
to_list Values.nil = []
to_list (Values.cons x xs) = x ∷ to_list xs

-- sig[i], which is 0 behind the end.
abbrev pub char_at : List ℕ → ℕ → ℕ
char_at [] i = 0
char_at (c ∷ cs) zero = c
char_at (c ∷ cs) (suc i) = char_at cs i

-- What the classes ask libdbus: dbus_validate_path, dbus_signature_validate and
-- dbus_signature_validate_single, and the complete types in a signature, which
-- dbus_signature_iter_next goes through.
pub record Libdbus : Type 0 where
  pub valid_path : List ℕ → Bool
  pub valid_signature : List ℕ → Bool
  pub valid_single : List ℕ → Bool
  pub parts : List ℕ → List (List ℕ)

-- The constructor of the string types with a text: dbus_opath and dbus_signature validate it.
unfoldable pub make_text : Libdbus → Text → List ℕ → Result Value
make_text lib Text.string s = ok (Value.basic (Basic.text Text.string s))
make_text lib Text.opath s =
    if lib.valid_path s
    then ok (Value.basic (Basic.text Text.opath s))
    else throw Exception.invalid_argument
make_text lib Text.type_signature s =
    if lib.valid_signature s
    then ok (Value.basic (Basic.text Text.type_signature s))
    else throw Exception.invalid_argument
