-- ===== src/Retvalue.antt =====
-- lib/ultrabus/retvalue.hpp: a value with an error code and a description. The copying and moving
-- constructors and assignments are those of the record.
use Prim.Native.String.{String}
pub use libultrabus.Common.Int.{ℤ, pos, negsuc}
use libultrabus.Common.{zero, suc, ◌≡◌, refl, Bool, true, false, if◌then◌else◌, arith}

abbrev pub minus_one : ℤ
minus_one = negsuc 0

abbrev pub is_zero : ℤ → Bool
is_zero (pos zero) = true
is_zero (pos (suc n)) = false
is_zero (negsuc n) = false

pub record Retvalue {ℓ} (A : Type ℓ) : Type ℓ where
  pub value : A
  pub err_num : ℤ
  pub err_str : String

module _ {ℓ} {A : Type ℓ} where
  -- retvalue (const T&)
  abbrev pub of_value : A → Retvalue A
  of_value a = record { value = a; err_num = pos 0; err_str = "" }

  -- `set` and `operator= (const T&)`: the error stays.
  unfoldable pub set : A → Retvalue A → Retvalue A
  set a r = record r { value = a }

  -- err (int)
  unfoldable pub set_err : ℤ → Retvalue A → Retvalue A
  set_err e r = record r { err_num = e }

  -- err (int, const std::string&)
  abbrev pub fail : ℤ → String → Retvalue A → Retvalue A
  fail e description r = record r { err_num = e; err_str = description }

  -- err (const std::string&)
  unfoldable pub describe : String → Retvalue A → Retvalue A
  describe description r = record r {
    err_num = if is_zero r.err_num then minus_one else r.err_num;
    err_str = description;
  }

  -- A description always leaves an error: -1 if there was none, else the one there was. The value
  -- stays, and assigning a value afterwards does not clear the error.
  pub describe_is_error :
      (description : String) (a : A) (r : Retvalue A)
      → let s = describe description r in
        (is_zero s.err_num ≡ false)
        × (is_zero r.err_num ≡ true → s.err_num ≡ minus_one)
        × (is_zero r.err_num ≡ false → s.err_num ≡ r.err_num)
        × (s.value ≡ r.value)
        × (s.err_str ≡ description)
        × ((set a s).err_num ≡ s.err_num)
  unfolding describe set
  describe_is_error description a r = (ground arith, ground arith, ground arith, refl, refl, refl)
