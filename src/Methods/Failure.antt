-- ===== src/Methods/Failure.antt =====
-- When a synchronous overload calls the bus, and when it succeeds.
use Prim.Native.String.{String}
use libultrabus.Common.{◌≡◌, Bool, true, false, ◌&&◌, Option, none, some, List, [], ◌∷◌}
use libultrabus.Retvalue.{Retvalue, is_zero}
use libultrabus.Methods.Replies.{Reply, error, value, invalid}
use libultrabus.Methods.Frames.{
  Arg, string_arg, uint32_arg, string_array, string_dict, variant_arg, Call, Env, Waited,
}
use libultrabus.Methods.Every.{Method, update_environment, monitor}

abbrev pub is_some : Option Call → Bool
is_some none = false
is_some (some c) = true

-- Each name among the arguments is a valid bus name.
abbrev pub all_valid : (String → Bool) → List Arg → Bool
all_valid valid [] = true
all_valid valid (string_arg s ∷ args) = valid s && all_valid valid args
all_valid valid (uint32_arg n ∷ args) = all_valid valid args
all_valid valid (string_array l ∷ args) = all_valid valid args
all_valid valid (string_dict d ∷ args) = all_valid valid args
all_valid valid (variant_arg v ∷ args) = all_valid valid args

-- The methods without a result of their own take any reply that is no error.
abbrev pub is_void : Method → Bool
is_void (update_environment env_vars) = true
is_void (monitor rules) = true
is_void _ = false

abbrev pub is_good : {A : Type 0} → Bool → Reply A → Bool
is_good void (error name msg) = false
is_good void (value a) = true
is_good void (invalid signature) = void

pub record IsChecked {A : Type 0} (env : Env) (good : Bool) (w : Waited A) : Type 0 where
  pub connected : is_some w.call ≡ true → env.up ≡ true
  pub checked : (c : Call) → w.call ≡ some c → all_valid env.valid c.args ≡ true
  pub to_bus : (c : Call) → w.call ≡ some c → c.destination ≡ "org.freedesktop.DBus"
  pub succeeds : is_zero w.result.err_num ≡ (is_some w.call && good)
