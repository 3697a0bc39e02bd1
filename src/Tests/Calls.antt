-- ===== src/Tests/Calls.antt =====
-- Method calls at concrete inputs.
use text.Mathlib.Text.{◌==◌ as str_eq}
use libultrabus.Common.{true, some, none, ◌≡◌, refl, ◌∷◌, []}
use libultrabus.Methods.Replies.{value}
use libultrabus.Methods.Frames.{Env, bus_method, string_arg, uint32_arg}
use libultrabus.Methods.Every.{request, wait_for, start_call}
use libultrabus.Methods.{request_name}
use libultrabus.Methods.Agreement.{Agrees, start_call-wait_for}

-- Only one name is valid.
abbrev strict : Env
strict = record {
  up = true;
  up_again = true;
  valid = λ s. str_eq s "se.ultramarin";
  sends = λ c. true;
}

start_call-wait_for_example :
    Agrees
      (value 1)
      (wait_for strict (request "se.ultramarin" 4) (value 1))
      (start_call strict (request "se.ultramarin" 4) (some 9))
start_call-wait_for_example =
    start_call-wait_for strict (request "se.ultramarin" 4) 9 (value 1) refl

request_called :
    (wait_for strict (request "se.ultramarin" 4) (value 1)).call
    ≡ some (bus_method "RequestName" (string_arg "se.ultramarin" ∷ uint32_arg 4 ∷ []))
unfolding wait_for request_name
request_called = refl

request_refused : (wait_for strict (request "x" 4) (value 1)).call ≡ none
unfolding wait_for request_name
request_refused = refl
