-- ===== src/Tests/Interfaces.antt =====
-- Method calls of the standard interfaces at concrete inputs.
use text.Mathlib.Text.{◌==◌ as str_eq}
use libultrabus.Common.{ℕ, true, false, not, none, some, ◌≡◌, refl, ◌∷◌, []}
use libultrabus.Common.Int.{pos}
use libultrabus.Retvalue.{of_value}
use libultrabus.Methods.Replies.{value, invalid}
use libultrabus.Methods.Failure.{is_good}
use libultrabus.Methods.Agreement.{Agrees}
use libultrabus.Interfaces.{Env, ping_call, ping_async, send_call}
use libultrabus.Interfaces.Properties.{set_property, forget_refusal}
use libultrabus.Interfaces.Proxied.{Target, make_proxy, invalid_argument}
use libultrabus.Interfaces.Managed.{
  properties_of, find_key, emplace_key, emplace_ifaces, emplace_objects,
}
use libultrabus.Interfaces.Every.{proxy_get, request, begin_request}
use libultrabus.Interfaces.Overloads.{begin_request-request}
use libultrabus.Interfaces.Checks.{IsAnswered, request-IsAnswered}

-- One name and one interface are valid, and every path but the empty one.
abbrev strict : Env
strict = record {
  valid_name = λ s. str_eq s "se.ultramarin";
  valid_path = λ s. not (str_eq s "");
  valid_interface = λ s. str_eq s "se.Iface";
  sends = λ c. true;
  elapsed = pos 250;
}

abbrev proxied : Target
proxied = record { target = "se.ultramarin"; opath = "/x"; def_iface = ""; target_unique_name = "" }

begin_request-request_example :
    Agrees
      (value 7)
      (request strict (proxy_get proxied "se.Iface" "Size") (value 7))
      (begin_request strict (proxy_get proxied "se.Iface" "Size") (some 3))
begin_request-request_example =
    begin_request-request strict (proxy_get proxied "se.Iface" "Size") 3 (value 7)

request-IsAnswered_example :
    IsAnswered strict
      (proxy_get proxied "se.Iface" "Size")
      (is_good {A = ℕ} false (invalid "s"))
      (request strict (proxy_get proxied "se.Iface" "Size") (invalid "s"))
request-IsAnswered_example =
    request-IsAnswered strict (proxy_get proxied "se.Iface" "Size") (invalid "s") refl

-- A property that cannot be set for its interface is no error.
refusal_lost :
    set_property strict "se.ultramarin" "/x" "?" "Size" 5 (value true)
    ≡ record { call = none; result = of_value false }
unfolding set_property forget_refusal
refusal_lost = refl

ping_unheard : (ping_async strict "se.ultramarin" none).call ≡ some (ping_call "se.ultramarin")
unfolding ping_async send_call
ping_unheard = refl

first_stays :
    properties_of "/a" "i" (emplace_objects (("/a", ("i", 1) ∷ ("i", 2) ∷ []) ∷ []) []) ≡ some 1
unfolding properties_of find_key emplace_key emplace_ifaces emplace_objects
first_stays = refl

not_made : make_proxy strict "se.ultramarin" "" "" ≡ invalid_argument "Invalid DBus object path"
unfolding make_proxy
not_made = refl
