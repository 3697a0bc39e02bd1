-- ===== src/Interfaces/Properties.antt =====
-- The method calls of lib/ultrabus/org_freedesktop_DBus_Properties.cpp. Variants are numbers, 0 that of
-- the default constructor.
use Prim.Native.String.{String}
use libultrabus.Common.{ℕ, Bool, true, false, ◌&&◌, Option, List, [], ◌∷◌}
use libultrabus.Retvalue.{Retvalue, of_value, fail, minus_one, set}
use libultrabus.Methods.Replies.{Reply, handle_void_reply}
use libultrabus.Methods.Frames.{string_arg, variant_arg, Arg, Call, Waited, Started}
use libultrabus.Interfaces.{
  Env, method_call, take_reply, check_all, refuse_by, asked, send_call, send_if, bus_check,
}

-- The three tests of the methods of org_freedesktop_DBus_Properties.
abbrev pub property_checks : Env → String → String → String → List (Bool × String)
property_checks env bus_name opath interface_name =
    bus_check env "Invalid bus name" bus_name
    ∷ (env.valid_path opath, "Invalid object path")
    ∷ (env.valid_interface interface_name, "Invalid interface name")
    ∷ []

abbrev pub property_valid : Env → String → String → String → Bool
property_valid env bus_name opath interface_name =
    env.valid_name bus_name && (env.valid_path opath && env.valid_interface interface_name)

abbrev pub property_call : String → String → String → List Arg → Call
property_call bus_name opath member args =
    method_call bus_name opath "org.freedesktop.DBus.Properties" member args

abbrev pub get_call : String → String → String → String → Call
get_call bus_name opath interface_name property_name =
    property_call bus_name opath "Get" (string_arg interface_name ∷ string_arg property_name ∷ [])

abbrev pub variant_expected : String
variant_expected = "Invalid DBus reply argument, expected 'v', got '"

unfoldable pub get_property : Env → String → String → String → String → Reply ℕ → Waited ℕ
unfolding check_all take_reply
get_property env bus_name opath interface_name property_name reply =
    check_all (property_checks env bus_name opath interface_name) (refuse_by 0) (
      asked (get_call bus_name opath interface_name property_name)
        (take_reply 0 variant_expected reply))

unfoldable pub get_property_async : Env → String → String → String → String → Option ℕ → Started ℕ
unfolding send_call take_reply
get_property_async env bus_name opath interface_name property_name callback =
    send_if (property_valid env bus_name opath interface_name) (
      send_call env false (get_call bus_name opath interface_name property_name) callback
        (take_reply 0 variant_expected))

abbrev pub get_all_call : String → String → String → Call
get_all_call bus_name opath interface_name =
    property_call bus_name opath "GetAll" (string_arg interface_name ∷ [])

abbrev pub dict_expected : String
dict_expected = "Invalid DBus reply argument, expected 'a{sv}', got '"

unfoldable pub get_all :
    Env → String → String → String → Reply (List (String × ℕ)) → Waited (List (String × ℕ))
unfolding check_all take_reply
get_all env bus_name opath interface_name reply =
    check_all (property_checks env bus_name opath interface_name) (refuse_by [])
      (asked (get_all_call bus_name opath interface_name) (take_reply [] dict_expected reply))

unfoldable pub get_all_async :
    Env → String → String → String → Option ℕ → Started (List (String × ℕ))
unfolding send_call take_reply
get_all_async env bus_name opath interface_name callback =
    send_if (property_valid env bus_name opath interface_name) (
      send_call env false (get_all_call bus_name opath interface_name) callback
        (take_reply [] dict_expected))

abbrev pub set_call : String → String → String → String → ℕ → Call
set_call bus_name opath interface_name property_name v =
    property_call bus_name opath "Set"
      (string_arg interface_name ∷ string_arg property_name ∷ variant_arg v ∷ [])

-- `ret.err (-1, refusal); return ret=false;`: the assignment gives the value, and what is returned is
-- made of that.
unfoldable pub forget_refusal : String → Retvalue Bool
unfolding set
forget_refusal refusal = of_value (set false (fail minus_one refusal (of_value true))).value

unfoldable pub set_property : Env → String → String → String → String → ℕ → Reply Bool → Waited Bool
unfolding check_all forget_refusal handle_void_reply
set_property env bus_name opath interface_name property_name v reply =
    check_all (property_checks env bus_name opath interface_name) forget_refusal
      (asked (set_call bus_name opath interface_name property_name v) (handle_void_reply reply))

unfoldable pub set_property_async :
    Env → String → String → String → String → ℕ → Option ℕ → Started Bool
unfolding send_call handle_void_reply
set_property_async env bus_name opath interface_name property_name v callback =
    send_if (property_valid env bus_name opath interface_name) (
      send_call env false (set_call bus_name opath interface_name property_name v) callback
        handle_void_reply)
