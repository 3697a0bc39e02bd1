-- ===== src/Interfaces.antt =====
-- The method calls of the standard interfaces, each with a synchronous and an asynchronous overload:
-- what they share, and org_freedesktop_DBus_Peer.cpp and org_freedesktop_DBus_Introspectable.cpp of
-- lib/ultrabus. Timeouts are handed on to the connection, and are left out.
pub mod Properties
pub mod Managed
pub mod Proxied
pub mod Every
pub mod Shape
pub mod Overloads
pub mod Checks
use Prim.Native.String.{String}
use libultrabus.Common.{
  ℕ, Bool, true, false, ◌&&◌, Option, none, some, List, [], ◌∷◌, if◌then◌else◌,
}
use libultrabus.Common.Int.{ℤ, negsuc}
use libultrabus.Retvalue.{Retvalue, of_value, fail, minus_one}
use libultrabus.Methods.Replies.{
  Reply, error, value, invalid, error_text, invalid_text, handle_void_reply,
}
use libultrabus.Methods.Frames.{Arg, string_arg, variant_arg, Call, Waited, Started, not_started}

-- What a wrapper asks: dbus_validate_bus_name, dbus_validate_path, dbus_validate_interface, `send` in
-- the asynchronous overloads, and the clock, whose difference in microseconds is given.
pub record Env : Type 0 where
  pub valid_name : String → Bool
  pub valid_path : String → Bool
  pub valid_interface : String → Bool
  pub sends : Call → Bool
  pub elapsed : ℤ

abbrev pub method_call : String → String → String → String → List Arg → Call
method_call destination path interface member args = record {
  destination = destination;
  path = path;
  interface = interface;
  member = member;
  args = args;
  want_reply = true;
}

-- A reply whose arguments have to be as expected.
unfoldable pub take_reply : {A : Type 0} → A → String → Reply A → Retvalue A
take_reply default expected (error name msg) =
    fail minus_one (error_text name msg) (of_value default)
take_reply default expected (value a) = of_value a
take_reply default expected (invalid signature) =
    fail minus_one (invalid_text expected signature) (of_value default)

-- The reply to Ping, whatever its arguments are.
unfoldable pub ping_reply : ℤ → Reply ℤ → Retvalue ℤ
ping_reply elapsed (error name msg) = fail minus_one (error_text name msg) (of_value (negsuc 0))
ping_reply elapsed (value a) = of_value elapsed
ping_reply elapsed (invalid signature) = of_value elapsed

-- The tests at the start of a synchronous overload, with the texts it refuses by.
unfoldable pub check_all :
    {A : Type 0} → List (Bool × String) → (String → Retvalue A) → Waited A → Waited A
check_all [] refuse w = w
check_all ((ok, refusal) ∷ checks) refuse w =
    let rest = check_all checks refuse w in
    if ok then rest else record { call = none; result = refuse refusal }

abbrev pub refuse_by : {A : Type 0} → A → String → Retvalue A
refuse_by default refusal = fail minus_one refusal (of_value default)

abbrev pub asked : {A : Type 0} → Call → Retvalue A → Waited A
asked call result = record { call = some call; result = result }

-- `send` without a callback: the wrappers of Peer leave want_reply as it is.
unfoldable pub send_call :
    {A : Type 0} → Env → (told : Bool) → Call → Option ℕ → (Reply A → Retvalue A) → Started A
send_call env told call none handler =
    let unheard = record call { want_reply = told } in
    record { call = some unheard; started = env.sends unheard; on_reply = λ reply. none }
send_call env told call (some callback) handler = record {
  call = some call;
  started = env.sends call;
  on_reply = λ reply. some (handler reply);
}

abbrev pub send_if : {A : Type 0} → Bool → Started A → Started A
send_if ok s = if ok then s else not_started

abbrev pub bus_check : Env → String → String → Bool × String
bus_check env refusal name = (env.valid_name name, refusal)

-- org_freedesktop_DBus_Peer::ping
abbrev pub ping_call : String → Call
ping_call service = method_call service "/" "org.freedesktop.DBus.Peer" "Ping" []

unfoldable pub ping : Env → String → Reply ℤ → Waited ℤ
unfolding check_all ping_reply
ping env service reply =
    check_all (bus_check env "Invalid service name" service ∷ []) (refuse_by (negsuc 0))
      (asked (ping_call service) (ping_reply env.elapsed reply))

unfoldable pub ping_async : Env → String → Option ℕ → Started ℤ
unfolding send_call ping_reply
ping_async env service callback =
    send_if (env.valid_name service)
      (send_call env true (ping_call service) callback (ping_reply env.elapsed))

-- org_freedesktop_DBus_Peer::get_machine_id
abbrev pub machine_id_call : String → Call
machine_id_call service = method_call service "/" "org.freedesktop.DBus.Peer" "GetMachineId" []

abbrev pub string_expected : String
string_expected = "Invalid DBus reply argument, expected 's', got '"

unfoldable pub get_machine_id : Env → String → Reply String → Waited String
unfolding check_all take_reply
get_machine_id env service reply =
    check_all (bus_check env "Invalid service name" service ∷ []) (refuse_by "")
      (asked (machine_id_call service) (take_reply "" string_expected reply))

unfoldable pub get_machine_id_async : Env → String → Option ℕ → Started String
unfolding send_call take_reply
get_machine_id_async env service callback =
    send_if (env.valid_name service)
      (send_call env true (machine_id_call service) callback (take_reply "" string_expected))

-- org_freedesktop_DBus_Introspectable::introspect
abbrev pub introspect_call : String → String → Call
introspect_call service object_path =
    method_call service object_path "org.freedesktop.DBus.Introspectable" "Introspect" []

unfoldable pub introspect : Env → String → String → Reply String → Waited String
unfolding check_all take_reply
introspect env service object_path reply =
    check_all
      (bus_check env "Invalid service name" service
        ∷ (env.valid_path object_path, "Invalid object path")
        ∷ [])
      (refuse_by "")
      (asked (introspect_call service object_path) (take_reply "" string_expected reply))

unfoldable pub introspect_async : Env → String → String → Option ℕ → Started String
unfolding send_call take_reply
introspect_async env service object_path callback =
    send_if (env.valid_name service && env.valid_path object_path) (
      send_call env false (introspect_call service object_path) callback
        (take_reply "" string_expected))
