-- ===== src/Interfaces/Shape.antt =====
-- What the method calls of the standard interfaces have in common: each is tests, a call and a reading
-- of the reply.
use Prim.Native.String.{String}
use libultrabus.Common.{ℕ, ◌≡◌, refl, Bool, true, false, ◌&&◌, Option, List, [], ◌∷◌}
use libultrabus.Common.Int.{negsuc}
use libultrabus.Retvalue.{Retvalue}
use libultrabus.Methods.Replies.{Reply, handle_void_reply}
use libultrabus.Methods.Frames.{Call}
use libultrabus.Interfaces.{
  Env, check_all, refuse_by, asked, send_call, send_if, bus_check, take_reply, ping_call,
  ping_reply, machine_id_call, string_expected, introspect_call, ping, ping_async, get_machine_id,
  get_machine_id_async, introspect, introspect_async,
}
use libultrabus.Interfaces.Properties.{
  property_checks, get_call, get_all_call, set_call, variant_expected, dict_expected,
  forget_refusal, get_property, get_property_async, get_all, get_all_async, set_property,
  set_property_async,
}
use libultrabus.Interfaces.Managed.{
  managed_objects_call, handle_get_managed_objects_reply, get_managed_objects,
  get_managed_objects_async,
}
use libultrabus.Interfaces.Proxied.{
  iface_check, get_iface_property, get_iface_property_async, get_all_iface_properties,
  get_all_iface_properties_async, set_iface_property, set_iface_property_async,
}
use libultrabus.Interfaces.Every.{
  RemoteCall, ping_peer, peer_machine_id, introspect_object, get_one, get_every, set_one, managed,
  proxy_get, proxy_get_all, proxy_set, Result, request, begin_request,
}

abbrev pub checks_of : Env → RemoteCall → List (Bool × String)
checks_of env (ping_peer service) = bus_check env "Invalid service name" service ∷ []
checks_of env (peer_machine_id service) = bus_check env "Invalid service name" service ∷ []
checks_of env (introspect_object service object_path) =
    bus_check env "Invalid service name" service
    ∷ (env.valid_path object_path, "Invalid object path")
    ∷ []
checks_of env (get_one bus_name opath interface property) =
    property_checks env bus_name opath interface
checks_of env (get_every bus_name opath interface) = property_checks env bus_name opath interface
checks_of env (set_one bus_name opath interface property v) =
    property_checks env bus_name opath interface
checks_of env (managed bus_name opath) =
    bus_check env "Invalid bus name" bus_name ∷ (env.valid_path opath, "Invalid object path") ∷ []
checks_of env (proxy_get t interface property) = iface_check env interface
checks_of env (proxy_get_all t interface) = iface_check env interface
checks_of env (proxy_set t interface property v) = iface_check env interface

abbrev pub refuse_of : (m : RemoteCall) → String → Retvalue (Result m)
refuse_of (ping_peer service) = refuse_by (negsuc 0)
refuse_of (peer_machine_id service) = refuse_by ""
refuse_of (introspect_object service object_path) = refuse_by ""
refuse_of (get_one bus_name opath interface property) = refuse_by 0
refuse_of (get_every bus_name opath interface) = refuse_by []
refuse_of (set_one bus_name opath interface property v) = forget_refusal
refuse_of (managed bus_name opath) = refuse_by []
refuse_of (proxy_get t interface property) = refuse_by 0
refuse_of (proxy_get_all t interface) = refuse_by []
refuse_of (proxy_set t interface property v) = forget_refusal

abbrev pub call_of : RemoteCall → Call
call_of (ping_peer service) = ping_call service
call_of (peer_machine_id service) = machine_id_call service
call_of (introspect_object service object_path) = introspect_call service object_path
call_of (get_one bus_name opath interface property) = get_call bus_name opath interface property
call_of (get_every bus_name opath interface) = get_all_call bus_name opath interface
call_of (set_one bus_name opath interface property v) = set_call bus_name opath interface property v
call_of (managed bus_name opath) = managed_objects_call bus_name opath
call_of (proxy_get t interface property) = get_call t.target t.opath interface property
call_of (proxy_get_all t interface) = get_all_call t.target t.opath interface
call_of (proxy_set t interface property v) = set_call t.target t.opath interface property v

abbrev pub handler_of : Env → (m : RemoteCall) → Reply (Result m) → Retvalue (Result m)
handler_of env (ping_peer service) = ping_reply env.elapsed
handler_of env (peer_machine_id service) = take_reply "" string_expected
handler_of env (introspect_object service object_path) = take_reply "" string_expected
handler_of env (get_one bus_name opath interface property) = take_reply 0 variant_expected
handler_of env (get_every bus_name opath interface) = take_reply [] dict_expected
handler_of env (set_one bus_name opath interface property v) = handle_void_reply
handler_of env (managed bus_name opath) = handle_get_managed_objects_reply
handler_of env (proxy_get t interface property) = take_reply 0 variant_expected
handler_of env (proxy_get_all t interface) = take_reply [] dict_expected
handler_of env (proxy_set t interface property v) = handle_void_reply

-- The wrappers of Peer still ask for a reply when they have no callback.
abbrev pub told_of : RemoteCall → Bool
told_of (ping_peer service) = true
told_of (peer_machine_id service) = true
told_of _ = false

abbrev pub all_pass : List (Bool × String) → Bool
all_pass [] = true
all_pass ((ok, refusal) ∷ []) = ok
all_pass ((ok, refusal) ∷ check ∷ checks) = ok && all_pass (check ∷ checks)

pub request-check_all :
    (env : Env) (m : RemoteCall) (reply : Reply (Result m))
    → request env m reply
      ≡ check_all (checks_of env m) (refuse_of m) (asked (call_of m) (handler_of env m reply))
unfolding request ping get_machine_id introspect get_property get_all set_property
    get_managed_objects get_iface_property get_all_iface_properties set_iface_property
request-check_all env (ping_peer service) reply = refl
request-check_all env (peer_machine_id service) reply = refl
request-check_all env (introspect_object service object_path) reply = refl
request-check_all env (get_one bus_name opath interface property) reply = refl
request-check_all env (get_every bus_name opath interface) reply = refl
request-check_all env (set_one bus_name opath interface property v) reply = refl
request-check_all env (managed bus_name opath) reply = refl
request-check_all env (proxy_get t interface property) reply = refl
request-check_all env (proxy_get_all t interface) reply = refl
request-check_all env (proxy_set t interface property v) reply = refl

pub begin_request-send_if :
    (env : Env) (m : RemoteCall) (callback : Option ℕ)
    → begin_request env m callback
      ≡ send_if
          (all_pass (checks_of env m))
          (send_call env (told_of m) (call_of m) callback (handler_of env m))
unfolding begin_request ping_async get_machine_id_async introspect_async get_property_async
    get_all_async set_property_async get_managed_objects_async get_iface_property_async
    get_all_iface_properties_async set_iface_property_async
begin_request-send_if env (ping_peer service) callback = refl
begin_request-send_if env (peer_machine_id service) callback = refl
begin_request-send_if env (introspect_object service object_path) callback = refl
begin_request-send_if env (get_one bus_name opath interface property) callback = refl
begin_request-send_if env (get_every bus_name opath interface) callback = refl
begin_request-send_if env (set_one bus_name opath interface property v) callback = refl
begin_request-send_if env (managed bus_name opath) callback = refl
begin_request-send_if env (proxy_get t interface property) callback = refl
begin_request-send_if env (proxy_get_all t interface) callback = refl
begin_request-send_if env (proxy_set t interface property v) callback = refl
