-- ===== src/Interfaces/Every.antt =====
-- Every method call of the standard interfaces and of the proxies in one type.
use Prim.Native.String.{String}
use libultrabus.Common.Int.{ℤ}
use libultrabus.Common.{ℕ, Bool, Option, List}
use libultrabus.Methods.Replies.{Reply}
use libultrabus.Methods.Frames.{Waited, Started}
use libultrabus.Interfaces.{
  Env, ping, ping_async, get_machine_id, get_machine_id_async, introspect, introspect_async,
}
use libultrabus.Interfaces.Properties.{
  get_property, get_property_async, get_all, get_all_async, set_property, set_property_async,
}
use libultrabus.Interfaces.Managed.{Ifaces, get_managed_objects, get_managed_objects_async}
use libultrabus.Interfaces.Proxied.{
  Target, get_iface_property, get_iface_property_async, get_all_iface_properties,
  get_all_iface_properties_async, set_iface_property, set_iface_property_async,
}

pub data RemoteCall : Type 0 where
  ping_peer : (service : String) → RemoteCall
  peer_machine_id : (service : String) → RemoteCall
  introspect_object : (service object_path : String) → RemoteCall
  get_one : (bus_name opath interface property : String) → RemoteCall
  get_every : (bus_name opath interface : String) → RemoteCall
  set_one : (bus_name opath interface property : String) → (v : ℕ) → RemoteCall
  managed : (bus_name opath : String) → RemoteCall
  proxy_get : (t : Target) → (interface property : String) → RemoteCall
  proxy_get_all : (t : Target) → (interface : String) → RemoteCall
  proxy_set : (t : Target) → (interface property : String) → (v : ℕ) → RemoteCall

abbrev pub Result : RemoteCall → Type 0
Result (ping_peer service) = ℤ
Result (peer_machine_id service) = String
Result (introspect_object service object_path) = String
Result (get_one bus_name opath interface property) = ℕ
Result (get_every bus_name opath interface) = List (String × ℕ)
Result (set_one bus_name opath interface property v) = Bool
Result (managed bus_name opath) = List (String × Ifaces)
Result (proxy_get t interface property) = ℕ
Result (proxy_get_all t interface) = List (String × ℕ)
Result (proxy_set t interface property v) = Bool

-- The synchronous overload.
unfoldable pub request : Env → (m : RemoteCall) → Reply (Result m) → Waited (Result m)
unfolding ping get_machine_id introspect get_property get_all set_property get_managed_objects
    get_iface_property get_all_iface_properties set_iface_property
request env (ping_peer service) reply = ping env service reply
request env (peer_machine_id service) reply = get_machine_id env service reply
request env (introspect_object service object_path) reply = introspect env service object_path reply
request env (get_one bus_name opath interface property) reply =
    get_property env bus_name opath interface property reply
request env (get_every bus_name opath interface) reply = get_all env bus_name opath interface reply
request env (set_one bus_name opath interface property v) reply =
    set_property env bus_name opath interface property v reply
request env (managed bus_name opath) reply = get_managed_objects env bus_name opath reply
request env (proxy_get t interface property) reply =
    get_iface_property env t interface property reply
request env (proxy_get_all t interface) reply = get_all_iface_properties env t interface reply
request env (proxy_set t interface property v) reply =
    set_iface_property env t interface property v reply

-- The asynchronous overload.
unfoldable pub begin_request : Env → (m : RemoteCall) → Option ℕ → Started (Result m)
unfolding ping_async get_machine_id_async introspect_async get_property_async get_all_async
    set_property_async get_managed_objects_async get_iface_property_async
    get_all_iface_properties_async set_iface_property_async
begin_request env (ping_peer service) callback = ping_async env service callback
begin_request env (peer_machine_id service) callback = get_machine_id_async env service callback
begin_request env (introspect_object service object_path) callback =
    introspect_async env service object_path callback
begin_request env (get_one bus_name opath interface property) callback =
    get_property_async env bus_name opath interface property callback
begin_request env (get_every bus_name opath interface) callback =
    get_all_async env bus_name opath interface callback
begin_request env (set_one bus_name opath interface property v) callback =
    set_property_async env bus_name opath interface property v callback
begin_request env (managed bus_name opath) callback =
    get_managed_objects_async env bus_name opath callback
begin_request env (proxy_get t interface property) callback =
    get_iface_property_async env t interface property callback
begin_request env (proxy_get_all t interface) callback =
    get_all_iface_properties_async env t interface callback
begin_request env (proxy_set t interface property v) callback =
    set_iface_property_async env t interface property v callback
