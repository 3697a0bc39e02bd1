-- ===== src/Methods.antt =====
-- The methods of org.freedesktop.DBus that class connection wraps, lib/ultrabus/connection.cpp: each
-- has a synchronous overload and an asynchronous one.
pub mod Replies
pub mod Frames
pub mod Every
pub mod Agreement
pub mod Failure
use Prim.Native.String.{String}
use libultrabus.Common.{ℕ, Bool, false, Option, List, [], ◌∷◌}
use Replies.{
  Reply, handle_reply, handle_void_reply, handle_set_string_reply, handle_dict_str_variant_reply,
}
use Frames.{
  string_arg, uint32_arg, string_array, string_dict, bus_call, bus_method, Env, Waited, Started,
  named, unnamed, start_named, start_unnamed,
}

unfoldable pub request_name : Env → String → ℕ → Reply ℕ → Waited ℕ
request_name env bus_name flags reply =
    named env "Invalid bus name" bus_name 0
      (bus_method "RequestName" (string_arg bus_name ∷ uint32_arg flags ∷ []))
      (handle_reply 0 "u" reply)

unfoldable pub request_name_async : Env → String → ℕ → Option ℕ → Started ℕ
unfolding start_named
request_name_async env bus_name flags callback =
    start_named env bus_name
      (bus_method "RequestName" (string_arg bus_name ∷ uint32_arg flags ∷ [])) callback
      (handle_reply 0 "u")

unfoldable pub release_name : Env → String → Reply ℕ → Waited ℕ
release_name env bus_name reply =
    named env "Invalid bus name" bus_name 0 (bus_method "ReleaseName" (string_arg bus_name ∷ []))
      (handle_reply 0 "u" reply)

unfoldable pub release_name_async : Env → String → Option ℕ → Started ℕ
unfolding start_named
release_name_async env bus_name callback =
    start_named env bus_name (bus_method "ReleaseName" (string_arg bus_name ∷ [])) callback
      (handle_reply 0 "u")

unfoldable pub list_queued_owners : Env → String → Reply (List String) → Waited (List String)
list_queued_owners env bus_name reply =
    named env "Invalid bus name" bus_name []
      (bus_method "ListQueuedOwners" (string_arg bus_name ∷ [])) (handle_set_string_reply reply)

unfoldable pub list_queued_owners_async : Env → String → Option ℕ → Started (List String)
unfolding start_named
list_queued_owners_async env bus_name callback =
    start_named env bus_name (bus_method "ListQueuedOwners" (string_arg bus_name ∷ [])) callback
      handle_set_string_reply

unfoldable pub list_names : Env → Reply (List String) → Waited (List String)
list_names env reply = unnamed env [] (bus_method "ListNames" []) (handle_set_string_reply reply)

unfoldable pub list_names_async : Env → Option ℕ → Started (List String)
unfolding start_unnamed
list_names_async env callback =
    start_unnamed env (bus_method "ListNames" []) callback handle_set_string_reply

unfoldable pub list_activatable_names : Env → Reply (List String) → Waited (List String)
list_activatable_names env reply =
    unnamed env [] (bus_method "ListActivatableNames" []) (handle_set_string_reply reply)

unfoldable pub list_activatable_names_async : Env → Option ℕ → Started (List String)
unfolding start_unnamed
list_activatable_names_async env callback =
    start_unnamed env (bus_method "ListActivatableNames" []) callback handle_set_string_reply

unfoldable pub name_has_owner : Env → String → Reply Bool → Waited Bool
name_has_owner env bus_name reply =
    named env "Invalid bus name" bus_name false
      (bus_method "NameHasOwner" (string_arg bus_name ∷ [])) (handle_reply false "b" reply)

unfoldable pub name_has_owner_async : Env → String → Option ℕ → Started Bool
unfolding start_named
name_has_owner_async env bus_name callback =
    start_named env bus_name (bus_method "NameHasOwner" (string_arg bus_name ∷ [])) callback
      (handle_reply false "b")

unfoldable pub start_service_by_name : Env → String → ℕ → Reply ℕ → Waited ℕ
start_service_by_name env service flags reply =
    named env "Invalid service name" service 0
      (bus_method "StartServiceByName" (string_arg service ∷ uint32_arg flags ∷ []))
      (handle_reply 0 "u" reply)

unfoldable pub start_service_by_name_async : Env → String → ℕ → Option ℕ → Started ℕ
unfolding start_named
start_service_by_name_async env service flags callback =
    start_named env service
      (bus_method "StartServiceByName" (string_arg service ∷ uint32_arg flags ∷ [])) callback
      (handle_reply 0 "u")

unfoldable pub update_activation_environment :
    Env → List (String × String) → Reply Bool → Waited Bool
update_activation_environment env env_vars reply =
    unnamed env false (bus_method "UpdateActivationEnvironment" (string_dict env_vars ∷ []))
      (handle_void_reply reply)

unfoldable pub update_activation_environment_async :
    Env → List (String × String) → Option ℕ → Started Bool
unfolding start_unnamed
update_activation_environment_async env env_vars callback =
    start_unnamed env (bus_method "UpdateActivationEnvironment" (string_dict env_vars ∷ []))
      callback handle_void_reply

unfoldable pub get_name_owner : Env → String → Reply String → Waited String
get_name_owner env bus_name reply =
    named env "Invalid bus name" bus_name "" (bus_method "GetNameOwner" (string_arg bus_name ∷ []))
      (handle_reply "" "s" reply)

unfoldable pub get_name_owner_async : Env → String → Option ℕ → Started String
unfolding start_named
get_name_owner_async env bus_name callback =
    start_named env bus_name (bus_method "GetNameOwner" (string_arg bus_name ∷ [])) callback
      (handle_reply "" "s")

unfoldable pub get_connection_unix_user : Env → String → Reply ℕ → Waited ℕ
get_connection_unix_user env service reply =
    named env "Invalid service name" service 0
      (bus_method "GetConnectionUnixUser" (string_arg service ∷ [])) (handle_reply 0 "u" reply)

unfoldable pub get_connection_unix_user_async : Env → String → Option ℕ → Started ℕ
unfolding start_named
get_connection_unix_user_async env service callback =
    start_named env service (bus_method "GetConnectionUnixUser" (string_arg service ∷ [])) callback
      (handle_reply 0 "u")

unfoldable pub get_connection_unix_process_id : Env → String → Reply ℕ → Waited ℕ
get_connection_unix_process_id env service reply =
    named env "Invalid service name" service 0
      (bus_method "GetConnectionUnixProcessID" (string_arg service ∷ [])) (handle_reply 0 "u" reply)

unfoldable pub get_connection_unix_process_id_async : Env → String → Option ℕ → Started ℕ
unfolding start_named
get_connection_unix_process_id_async env service callback =
    start_named env service (bus_method "GetConnectionUnixProcessID" (string_arg service ∷ []))
      callback (handle_reply 0 "u")

unfoldable pub get_connection_credentials :
    Env → String → Reply (List (String × ℕ)) → Waited (List (String × ℕ))
get_connection_credentials env service reply =
    named env "Invalid service name" service []
      (bus_method "GetConnectionCredentials" (string_arg service ∷ []))
      (handle_dict_str_variant_reply reply)

unfoldable pub get_connection_credentials_async :
    Env → String → Option ℕ → Started (List (String × ℕ))
unfolding start_named
get_connection_credentials_async env service callback =
    start_named env service (bus_method "GetConnectionCredentials" (string_arg service ∷ []))
      callback handle_dict_str_variant_reply

unfoldable pub get_id : Env → Reply String → Waited String
get_id env reply = unnamed env "" (bus_method "GetId" []) (handle_reply "" "s" reply)

unfoldable pub get_id_async : Env → Option ℕ → Started String
unfolding start_unnamed
get_id_async env callback = start_unnamed env (bus_method "GetId" []) callback (handle_reply "" "s")

unfoldable pub become_monitor : Env → List String → Reply Bool → Waited Bool
become_monitor env rules reply =
    unnamed env false
      (bus_call "org.freedesktop.DBus.Monitoring" "BecomeMonitor"
        (string_array rules ∷ uint32_arg 0 ∷ []))
      (handle_void_reply reply)

unfoldable pub become_monitor_async : Env → List String → Option ℕ → Started Bool
unfolding start_unnamed
become_monitor_async env rules callback =
    start_unnamed env (bus_method "BecomeMonitor" (string_array rules ∷ uint32_arg 0 ∷ [])) callback
      handle_void_reply
