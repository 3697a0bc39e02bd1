-- ===== src/Methods/Every.antt =====
-- Every wrapped method in one type, to state what holds of all of them.
use Prim.Native.String.{String}
use libultrabus.Common.{ℕ, Bool, Option, List}
use libultrabus.Methods.Replies.{Reply}
use libultrabus.Methods.Frames.{Env, Waited, Started}
use libultrabus.Methods.{
  request_name, request_name_async, release_name, release_name_async, list_queued_owners,
  list_queued_owners_async, list_names, list_names_async, list_activatable_names,
  list_activatable_names_async, name_has_owner, name_has_owner_async, start_service_by_name,
  start_service_by_name_async, update_activation_environment, update_activation_environment_async,
  get_name_owner, get_name_owner_async, get_connection_unix_user, get_connection_unix_user_async,
  get_connection_unix_process_id, get_connection_unix_process_id_async, get_connection_credentials,
  get_connection_credentials_async, get_id, get_id_async, become_monitor, become_monitor_async,
}

pub data Method : Type 0 where
  request : (bus_name : String) → (flags : ℕ) → Method
  release : (bus_name : String) → Method
  queued_owners : (bus_name : String) → Method
  names : Method
  activatable_names : Method
  has_owner : (bus_name : String) → Method
  start_service : (service : String) → (flags : ℕ) → Method
  update_environment : (env_vars : List (String × String)) → Method
  name_owner : (bus_name : String) → Method
  unix_user : (service : String) → Method
  unix_process_id : (service : String) → Method
  credentials : (service : String) → Method
  id : Method
  monitor : (rules : List String) → Method

abbrev pub Result : Method → Type 0
Result (request bus_name flags) = ℕ
Result (release bus_name) = ℕ
Result (queued_owners bus_name) = List String
Result names = List String
Result activatable_names = List String
Result (has_owner bus_name) = Bool
Result (start_service service flags) = ℕ
Result (update_environment env_vars) = Bool
Result (name_owner bus_name) = String
Result (unix_user service) = ℕ
Result (unix_process_id service) = ℕ
Result (credentials service) = List (String × ℕ)
Result id = String
Result (monitor rules) = Bool

-- The synchronous overload.
unfoldable pub wait_for : Env → (m : Method) → Reply (Result m) → Waited (Result m)
unfolding request_name release_name list_queued_owners list_names list_activatable_names
    name_has_owner start_service_by_name update_activation_environment get_name_owner
    get_connection_unix_user get_connection_unix_process_id get_connection_credentials get_id
    become_monitor
wait_for env (request bus_name flags) reply = request_name env bus_name flags reply
wait_for env (release bus_name) reply = release_name env bus_name reply
wait_for env (queued_owners bus_name) reply = list_queued_owners env bus_name reply
wait_for env names reply = list_names env reply
wait_for env activatable_names reply = list_activatable_names env reply
wait_for env (has_owner bus_name) reply = name_has_owner env bus_name reply
wait_for env (start_service service flags) reply = start_service_by_name env service flags reply
wait_for env (update_environment env_vars) reply = update_activation_environment env env_vars reply
wait_for env (name_owner bus_name) reply = get_name_owner env bus_name reply
wait_for env (unix_user service) reply = get_connection_unix_user env service reply
wait_for env (unix_process_id service) reply = get_connection_unix_process_id env service reply
wait_for env (credentials service) reply = get_connection_credentials env service reply
wait_for env id reply = get_id env reply
wait_for env (monitor rules) reply = become_monitor env rules reply

-- The asynchronous overload.
unfoldable pub start_call : Env → (m : Method) → Option ℕ → Started (Result m)
unfolding request_name_async release_name_async list_queued_owners_async list_names_async
    list_activatable_names_async name_has_owner_async start_service_by_name_async
    update_activation_environment_async get_name_owner_async get_connection_unix_user_async
    get_connection_unix_process_id_async get_connection_credentials_async get_id_async
    become_monitor_async
start_call env (request bus_name flags) callback = request_name_async env bus_name flags callback
start_call env (release bus_name) callback = release_name_async env bus_name callback
start_call env (queued_owners bus_name) callback = list_queued_owners_async env bus_name callback
start_call env names callback = list_names_async env callback
start_call env activatable_names callback = list_activatable_names_async env callback
start_call env (has_owner bus_name) callback = name_has_owner_async env bus_name callback
start_call env (start_service service flags) callback =
    start_service_by_name_async env service flags callback
start_call env (update_environment env_vars) callback =
    update_activation_environment_async env env_vars callback
start_call env (name_owner bus_name) callback = get_name_owner_async env bus_name callback
start_call env (unix_user service) callback = get_connection_unix_user_async env service callback
start_call env (unix_process_id service) callback =
    get_connection_unix_process_id_async env service callback
start_call env (credentials service) callback =
    get_connection_credentials_async env service callback
start_call env id callback = get_id_async env callback
start_call env (monitor rules) callback = become_monitor_async env rules callback
