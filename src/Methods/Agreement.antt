-- ===== src/Methods/Agreement.antt =====
-- The two overloads of a method against each other.
use Prim.Native.String.{String}
use libultrabus.Common.{ℕ, ◌≡◌, refl, Bool, true, false, ◌&&◌, some, Bool-cases, inl, inr}
use libultrabus.Retvalue.{Retvalue}
use libultrabus.Methods.Replies.{Reply}
use libultrabus.Methods.Frames.{
  Call, Env, Waited, Started, named, unnamed, start, start_named, start_unnamed,
}
use libultrabus.Methods.Every.{
  Method, request, release, queued_owners, names, activatable_names, has_owner, start_service,
  update_environment, name_owner, unix_user, unix_process_id, credentials, id, monitor, Result,
  wait_for, start_call,
}
use libultrabus.Methods.{
  request_name, request_name_async, release_name, release_name_async, list_queued_owners,
  list_queued_owners_async, list_names, list_names_async, list_activatable_names,
  list_activatable_names_async, name_has_owner, name_has_owner_async, start_service_by_name,
  start_service_by_name_async, update_activation_environment, update_activation_environment_async,
  get_name_owner, get_name_owner_async, get_connection_unix_user, get_connection_unix_user_async,
  get_connection_unix_process_id, get_connection_unix_process_id_async, get_connection_credentials,
  get_connection_credentials_async, get_id, get_id_async, become_monitor, become_monitor_async,
}

-- The same call, and on its reply the same result for the user's callback.
pub record Agrees {A : Type 0} (reply : Reply A) (w : Waited A) (s : Started A) : Type 0 where
  pub same_call : s.call ≡ w.call
  pub same_result : (c : Call) → w.call ≡ some c → s.on_reply reply ≡ some w.result

module _ {A : Type 0} (env : Env) (call : Call) (cb : ℕ) (handler : Reply A → Retvalue A) where
  named-Agrees :
      (refusal name : String) (default : A) (reply : Reply A)
      → Agrees reply
          (named env refusal name default call (handler reply))
          (start_named env name call (some cb) handler)
  unfolding start_named start
  named-Agrees refusal name default reply = elim (Bool-cases (env.up && env.valid name)) [
    | inl e ↦ rw (e) (record { same_call = refl; same_result = λ c h. refl })
    | inr e ↦ rw (e) (record { same_call = refl; same_result = λ c h. cc h })
  ]

  unnamed-Agrees :
      (default : A) (reply : Reply A)
      → Agrees reply
          (unnamed env default call (handler reply))
          (start_unnamed env call (some cb) handler)
  unfolding start_unnamed start
  unnamed-Agrees default reply = elim (Bool-cases env.up) [
    | inl e ↦ rw (e) (record { same_call = refl; same_result = λ c h. refl })
    | inr e ↦ rw (e) (record { same_call = refl; same_result = λ c h. cc h })
  ]

abbrev pub is_monitor : Method → Bool
is_monitor (monitor rules) = true
is_monitor _ = false

-- For every wrapped method but BecomeMonitor, and whatever is_connected, dbus_validate_bus_name and
-- the bus answer: the asynchronous overload with a callback sends the very call of the synchronous
-- one, or both send none, and on a reply it calls the callback with what the synchronous overload
-- returns for that reply.
pub start_call-wait_for :
    (env : Env) (m : Method) (cb : ℕ) (reply : Reply (Result m))
    → is_monitor m ≡ false
    → Agrees reply (wait_for env m reply) (start_call env m (some cb))
unfolding wait_for start_call request_name request_name_async release_name release_name_async
    list_queued_owners list_queued_owners_async list_names list_names_async list_activatable_names
    list_activatable_names_async name_has_owner name_has_owner_async start_service_by_name
    start_service_by_name_async update_activation_environment update_activation_environment_async
    get_name_owner get_name_owner_async get_connection_unix_user get_connection_unix_user_async
    get_connection_unix_process_id get_connection_unix_process_id_async get_connection_credentials
    get_connection_credentials_async get_id get_id_async become_monitor become_monitor_async
start_call-wait_for env (request bus_name flags) cb reply e = named-Agrees env _ cb _ _ _ _ reply
start_call-wait_for env (release bus_name) cb reply e = named-Agrees env _ cb _ _ _ _ reply
start_call-wait_for env (queued_owners bus_name) cb reply e = named-Agrees env _ cb _ _ _ _ reply
start_call-wait_for env names cb reply e = unnamed-Agrees env _ cb _ _ reply
start_call-wait_for env activatable_names cb reply e = unnamed-Agrees env _ cb _ _ reply
start_call-wait_for env (has_owner bus_name) cb reply e = named-Agrees env _ cb _ _ _ _ reply
start_call-wait_for env (start_service service flags) cb reply e =
    named-Agrees env _ cb _ _ _ _ reply
start_call-wait_for env (update_environment env_vars) cb reply e = unnamed-Agrees env _ cb _ _ reply
start_call-wait_for env (name_owner bus_name) cb reply e = named-Agrees env _ cb _ _ _ _ reply
start_call-wait_for env (unix_user service) cb reply e = named-Agrees env _ cb _ _ _ _ reply
start_call-wait_for env (unix_process_id service) cb reply e = named-Agrees env _ cb _ _ _ _ reply
start_call-wait_for env (credentials service) cb reply e = named-Agrees env _ cb _ _ _ _ reply
start_call-wait_for env id cb reply e = unnamed-Agrees env _ cb _ _ reply
start_call-wait_for env (monitor rules) cb reply e = cc e
