-- ===== src/Interfaces/Checks.antt =====
-- When a method call of the standard interfaces is sent, and when it succeeds.
use Prim.Native.String.{String}
use libultrabus.Common.{
  ◌≡◌, refl, Bool, true, false, ◌&&◌, none, some, List, [], ◌∷◌, if◌then◌else◌, arith, Bool-cases,
  inl, inr,
}
use libultrabus.Common.Int.{ℤ, negsuc}
use libultrabus.Retvalue.{is_zero, set}
use libultrabus.Methods.Replies.{Reply, error, value, invalid, handle_void_reply}
use libultrabus.Methods.Frames.{Arg, string_arg, Call, Waited}
use libultrabus.Methods.Failure.{is_some, is_good}
use libultrabus.Interfaces.{Env, asked, take_reply, ping_reply}
use libultrabus.Interfaces.Properties.{forget_refusal}
use libultrabus.Interfaces.Managed.{Ifaces, handle_get_managed_objects_reply}
use libultrabus.Interfaces.Every.{
  RemoteCall, ping_peer, peer_machine_id, introspect_object, get_one, get_every, set_one, managed,
  proxy_get, proxy_get_all, proxy_set, Result, request,
}
use libultrabus.Interfaces.Shape.{
  all_pass, request-check_all, checks_of, refuse_of, call_of, handler_of,
}
use libultrabus.Interfaces.Overloads.{check_all-passed, check_all-refused}

-- What the caller gives a value of when nothing is sent.
abbrev pub default_of : (m : RemoteCall) → Result m
default_of (ping_peer service) = negsuc 0
default_of (peer_machine_id service) = ""
default_of (introspect_object service object_path) = ""
default_of (get_one bus_name opath interface property) = 0
default_of (get_every bus_name opath interface) = []
default_of (set_one bus_name opath interface property v) = false
default_of (managed bus_name opath) = []
default_of (proxy_get t interface property) = 0
default_of (proxy_get_all t interface) = []
default_of (proxy_set t interface property v) = false

-- Set returns no value of its own, and Ping none but the time: any reply that is no error is good.
abbrev pub takes_any : RemoteCall → Bool
takes_any (ping_peer service) = true
takes_any (set_one bus_name opath interface property v) = true
takes_any (proxy_set t interface property v) = true
takes_any _ = false

-- The overloads that set a property.
abbrev pub sets : RemoteCall → Bool
sets (set_one bus_name opath interface property v) = true
sets (proxy_set t interface property v) = true
sets _ = false

-- What is not validated by the method itself: the path of Peer, and the name and the path of a proxy,
-- which its constructor validates.
abbrev pub is_given : Env → RemoteCall → Bool
is_given env (ping_peer service) = env.valid_path "/"
is_given env (peer_machine_id service) = env.valid_path "/"
is_given env (proxy_get t interface property) = env.valid_name t.target && env.valid_path t.opath
is_given env (proxy_get_all t interface) = env.valid_name t.target && env.valid_path t.opath
is_given env (proxy_set t interface property v) = env.valid_name t.target && env.valid_path t.opath
is_given env _ = true

-- The interface is the first argument of the calls that name one.
abbrev first_valid : Env → List Arg → Bool
first_valid env (string_arg s ∷ args) = env.valid_interface s
first_valid env _ = true

abbrev pub is_sound : Env → Call → Bool
is_sound env c = env.valid_name c.destination && (env.valid_path c.path && first_valid env c.args)

sound_call :
    (env : Env) (m : RemoteCall)
    → is_given env m ≡ true
    → all_pass (checks_of env m) ≡ true
    → is_sound env (call_of m) ≡ true
sound_call env (ping_peer service) g p = ground arith
sound_call env (peer_machine_id service) g p = ground arith
sound_call env (introspect_object service object_path) g p = ground arith
sound_call env (get_one bus_name opath interface property) g p = ground arith
sound_call env (get_every bus_name opath interface) g p = ground arith
sound_call env (set_one bus_name opath interface property v) g p = ground arith
sound_call env (managed bus_name opath) g p = ground arith
sound_call env (proxy_get t interface property) g p = ground arith
sound_call env (proxy_get_all t interface) g p = ground arith
sound_call env (proxy_set t interface property v) g p = ground arith

take_reply-good :
    {A : Type 0} (default : A) (expected : String) (reply : Reply A)
    → is_zero (take_reply default expected reply).err_num ≡ is_good false reply
unfolding take_reply
take_reply-good default expected (error name msg) = refl
take_reply-good default expected (value a) = refl
take_reply-good default expected (invalid signature) = refl

ping_reply-good :
    (elapsed : ℤ) (reply : Reply ℤ)
    → is_zero (ping_reply elapsed reply).err_num ≡ is_good true reply
unfolding ping_reply
ping_reply-good elapsed (error name msg) = refl
ping_reply-good elapsed (value a) = refl
ping_reply-good elapsed (invalid signature) = refl

void_reply-good :
    (reply : Reply Bool) → is_zero (handle_void_reply reply).err_num ≡ is_good true reply
unfolding handle_void_reply
void_reply-good (error name msg) = refl
void_reply-good (value a) = refl
void_reply-good (invalid signature) = refl

managed_reply-good :
    (reply : Reply (List (String × Ifaces)))
    → is_zero (handle_get_managed_objects_reply reply).err_num ≡ is_good false reply
unfolding handle_get_managed_objects_reply take_reply
managed_reply-good (error name msg) = refl
managed_reply-good (value a) = refl
managed_reply-good (invalid signature) = refl

handler_of-good :
    (env : Env) (m : RemoteCall) (reply : Reply (Result m))
    → is_zero (handler_of env m reply).err_num ≡ is_good (takes_any m) reply
handler_of-good env (ping_peer service) reply = ping_reply-good _ reply
handler_of-good env (peer_machine_id service) reply = take_reply-good _ _ reply
handler_of-good env (introspect_object service object_path) reply = take_reply-good _ _ reply
handler_of-good env (get_one bus_name opath interface property) reply = take_reply-good _ _ reply
handler_of-good env (get_every bus_name opath interface) reply = take_reply-good _ _ reply
handler_of-good env (set_one bus_name opath interface property v) reply = void_reply-good reply
handler_of-good env (managed bus_name opath) reply = managed_reply-good reply
handler_of-good env (proxy_get t interface property) reply = take_reply-good _ _ reply
handler_of-good env (proxy_get_all t interface) reply = take_reply-good _ _ reply
handler_of-good env (proxy_set t interface property v) reply = void_reply-good reply

-- A refusal gives the default, and an error only where no property is set.
refuse_of-value : (m : RemoteCall) (text : String) → (refuse_of m text).value ≡ default_of m
unfolding forget_refusal set
refuse_of-value (ping_peer service) text = refl
refuse_of-value (peer_machine_id service) text = refl
refuse_of-value (introspect_object service object_path) text = refl
refuse_of-value (get_one bus_name opath interface property) text = refl
refuse_of-value (get_every bus_name opath interface) text = refl
refuse_of-value (set_one bus_name opath interface property v) text = refl
refuse_of-value (managed bus_name opath) text = refl
refuse_of-value (proxy_get t interface property) text = refl
refuse_of-value (proxy_get_all t interface) text = refl
refuse_of-value (proxy_set t interface property v) text = refl

refuse_of-error : (m : RemoteCall) (text : String) → is_zero (refuse_of m text).err_num ≡ sets m
unfolding forget_refusal set
refuse_of-error (ping_peer service) text = refl
refuse_of-error (peer_machine_id service) text = refl
refuse_of-error (introspect_object service object_path) text = refl
refuse_of-error (get_one bus_name opath interface property) text = refl
refuse_of-error (get_every bus_name opath interface) text = refl
refuse_of-error (set_one bus_name opath interface property v) text = refl
refuse_of-error (managed bus_name opath) text = refl
refuse_of-error (proxy_get t interface property) text = refl
refuse_of-error (proxy_get_all t interface) text = refl
refuse_of-error (proxy_set t interface property v) text = refl

pub record IsAnswered (env : Env) (m : RemoteCall) (good : Bool) (w : Waited (Result m))
    : Type 0 where
  pub sound : (c : Call) → w.call ≡ some c → is_sound env c ≡ true
  pub defaulted : w.call ≡ none → w.result.value ≡ default_of m
  pub succeeds : is_zero w.result.err_num ≡ (if is_some w.call then good else sets m)

-- For each method call of Peer, Introspectable, Properties and ObjectManager and each property call
-- of an object proxy whose name and path are valid, where the path / is valid: the synchronous
-- overload only sends calls with a valid destination, a valid path and, where the call names one, a
-- valid interface. If it sends none, it returns the default value. If it sends one, it reports no
-- error exactly if the reply is good. If it sends none, it reports no error exactly if it is one
-- that sets a property.
pub request-IsAnswered :
    (env : Env) (m : RemoteCall) (reply : Reply (Result m))
    → is_given env m ≡ true
    → IsAnswered env m (is_good (takes_any m) reply) (request env m reply)
request-IsAnswered env m reply g =
    let w = asked (call_of m) (handler_of env m reply) in
    let refuse = refuse_of m in
    let checks = checks_of env m in
    elim (Bool-cases (all_pass checks)) [
      | inl h ↦
          rw (request-check_all env m reply, check_all-passed refuse w checks h)
            (record {
              sound = λ c k. let s = sound_call env m g h in cc;
              defaulted = λ k. cc k;
              succeeds = handler_of-good env m reply;
            })
      | inr h ↦
          let (text, e) = check_all-refused refuse w checks h in
          rw (request-check_all env m reply, e)
            (record {
              sound = λ c k. cc k;
              defaulted = λ k. refuse_of-value m text;
              succeeds = refuse_of-error m text;
            })
    ]
