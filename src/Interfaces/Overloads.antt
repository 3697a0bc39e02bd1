-- ===== src/Interfaces/Overloads.antt =====
-- The two overloads of a method call of the standard interfaces against each other.
use Prim.Native.String.{String}
use libultrabus.Common.{
  ℕ, ◌≡◌, refl, Bool, true, false, none, some, List, [], ◌∷◌, Bool-cases, inl, inr,
}
use libultrabus.Retvalue.{Retvalue}
use libultrabus.Methods.Replies.{Reply}
use libultrabus.Methods.Frames.{Call, Waited}
use libultrabus.Methods.Agreement.{Agrees}
use libultrabus.Interfaces.{Env, check_all, asked, send_call, send_if}
use libultrabus.Interfaces.Every.{RemoteCall, Result, request, begin_request}
use libultrabus.Interfaces.Shape.{
  all_pass, request-check_all, begin_request-send_if, checks_of, refuse_of, call_of, handler_of,
  told_of,
}

module _ {A : Type 0} (refuse : String → Retvalue A) (w : Waited A) where
  pub check_all-passed :
      (checks : List (Bool × String)) → all_pass checks ≡ true → check_all checks refuse w ≡ w
  unfolding check_all
  check_all-passed [] e = refl
  check_all-passed ((true, refusal) ∷ []) e = refl
  check_all-passed ((true, refusal) ∷ check ∷ checks) e = check_all-passed (check ∷ checks) e
  check_all-passed ((false, refusal) ∷ []) e = cc e
  check_all-passed ((false, refusal) ∷ check ∷ checks) e = cc e

  pub check_all-refused :
      (checks : List (Bool × String))
      → all_pass checks ≡ false
      → (text : String) × (check_all checks refuse w ≡ record { call = none; result = refuse text })
  unfolding check_all
  check_all-refused [] e = cc e
  check_all-refused ((true, refusal) ∷ []) e = cc e
  check_all-refused ((true, refusal) ∷ check ∷ checks) e = check_all-refused (check ∷ checks) e
  check_all-refused ((false, refusal) ∷ checks) e = (refusal, refl)

module _ {A : Type 0} (env : Env) (told : Bool) (cb : ℕ) (handler : Reply A → Retvalue A) where
  checked-Agrees :
      (checks : List (Bool × String)) (refuse : String → Retvalue A) (call : Call) (reply : Reply A)
      → Agrees reply
          (check_all checks refuse (asked call (handler reply)))
          (send_if (all_pass checks) (send_call env told call (some cb) handler))
  unfolding send_call
  checked-Agrees checks refuse call reply =
      let w = asked call (handler reply) in
      elim (Bool-cases (all_pass checks)) [
        | inl h ↦
            rw (check_all-passed refuse w checks h, h)
              (record { same_call = refl; same_result = λ c k. refl })
        | inr h ↦
            rw ((check_all-refused refuse w checks h).1, h)
              (record { same_call = refl; same_result = λ c k. cc k })
      ]

-- For each method call of Peer, Introspectable, Properties and ObjectManager and each property call
-- of an object proxy, and whatever the validations, the clock and the bus answer: the asynchronous
-- overload with a callback sends the very call of the synchronous one, or both send none, and on a
-- reply it calls the callback with what the synchronous overload returns for that reply.
pub begin_request-request :
    (env : Env) (m : RemoteCall) (cb : ℕ) (reply : Reply (Result m))
    → Agrees reply (request env m reply) (begin_request env m (some cb))
begin_request-request env m cb reply =
    rw (request-check_all env m reply, begin_request-send_if env m (some cb))
      (checked-Agrees env (told_of m) cb (handler_of env m) (checks_of env m) (refuse_of m)
        (call_of m) reply)
