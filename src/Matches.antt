-- ===== src/Matches.antt =====
-- The match rules of a message filter, lib/ultrabus/message_filter.cpp.
pub mod Rules
pub mod Synced
pub mod Outcome
pub mod Drift
pub mod Deadlock
use Prim.Native.String.{String}
use Prim.Native.String.{◌++◌ as concat}
use text.Mathlib.Text.{◌==◌ as str_eq}
use libultrabus.Common.{
  ℕ, ◌+◌, ◌-◌, Bool, true, false, Option, none, some, List, [], ◌∷◌, if◌then◌else◌,
}
use libultrabus.Retvalue.{Retvalue, of_value, fail, minus_one}
use Rules.{contains, emplace, erase}

-- AddMatch or RemoveMatch of org.freedesktop.DBus.
pub data Request : Type 0 where
  add_rule remove_rule : Request

-- What a filter and the bus say to each other: a request that was sent, one that the bus has carried
-- out, noted when its reply is handled, and the end of the connection, with which the bus forgets the
-- rules.
pub data Traffic : Type 0 where
  requested : Request → String → Traffic
  accepted : Request → String → Traffic
  closed : Traffic

pub record Filter : Type 0 where
  pub match_rules : List String
  pub log : List Traffic

abbrev pub new_filter : Filter
new_filter = record { match_rules = []; log = [] }

-- The reply to a request: none that is an error, an error of the bus, which has not carried out the
-- request, or the error that libdbus makes of a timeout or a lost connection, where the bus may have.
-- An error carries a name and a text.
pub data Reply : Type 0 where
  success : Reply
  error : (name msg : String) → Reply
  timed_out : (carried_out : Bool) → (name msg : String) → Reply

abbrev pub say : Traffic → Filter → Filter
say t f = record f { log = t ∷ f.log }

-- `t` is noted if the test holds.
abbrev pub sent_if : Bool → Traffic → Filter → Filter
sent_if true t f = say t f
sent_if false t f = f

abbrev pub not_connected : Retvalue Bool
not_connected = fail minus_one "Not connected" (of_value false)

-- reply.error_name() + ": " + reply.error_msg()
abbrev pub reply_error : String → String → Retvalue Bool
reply_error name msg = fail minus_one (concat (concat name ": ") msg) (of_value false)

-- What is done with a reply, at once in the synchronous call or in the callback of the other.
unfoldable pub on_add_reply : String → Reply → Filter → Filter × Retvalue Bool
on_add_reply rule success f = (
  record { match_rules = emplace rule f.match_rules; log = accepted add_rule rule ∷ f.log },
  of_value true,
)
on_add_reply rule (error name msg) f = (f, reply_error name msg)
on_add_reply rule (timed_out carried_out name msg) f =
    (sent_if carried_out (accepted add_rule rule) f, reply_error name msg)

unfoldable pub on_remove_reply : String → Reply → Filter → Filter × Retvalue Bool
on_remove_reply rule success f = (
  record { match_rules = erase rule f.match_rules; log = accepted remove_rule rule ∷ f.log },
  of_value true,
)
on_remove_reply rule (error name msg) f = (f, reply_error name msg)
on_remove_reply rule (timed_out carried_out name msg) f =
    (sent_if carried_out (accepted remove_rule rule) f, reply_error name msg)

-- `conn_up` is what is_connected answers; `reply` is what send_and_wait returns if it is called.
unfoldable pub add_match : Bool → Reply → String → Filter → Filter × Retvalue Bool
unfolding on_add_reply
add_match conn_up reply rule f =
    if conn_up
    then (if contains rule f.match_rules
        then (f, of_value true)
        else on_add_reply rule reply (say (requested add_rule rule) f))
    else (f, not_connected)

unfoldable pub remove_match : Bool → Reply → String → Filter → Filter × Retvalue Bool
unfolding on_remove_reply
remove_match conn_up reply rule f =
    if conn_up
    then (if contains rule f.match_rules
        then on_remove_reply rule reply (say (requested remove_rule rule) f)
        else (f, of_value true))
    else (f, not_connected)

-- The overloads with a callback: `sends` is what `send` answers. Without a callback no reply is
-- wanted; with one the reply goes to on_add_reply or on_remove_reply, then to the callback.
abbrev pub start_add : Bool → Option ℕ → String → Filter → Filter
start_add sends none rule f =
    sent_if sends (requested add_rule rule) (record f { match_rules = emplace rule f.match_rules })
start_add sends (some cb) rule f = sent_if sends (requested add_rule rule) f

abbrev pub start_remove : Bool → Option ℕ → String → Filter → Filter
start_remove sends none rule f =
    sent_if sends (requested remove_rule rule) (record f { match_rules = erase rule f.match_rules })
start_remove sends (some cb) rule f = sent_if sends (requested remove_rule rule) f

unfoldable pub add_match_async : Bool → Bool → Option ℕ → String → Filter → Filter × Bool
add_match_async conn_up sends callback rule f =
    if conn_up
    then (if contains rule f.match_rules
        then (f, true)
        else (start_add sends callback rule f, sends))
    else (f, false)

unfoldable pub remove_match_async : Bool → Bool → Option ℕ → String → Filter → Filter × Bool
remove_match_async conn_up sends callback rule f =
    if conn_up
    then (if contains rule f.match_rules
        then (start_remove sends callback rule f, sends)
        else (f, true))
    else (f, false)

-- How many times the bus holds a rule for this connection, by the requests that it has carried out:
-- it keeps equal rules apart, and a RemoveMatch takes one of them away.
unfoldable pub held : String → List Traffic → ℕ
held q [] = 0
held q (requested k rule ∷ l) = held q l
held q (accepted add_rule rule ∷ l) =
    let rest = held q l in if str_eq rule q then rest + 1 else rest
held q (accepted remove_rule rule ∷ l) =
    let rest = held q l in if str_eq rule q then rest - 1 else rest
held q (closed ∷ l) = 0
