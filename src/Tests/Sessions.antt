-- ===== src/Tests/Sessions.antt =====
-- The connection at concrete inputs.
use libultrabus.Common.{◌≡◌, refl, true, false, some, none, []}
use libultrabus.Common.Maps.{find}
use libultrabus.Connection.{
  session, connected, Connection, new_connection, Answers, connect, send, disconnect,
  on_pending_call,
}
use libultrabus.Connection.Session.{
  IsSound, Reach, start, later, connects, sends, answers, disconnects, Reach-IsSound,
  on_pending_call-disconnect,
}
use libultrabus.Connection.Waiting.{
  Exchange, entering, returned, flagged, Moves, HasReply, asleep, before, finished, done, next,
  notify, Reach as Reached, start as begin, later as after, move, stay, store, flag, leave, Move,
  Reach-HasReply, lost_wakeup,
}

abbrev granted : Answers
granted = record {
  epoll = some 5;
  timer = some 6;
  epoll_ctl_ok = true;
  got_bus = some 100;
  filter_ok = true;
  alive = true;
}

-- Only the timerfd is refused.
abbrev no_timer : Answers
no_timer = record granted { timer = none }

abbrev open_session : Connection
open_session = (connect session false granted new_connection).0

abbrev waiting_session : Connection
waiting_session = (send true (some 40) (some 1) open_session).0

open_session-Reach : Reach open_session
open_session-Reach = later start (connects session false granted)

open_session_pending : open_session.pending_messages ≡ []
unfolding connect
open_session_pending = refl

open_session_on : open_session.conn_state ≡ connected
unfolding connect
open_session_on = refl

Reach-IsSound_example : IsSound (disconnect true (on_pending_call 40 77 waiting_session))
unfolding find
Reach-IsSound_example = Reach-IsSound (
    later
      (later (later open_session-Reach (sends true (some 40) (some 1) (unfold connect in refl)))
        (answers 40 77))
      (disconnects true))

on_pending_call-disconnect_example :
    on_pending_call 40 77 (disconnect true open_session) ≡ disconnect true open_session
on_pending_call-disconnect_example =
    on_pending_call-disconnect true 40 77 open_session open_session_on

-- The reply comes first, the caller then finds it.
abbrev replied : Exchange
replied = record { waiter = returned; callback = flagged; reply = some 7; got_reply = true }

replied-Reach : Reached replied
replied-Reach =
    after (after (after begin (move (store 7 refl))) (move (flag refl))) (move (leave refl refl))

Reach-HasReply_example : HasReply replied
Reach-HasReply_example = Reach-HasReply replied-Reach refl

-- The caller has found no reply and is not asleep yet, the reply comes.
abbrev late : Exchange
late = record { waiter = entering; callback = flagged; reply = some 7; got_reply = true }

late-Reach : Reached late
late-Reach =
    after (after (after begin (move (stay refl refl))) (move (store 7 refl))) (move (flag refl))

lost_wakeup_example :
    Move late (record late { callback = finished })
    × ((t : Exchange) → Moves (record late { callback = finished }) t → ¬ (t.waiter ≡ returned))
lost_wakeup_example = lost_wakeup late refl refl

-- The caller sleeps before the reply comes.
abbrev early : Exchange
early = record { waiter = asleep; callback = before; reply = none; got_reply = false }

abbrev woken : Exchange
woken = record { waiter = returned; callback = finished; reply = some 7; got_reply = true }

abbrev run_through : Moves early woken
run_through =
    next (next (next (next done (store 7 refl)) (flag refl)) (notify refl refl)) (leave refl refl)
