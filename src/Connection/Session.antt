-- ===== src/Connection/Session.antt =====
-- A connection over any sequence of calls.
use libultrabus.Common.{
  ℕ, ◌≡◌, refl, Bool, true, not, ◌&&◌, Option, none, some, List, inl, inr, ◌⊎◌, if_intro,
  Option-cases, subst, sym, ap,
}
use libultrabus.Common.Maps.{Map, find}
use libultrabus.Timers.{Timers}
use libultrabus.Watches.{Watches}
use libultrabus.Connection.Log.{Event, acquired, released}
use libultrabus.Connection.{
  ConnState, disconnected, connecting, connected, disconnecting, same_state, BusType, Connection,
  new_connection, Answers, Connected, connect, connect_from, disconnect, is_connected,
  register_reply, send, on_pending_call,
}
use libultrabus.Connection.Lifecycle.{IsIdle, IsRunning, disconnect_impl-IsIdle}
use libultrabus.Connection.Opening.{connect-Returns}
use libultrabus.Connection.Balance.{
  IsBalanced, disconnect-IsBalanced, is_connected-IsBalanced, connect-IsBalanced,
}
use libultrabus.Connection.Pending.{IsFresh, register_reply-IsBalanced, on_pending_call-IsBalanced}

-- What the user and libdbus do to a connection, one call after the other. While it runs, the
-- watches and the timers change by callbacks of their own.
pub data Step (s : Connection) : Connection → Type 0 where
  connects : (type : BusType) (private : Bool) (a : Answers) → Step s (connect type private a s).0
  disconnects : (alive : Bool) → Step s (disconnect alive s)
  asks : (alive : Bool) → Step s (is_connected alive s).0
  sends :
      (alive : Bool) (pending reply_cb : Option ℕ)
      → IsFresh pending s
      → Step s (send alive pending reply_cb s).0
  answers : (p message : ℕ) → Step s (on_pending_call p message s)
  times : (t : Timers) → s.conn_state ≡ connected → Step s (record s { timers = t })
  watches : (w : Watches) → s.conn_state ≡ connected → Step s (record s { fd_map = w })

pub data Reach : Connection → Type 0 where
  start : Reach new_connection
  later : {s t : Connection} → Reach s → Step s t → Reach t

abbrev pub IsSettled : Connection → Type 0
IsSettled s = IsIdle s ⊎ IsRunning s

pub record IsSound (s : Connection) : Type 0 where
  pub settled : IsSettled s
  pub balanced : IsBalanced s

settled-IsIdle : {s : Connection} → IsSettled s → s.conn_state ≡ disconnected → IsIdle s
settled-IsIdle (inl i) e = i
settled-IsIdle (inr v) e = cc (v.on)

connect-IsSettled :
    (type : BusType) (private : Bool) (a : Answers) (s : Connection)
    → IsSettled s
    → IsSettled (connect type private a s).0
connect-IsSettled type private a s (inl i) = elim (connect-Returns type private a s i) [
  | inl (e, f, v) ↦ inr v.running
  | inr (e, f, v) ↦ inl v
]
connect-IsSettled type private a s (inr v) =
    unfold connect connect_from in
    subst (λ c. IsSettled (connect_from c type private a s).0) (sym v.on)
      (if_intro (λ (r : Connection × Connected). IsSettled r.0) _ (λ _. inr v) (λ _. inr v))

disconnect-IsSettled :
    (alive : Bool) (s : Connection) → IsSettled s → IsSettled (disconnect alive s)
unfolding disconnect
disconnect-IsSettled alive s h =
    if_intro IsSettled (same_state s.conn_state connected)
      (λ _. inl (disconnect_impl-IsIdle alive s)) (λ _. h)

is_connected-IsSettled :
    (alive : Bool) (s : Connection) → IsSettled s → IsSettled (is_connected alive s).0
unfolding is_connected
is_connected-IsSettled alive s h =
    if_intro IsSettled (same_state s.conn_state connected && not alive)
      (λ _. inl (disconnect_impl-IsIdle alive s)) (λ _. h)

-- A running connection stays one when only these fields change.
keep-IsRunning :
    (s : Connection) (m : Map (Option ℕ)) (log : List Event) (t : Timers) (w : Watches)
    → IsRunning s
    → IsRunning (record s { pending_messages = m; log = log; timers = t; fd_map = w })
keep-IsRunning s m log t w v = record {
  on = v.on;
  has_ctx = v.has_ctx;
  has_pollfd = v.has_pollfd;
  has_timerfd = v.has_timerfd;
  io_runs = v.io_runs;
  dispatch_runs = v.dispatch_runs;
}

settled-IsRunning : {s : Connection} → IsSettled s → s.conn_state ≡ connected → IsRunning s
settled-IsRunning (inl i) e = cc (i.off)
settled-IsRunning (inr v) e = v

same_state-connected : (c : ConnState) → same_state c connected ≡ true → c ≡ connected
same_state-connected connected e = refl
same_state-connected disconnected e = cc
same_state-connected connecting e = cc
same_state-connected disconnecting e = cc

register_reply-IsSettled :
    (pending cb : Option ℕ) (s : Connection)
    → IsRunning s
    → IsSettled (register_reply pending cb s).0
unfolding register_reply
register_reply-IsSettled none cb s v = inr v
register_reply-IsSettled (some p) cb s v = inr (keep-IsRunning s _ _ s.timers s.fd_map v)

is_connected-IsFresh :
    (alive : Bool) (pending : Option ℕ) (s : Connection)
    → IsFresh pending s
    → IsFresh pending (is_connected alive s).0
unfolding is_connected find
is_connected-IsFresh alive none s f = tt
is_connected-IsFresh alive (some p) s f =
    if_intro (λ (t : Connection). find p t.pending_messages ≡ none)
      (same_state s.conn_state connected && not alive)
      (λ _. ap (find p) (disconnect_impl-IsIdle alive s).answered) (λ _. f)

is_connected-connected :
    (alive : Bool) (s : Connection)
    → (is_connected alive s).1 ≡ true
    → (is_connected alive s).0.conn_state ≡ connected
unfolding is_connected
is_connected-connected alive s e = same_state-connected _ e

send-IsSound :
    (alive : Bool) (pending reply_cb : Option ℕ) (s : Connection)
    → IsFresh pending s
    → IsSound s
    → IsSound (send alive pending reply_cb s).0
unfolding send
send-IsSound alive pending reply_cb s f v =
    let s' = (is_connected alive s).0 in
    let settled = is_connected-IsSettled alive s v.settled in
    let balanced = is_connected-IsBalanced alive s v.balanced in
    if_intro (λ (r : Connection × Bool). IsSound r.0) (is_connected alive s).1
      (λ e. record {
        settled =
            register_reply-IsSettled pending reply_cb s'
              (settled-IsRunning settled (is_connected-connected alive s e));
        balanced =
            register_reply-IsBalanced pending reply_cb s' (is_connected-IsFresh alive pending s f)
              balanced;
      })
      (λ _. record { settled = settled; balanced = balanced })

on_pending_call_idle : (p message : ℕ) (s : Connection) → IsIdle s → on_pending_call p message s ≡ s
unfolding on_pending_call find
on_pending_call_idle p message s i = let e = ap (find p) i.answered in rw (e, on_pending_call)

on_pending_call-IsSettled :
    (p message : ℕ) (s : Connection) → IsSettled s → IsSettled (on_pending_call p message s)
unfolding on_pending_call find
on_pending_call-IsSettled p message s (inl i) =
    let e = ap (find p) i.answered in rw (e, on_pending_call) (inl i)
on_pending_call-IsSettled p message s (inr v) = elim (Option-cases (find p s.pending_messages)) [
  | inl e ↦ rw (e, on_pending_call) (inr v)
  | inr (cb, e) ↦ rw (e, on_pending_call) (inr (keep-IsRunning s _ _ s.timers s.fd_map v))
]

Step-IsSound : {s t : Connection} → Step s t → IsSound s → IsSound t
Step-IsSound {s} (connects type private a) v = record {
  settled = connect-IsSettled type private a s v.settled;
  balanced = connect-IsBalanced type private a s (settled-IsIdle v.settled) v.balanced;
}
Step-IsSound {s} (disconnects alive) v = record {
  settled = disconnect-IsSettled alive s v.settled;
  balanced = disconnect-IsBalanced alive s v.balanced;
}
Step-IsSound {s} (asks alive) v = record {
  settled = is_connected-IsSettled alive s v.settled;
  balanced = is_connected-IsBalanced alive s v.balanced;
}
Step-IsSound {s} (sends alive pending cb f) v = send-IsSound alive pending cb s f v
Step-IsSound {s} (answers p message) v = record {
  settled = on_pending_call-IsSettled p message s v.settled;
  balanced = on_pending_call-IsBalanced p message s v.balanced;
}
Step-IsSound {s} (times t e) v = record {
  settled =
      inr (keep-IsRunning s s.pending_messages s.log t s.fd_map (settled-IsRunning v.settled e));
  balanced = v.balanced;
}
Step-IsSound {s} (watches w e) v = record {
  settled =
      inr (keep-IsRunning s s.pending_messages s.log s.timers w (settled-IsRunning v.settled e));
  balanced = v.balanced;
}

pub new_connection-IsIdle : IsIdle new_connection
new_connection-IsIdle = record {
  off = refl;
  no_ctx = refl;
  default_type = refl;
  not_private = refl;
  no_name = refl;
  io_joined = refl;
  dispatch_joined = refl;
  io_stops = refl;
  dispatch_stops = refl;
  no_pollfd = refl;
  no_timerfd = refl;
  unwatched = refl;
  untimed = refl;
  answered = refl;
  no_changed_cb = refl;
  no_lost_cb = refl;
  no_acquired_cb = refl;
}

new_connection-IsSound : IsSound new_connection
unfolding acquired released
new_connection-IsSound = record { settled = inl new_connection-IsIdle; balanced = λ r. refl }

-- After any sequence of calls of connect, disconnect, is_connected and `send` with a callback, and
-- of replies and callbacks of libdbus, whatever libdbus and the system answer: the connection is
-- idle, with every member as the constructor sets it, or runs with a bus connection, both
-- descriptors and both threads; and each descriptor, bus connection and pending call has been
-- acquired exactly as often as it has been given back, and once more for each field that holds it.
-- So an idle connection has given back everything. The pending calls that `send` is given are
-- taken to be none that still wait.
pub Reach-IsSound : {s : Connection} → Reach s → IsSound s
Reach-IsSound start = new_connection-IsSound
Reach-IsSound (later r st) = Step-IsSound st (Reach-IsSound r)

-- A disconnect forgets the callbacks that still wait for a reply: nothing that libdbus does with a
-- pending call afterwards calls one of them.
pub on_pending_call-disconnect :
    (alive : Bool) (p message : ℕ) (s : Connection)
    → s.conn_state ≡ connected
    → on_pending_call p message (disconnect alive s) ≡ disconnect alive s
unfolding disconnect
on_pending_call-disconnect alive p message s e =
    if_intro (λ (t : Connection). on_pending_call p message t ≡ t)
      (same_state s.conn_state connected)
      (λ _. on_pending_call_idle p message _ (disconnect_impl-IsIdle alive s))
      (λ f. let g = ap (λ c. same_state c connected) e in cc)
