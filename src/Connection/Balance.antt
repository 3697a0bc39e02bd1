-- ===== src/Connection/Balance.antt =====
-- Whatever the connection acquires it gives back once, and not before it lets go of it.
use libultrabus.Common.{
  ℕ, ◌+◌, ◌≡◌, refl, Bool, Option, none, some, List, [], ◌∷◌, arith, if_intro, not, ◌&&◌,
}
use libultrabus.Common.Maps.{Map}
use libultrabus.Connection.Log.{
  Resource, file, bus, call, Event, release, same, one_if, acquired, released,
}
use libultrabus.Connection.{
  Connection, cancels, unrefs, drop_filter, close_connection, drop_pending, join_threads, unref_bus,
  close_files, reset_fields, disconnect_impl, disconnect, is_connected, same_state, ConnState,
  disconnected, connecting, connected, disconnecting, BusType, Answers, Connected, install,
  open_bus, watch_timer, open_timer, open_poll, connect_from, connect,
}
use libultrabus.Connection.Lifecycle.{IsIdle}

-- The resources that the fields of a connection hold.
abbrev pub in_file : Resource → Option ℕ → ℕ
in_file r none = 0
in_file r (some fd) = one_if (same r (file fd))

abbrev pub in_bus : Resource → Option ℕ → ℕ
in_bus r none = 0
in_bus r (some b) = one_if (same r (bus b))

abbrev pub in_calls : Resource → Map (Option ℕ) → ℕ
in_calls r [] = 0
in_calls r ((p, cb) ∷ m) = one_if (same r (call p)) + in_calls r m

abbrev pub held : Resource → Connection → ℕ
held r s = in_file r s.pollfd + in_file r s.timerfd + in_bus r s.ctx + in_calls r s.pending_messages

abbrev pub IsBalanced : Connection → Type 0
IsBalanced s = (r : Resource) → acquired r s.log ≡ released r s.log + held r s

acquired-cancels :
    (r : Resource) (m : Map (Option ℕ)) (log : List Event)
    → (acquired r (cancels m log) ≡ acquired r log) × (released r (cancels m log) ≡ released r log)
unfolding acquired released
acquired-cancels r [] log = (refl, refl)
acquired-cancels r ((p, cb) ∷ m) log = omega (arith, acquired-cancels r m (Event.cancel p ∷ log))

acquired-unrefs :
    (r : Resource) (m : Map (Option ℕ)) (log : List Event)
    → (acquired r (unrefs m log) ≡ acquired r log)
      × (released r (unrefs m log) ≡ released r log + in_calls r m)
unfolding acquired released
acquired-unrefs r [] log = omega arith
acquired-unrefs r ((p, cb) ∷ m) log = omega (arith, acquired-unrefs r m (release (call p) ∷ log))

drop_filter-IsBalanced : (s : Connection) → IsBalanced s → IsBalanced (drop_filter s)
unfolding drop_filter acquired released
drop_filter-IsBalanced s h r = ground (arith, h r)

close_connection-IsBalanced :
    (alive : Bool) (s : Connection) → IsBalanced s → IsBalanced (close_connection alive s)
unfolding close_connection acquired released
close_connection-IsBalanced alive s h r =
    ground (arith, h r, acquired-cancels r s.pending_messages s.log)

drop_pending-IsBalanced : (s : Connection) → IsBalanced s → IsBalanced (drop_pending s)
unfolding drop_pending
drop_pending-IsBalanced s h r = omega (arith, h r, acquired-unrefs r s.pending_messages s.log)

unref_bus-IsBalanced : (s : Connection) → IsBalanced s → IsBalanced (unref_bus s)
unfolding unref_bus acquired released
unref_bus-IsBalanced s h r = ground (arith, h r)

close_files-IsBalanced : (s : Connection) → IsBalanced s → IsBalanced (close_files s)
unfolding close_files acquired released
close_files-IsBalanced s h r = ground (arith, h r)

join_threads-IsBalanced : (s : Connection) → IsBalanced s → IsBalanced (join_threads s)
unfolding join_threads
join_threads-IsBalanced s h = h

reset_fields-IsBalanced : (s : Connection) → IsBalanced s → IsBalanced (reset_fields s)
unfolding reset_fields
reset_fields-IsBalanced s h = h

-- disconnect_impl gives back what the connection holds.
pub disconnect_impl-IsBalanced :
    (alive : Bool) (s : Connection) → IsBalanced s → IsBalanced (disconnect_impl alive s)
unfolding disconnect_impl
disconnect_impl-IsBalanced alive s h = reset_fields-IsBalanced _ (
    close_files-IsBalanced _ (
      unref_bus-IsBalanced _ (
        join_threads-IsBalanced _ (
          drop_pending-IsBalanced _
            (close_connection-IsBalanced alive _ (drop_filter-IsBalanced s h))))))

pub disconnect-IsBalanced :
    (alive : Bool) (s : Connection) → IsBalanced s → IsBalanced (disconnect alive s)
unfolding disconnect
disconnect-IsBalanced alive s h =
    if_intro IsBalanced (same_state s.conn_state connected)
      (λ _. disconnect_impl-IsBalanced alive s h) (λ _. h)

pub is_connected-IsBalanced :
    (alive : Bool) (s : Connection) → IsBalanced s → IsBalanced (is_connected alive s).0
unfolding is_connected
is_connected-IsBalanced alive s h =
    if_intro IsBalanced (same_state s.conn_state connected && not alive)
      (λ _. disconnect_impl-IsBalanced alive s h) (λ _. h)

abbrev Balances : Connection × Connected → Type 0
Balances r = IsBalanced r.0

module _ (type : BusType) (private : Bool) (a : Answers) where
  install-IsBalanced : (s : Connection) → IsBalanced s → IsBalanced (install a s).0
  unfolding install acquired released
  install-IsBalanced s h =
      if_intro Balances a.filter_ok (λ _ r. ground (arith, h r))
        (λ _. disconnect_impl-IsBalanced a.alive s h)

  open_bus-IsBalanced :
      (bus : Option ℕ) (s : Connection)
      → s.ctx ≡ none
      → IsBalanced s
      → IsBalanced (open_bus a bus s).0
  unfolding open_bus acquired released
  open_bus-IsBalanced none s e h = disconnect_impl-IsBalanced a.alive _ (λ r. ground (arith, h r))
  open_bus-IsBalanced (some b) s e h = install-IsBalanced _ (λ r. ground (arith, h r))

  watch_timer-IsBalanced :
      (s : Connection) → s.ctx ≡ none → IsBalanced s → IsBalanced (watch_timer type private a s).0
  unfolding watch_timer
  watch_timer-IsBalanced s e h =
      if_intro Balances a.epoll_ctl_ok (λ _. open_bus-IsBalanced a.got_bus _ e h)
        (λ _. disconnect_impl-IsBalanced a.alive s h)

  open_timer-IsBalanced :
      (timer : Option ℕ) (s : Connection)
      → s.ctx ≡ none
      → s.timerfd ≡ none
      → IsBalanced s
      → IsBalanced (open_timer type private a timer s).0
  unfolding open_timer acquired released
  open_timer-IsBalanced none s e f h =
      disconnect_impl-IsBalanced a.alive _ (λ r. ground (arith, h r))
  open_timer-IsBalanced (some t) s e f h = watch_timer-IsBalanced _ e (λ r. ground (arith, h r))

  open_poll-IsBalanced :
      (poll : Option ℕ) (s : Connection)
      → s.ctx ≡ none
      → s.timerfd ≡ none
      → s.pollfd ≡ none
      → IsBalanced s
      → IsBalanced (open_poll type private a poll s).0
  unfolding open_poll acquired released
  open_poll-IsBalanced none s e f g h = λ r. ground (arith, h r)
  open_poll-IsBalanced (some p) s e f g h =
      open_timer-IsBalanced a.timer _ e f (λ r. ground (arith, h r))

  connect_from-IsBalanced :
      (c : ConnState) (s : Connection)
      → (c ≡ disconnected → IsIdle s)
      → IsBalanced s
      → IsBalanced (connect_from c type private a s).0
  unfolding connect_from
  connect_from-IsBalanced disconnected s i h =
      let v = i refl in open_poll-IsBalanced a.epoll _ v.no_ctx v.no_timerfd v.no_pollfd h
  connect_from-IsBalanced connecting s i h = h
  connect_from-IsBalanced connected s i h = if_intro Balances _ (λ _. h) (λ _. h)
  connect_from-IsBalanced disconnecting s i h = h

  pub connect-IsBalanced :
      (s : Connection)
      → (s.conn_state ≡ disconnected → IsIdle s)
      → IsBalanced s
      → IsBalanced (connect type private a s).0
  unfolding connect
  connect-IsBalanced s i h = connect_from-IsBalanced s.conn_state s i h
