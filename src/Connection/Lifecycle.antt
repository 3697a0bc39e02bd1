-- ===== src/Connection/Lifecycle.antt =====
-- Between two calls a connection is idle, with nothing left of the last session, or runs.
use libultrabus.Common.{ℕ, ◌≡◌, refl, Bool, true, false, Option, none, some, [], arith}
use libultrabus.Timers.{no_timers}
use libultrabus.Watches.{no_watches}
use libultrabus.Connection.{
  disconnected, connected, session, Connection, drop_pending, join_threads, unref_bus, close_files,
  reset_fields, disconnect_impl,
}

-- The fields as the constructor leaves them.
pub record IsIdle (s : Connection) : Type 0 where
  pub off : s.conn_state ≡ disconnected
  pub no_ctx : s.ctx ≡ none
  pub default_type : s.conn_type ≡ session
  pub not_private : s.private_connection ≡ false
  pub no_name : s.unique_bus_name ≡ ""
  pub io_joined : s.io_thread ≡ false
  pub dispatch_joined : s.dispatch_thread ≡ false
  pub io_stops : s.stop_io_thread ≡ true
  pub dispatch_stops : s.stop_dispatch_thread ≡ true
  pub no_pollfd : s.pollfd ≡ none
  pub no_timerfd : s.timerfd ≡ none
  pub unwatched : s.fd_map ≡ no_watches
  pub untimed : s.timers ≡ no_timers
  pub answered : s.pending_messages ≡ []
  pub no_changed_cb : s.name_owner_changed_cb ≡ none
  pub no_lost_cb : s.name_lost_cb ≡ none
  pub no_acquired_cb : s.name_acquired_cb ≡ none

abbrev pub Present : Option ℕ → Type 0
Present o = (n : ℕ) × (o ≡ some n)

pub record IsRunning (s : Connection) : Type 0 where
  pub on : s.conn_state ≡ connected
  pub has_ctx : Present s.ctx
  pub has_pollfd : Present s.pollfd
  pub has_timerfd : Present s.timerfd
  pub io_runs : (s.io_thread ≡ true) × (s.stop_io_thread ≡ false)
  pub dispatch_runs : (s.dispatch_thread ≡ true) × (s.stop_dispatch_thread ≡ false)

-- What unref_bus does to the fields that the parts before it set.
record Unreffed (s t : Connection) : Type 0 where
  ctx : t.ctx ≡ none
  pending : t.pending_messages ≡ s.pending_messages
  io : t.io_thread ≡ s.io_thread
  dispatch : t.dispatch_thread ≡ s.dispatch_thread
  stop_io : t.stop_io_thread ≡ s.stop_io_thread
  stop_dispatch : t.stop_dispatch_thread ≡ s.stop_dispatch_thread

unref_bus-Unreffed : (s : Connection) → Unreffed s (unref_bus s)
unfolding unref_bus
unref_bus-Unreffed s = ground arith

-- disconnect_impl leaves nothing of a session, from whatever state it starts.
pub disconnect_impl-IsIdle : (alive : Bool) (s : Connection) → IsIdle (disconnect_impl alive s)
unfolding disconnect_impl reset_fields close_files join_threads drop_pending
disconnect_impl-IsIdle alive s = record {
  off = refl;
  no_ctx = (unref_bus-Unreffed _).ctx;
  default_type = refl;
  not_private = refl;
  no_name = refl;
  io_joined = (unref_bus-Unreffed _).io;
  dispatch_joined = (unref_bus-Unreffed _).dispatch;
  io_stops = (unref_bus-Unreffed _).stop_io;
  dispatch_stops = (unref_bus-Unreffed _).stop_dispatch;
  no_pollfd = refl;
  no_timerfd = refl;
  unwatched = refl;
  untimed = refl;
  answered = (unref_bus-Unreffed _).pending;
  no_changed_cb = refl;
  no_lost_cb = refl;
  no_acquired_cb = refl;
}
