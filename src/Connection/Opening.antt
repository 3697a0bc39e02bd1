-- ===== src/Connection/Opening.antt =====
-- What `connect` does from an idle connection.
use libultrabus.Common.{
  ℕ, ◌≡◌, refl, Bool, true, false, ◌&&◌, Option, none, some, arith, ◌⊎◌, inl, inr, if_intro, subst,
  sym,
}
use libultrabus.Connection.Lifecycle.{IsIdle, IsRunning, disconnect_impl-IsIdle}
use libultrabus.Connection.{
  disconnected, BusType, Connection, Answers, Connected, success, failure, install, install_done,
  open_bus, watch_timer, open_timer, open_poll, connect_from, connect,
}

abbrev pub is_some : Option ℕ → Bool
is_some none = false
is_some (some n) = true

-- Every step of `connect` succeeds.
abbrev pub all_ok : Answers → Bool
all_ok a =
    is_some a.epoll && (is_some a.timer && (a.epoll_ctl_ok && (is_some a.got_bus && a.filter_ok)))

-- Running on the bus and the descriptors that were answered.
pub record IsOpened (type : BusType) (private : Bool) (poll timer bus : Option ℕ) (s : Connection)
    : Type 0 where
  pub running : IsRunning s
  pub as_type : s.conn_type ≡ type
  pub as_private : s.private_connection ≡ private
  pub on_poll : s.pollfd ≡ poll
  pub on_timer : s.timerfd ≡ timer
  pub on_bus : s.ctx ≡ bus

-- Success in a state that satisfies `P` if `good` holds, else failure and nothing left behind.
abbrev pub Returns : Bool → (Connection → Type 0) → Connection × Connected → Type 0
Returns good P r =
    ((good ≡ true) × (r.1 ≡ success) × P r.0) ⊎ ((good ≡ false) × (r.1 ≡ failure) × IsIdle r.0)

Returns-and :
    (c good : Bool) (P : Connection → Type 0) (r : Connection × Connected)
    → c ≡ true
    → Returns good P r
    → Returns (c && good) P r
Returns-and true good P r e h = h
Returns-and false good P r e h = cc

and_false : (c good : Bool) → c ≡ false → (c && good) ≡ false
and_false c good e = ground arith

-- The state before the filter is installed.
record IsReady (type : BusType) (private : Bool) (p t b : ℕ) (s : Connection) : Type 0 where
  as_type : s.conn_type ≡ type
  as_private : s.private_connection ≡ private
  on_poll : s.pollfd ≡ some p
  on_timer : s.timerfd ≡ some t
  on_bus : s.ctx ≡ some b

install-IsOpened :
    (type : BusType) (private : Bool) (p t b : ℕ) (s : Connection)
    → IsReady type private p t b s
    → IsOpened type private (some p) (some t) (some b) (install_done s)
install-IsOpened type private p t b s h = record {
  running = record {
    on = refl;
    has_ctx = (b, h.on_bus);
    has_pollfd = (p, h.on_poll);
    has_timerfd = (t, h.on_timer);
    io_runs = (refl, refl);
    dispatch_runs = (refl, refl);
  };
  as_type = h.as_type;
  as_private = h.as_private;
  on_poll = h.on_poll;
  on_timer = h.on_timer;
  on_bus = h.on_bus;
}

module _ (type : BusType) (private : Bool) (a : Answers) where
  install-Returns :
      (p t b : ℕ) (s : Connection)
      → IsReady type private p t b s
      → Returns a.filter_ok (IsOpened type private (some p) (some t) (some b)) (install a s)
  unfolding install
  install-Returns p t b s h =
      if_intro (Returns a.filter_ok (IsOpened type private (some p) (some t) (some b))) a.filter_ok
        (λ e. inl (e, refl, install-IsOpened type private p t b s h))
        (λ e. inr (e, refl, disconnect_impl-IsIdle a.alive s))

  open_bus-Returns :
      (p t : ℕ) (bus : Option ℕ) (s : Connection)
      → s.conn_type ≡ type
      → s.private_connection ≡ private
      → s.pollfd ≡ some p
      → s.timerfd ≡ some t
      → Returns
          (is_some bus && a.filter_ok)
          (IsOpened type private (some p) (some t) bus)
          (open_bus a bus s)
  unfolding open_bus
  open_bus-Returns p t none s c d e f = inr (refl, refl, disconnect_impl-IsIdle a.alive _)
  open_bus-Returns p t (some b) s c d e f =
      install-Returns p t b _
        (record { as_type = c; as_private = d; on_poll = e; on_timer = f; on_bus = refl })

  watch_timer-Returns :
      (p t : ℕ) (s : Connection)
      → s.pollfd ≡ some p
      → s.timerfd ≡ some t
      → Returns
          (a.epoll_ctl_ok && (is_some a.got_bus && a.filter_ok))
          (IsOpened type private (some p) (some t) a.got_bus)
          (watch_timer type private a s)
  unfolding watch_timer
  watch_timer-Returns p t s e f =
      if_intro (Returns _ (IsOpened type private (some p) (some t) a.got_bus)) a.epoll_ctl_ok
        (λ c.
          Returns-and a.epoll_ctl_ok _ (IsOpened type private (some p) (some t) a.got_bus) _ c
            (open_bus-Returns p t a.got_bus _ refl refl e f))
        (λ c. inr (and_false a.epoll_ctl_ok _ c, refl, disconnect_impl-IsIdle a.alive s))

  open_timer-Returns :
      (p : ℕ) (timer : Option ℕ) (s : Connection)
      → s.pollfd ≡ some p
      → Returns
          (is_some timer && (a.epoll_ctl_ok && (is_some a.got_bus && a.filter_ok)))
          (IsOpened type private (some p) timer a.got_bus)
          (open_timer type private a timer s)
  unfolding open_timer
  open_timer-Returns p none s e = inr (refl, refl, disconnect_impl-IsIdle a.alive _)
  open_timer-Returns p (some t) s e = watch_timer-Returns p t _ e refl

  open_poll-Returns :
      (poll : Option ℕ) (s : Connection)
      → IsIdle (record s { pollfd = none; conn_state = disconnected })
      → Returns
          (is_some poll
            && (is_some a.timer && (a.epoll_ctl_ok && (is_some a.got_bus && a.filter_ok))))
          (IsOpened type private poll a.timer a.got_bus)
          (open_poll type private a poll s)
  unfolding open_poll
  open_poll-Returns none s h = inr (refl, refl, h)
  open_poll-Returns (some p) s h = open_timer-Returns p a.timer _ refl

  pub connect-Returns :
      (s : Connection)
      → IsIdle s
      → Returns
          (all_ok a)
          (IsOpened type private a.epoll a.timer a.got_bus)
          (connect type private a s)
  unfolding connect
  connect-Returns s h =
      subst
        (λ c.
          Returns (all_ok a) (IsOpened type private a.epoll a.timer a.got_bus)
            (connect_from c type private a s))
        (sym h.off)
        (open_poll-Returns a.epoll _ (record {
          off = refl;
          no_ctx = h.no_ctx;
          default_type = h.default_type;
          not_private = h.not_private;
          no_name = h.no_name;
          io_joined = h.io_joined;
          dispatch_joined = h.dispatch_joined;
          io_stops = h.io_stops;
          dispatch_stops = h.dispatch_stops;
          no_pollfd = refl;
          no_timerfd = h.no_timerfd;
          unwatched = h.unwatched;
          untimed = h.untimed;
          answered = h.answered;
          no_changed_cb = h.no_changed_cb;
          no_lost_cb = h.no_lost_cb;
          no_acquired_cb = h.no_acquired_cb;
        }))
