-- ===== src/Watches/Events.antt =====
-- The event masks of lib/ultrabus/connection.cpp. A mask is read through the bits that the code
-- tests or sets; epoll_wait reports no other, since no other is asked for.
use libultrabus.Common.{◌≡◌, refl, sym, ap, ◌∙◌, Bool, true, false, not, ◌&&◌, ◌||◌, arith}

-- EPOLLIN, EPOLLOUT, EPOLLERR and EPOLLHUP of an epoll mask.
pub record EpollEvents : Type 0 where
  pub epollin : Bool
  pub epollout : Bool
  pub epollerr : Bool
  pub epollhup : Bool

-- DBUS_WATCH_READABLE, _WRITABLE, _ERROR and _HANGUP.
pub record WatchFlags : Type 0 where
  pub readable : Bool
  pub writable : Bool
  pub error : Bool
  pub hangup : Bool

abbrev pub no_events : EpollEvents
no_events = record { epollin = false; epollout = false; epollerr = false; epollhup = false }

-- `a | b`
abbrev pub join : EpollEvents → EpollEvents → EpollEvents
join a b = record {
  epollin = a.epollin || b.epollin;
  epollout = a.epollout || b.epollout;
  epollerr = a.epollerr || b.epollerr;
  epollhup = a.epollhup || b.epollhup;
}

-- `a & b`
abbrev pub meet : EpollEvents → EpollEvents → EpollEvents
meet a b = record {
  epollin = a.epollin && b.epollin;
  epollout = a.epollout && b.epollout;
  epollerr = a.epollerr && b.epollerr;
  epollhup = a.epollhup && b.epollhup;
}

-- `a & ~b`
abbrev pub without : EpollEvents → EpollEvents → EpollEvents
without a b = record {
  epollin = a.epollin && not b.epollin;
  epollout = a.epollout && not b.epollout;
  epollerr = a.epollerr && not b.epollerr;
  epollhup = a.epollhup && not b.epollhup;
}

-- `a != 0`
abbrev pub any_event : EpollEvents → Bool
any_event a = a.epollin || a.epollout || a.epollerr || a.epollhup

abbrev pub any_flag : WatchFlags → Bool
any_flag f = f.readable || f.writable || f.error || f.hangup

abbrev pub hup_and_err : EpollEvents
hup_and_err = record { epollin = false; epollout = false; epollerr = true; epollhup = true }

unfoldable pub epoll_events_to_dbus_events : EpollEvents → WatchFlags
epoll_events_to_dbus_events e = record {
  readable = e.epollin;
  writable = e.epollout;
  error = e.epollerr;
  hangup = e.epollhup;
}

or_assoc : (a b c : Bool) → ((a || b) || c) ≡ (a || (b || c))
or_assoc true b c = refl
or_assoc false b c = refl

or_comm : (a b : Bool) → (a || b) ≡ (b || a)
or_comm a b = ground arith

pub join_assoc : (a b c : EpollEvents) → join (join a b) c ≡ join a (join b c)
join_assoc a b c = λ i. record {
  epollin = or_assoc a.epollin b.epollin c.epollin i;
  epollout = or_assoc a.epollout b.epollout c.epollout i;
  epollerr = or_assoc a.epollerr b.epollerr c.epollerr i;
  epollhup = or_assoc a.epollhup b.epollhup c.epollhup i;
}

pub join_comm : (a b : EpollEvents) → join a b ≡ join b a
join_comm a b = λ i. record {
  epollin = or_comm a.epollin b.epollin i;
  epollout = or_comm a.epollout b.epollout i;
  epollerr = or_comm a.epollerr b.epollerr i;
  epollhup = or_comm a.epollhup b.epollhup i;
}

or_idem : (a : Bool) → (a || a) ≡ a
or_idem a = ground arith

pub join_idem : (a : EpollEvents) → join a a ≡ a
join_idem a = λ i. record {
  epollin = or_idem a.epollin i;
  epollout = or_idem a.epollout i;
  epollerr = or_idem a.epollerr i;
  epollhup = or_idem a.epollhup i;
}

or_step : (a b x : Bool) → ((a || b) || x) ≡ x → (a || (b || x)) ≡ (b || x)
or_step a b x h = ground arith

-- What is above `a` and `b` together is above `a` when `b` is joined to it.
pub join_step : (a b x : EpollEvents) → join (join a b) x ≡ x → join a (join b x) ≡ join b x
join_step a b x h = λ i. record {
  epollin = or_step a.epollin b.epollin x.epollin (λ j. (h j).epollin) i;
  epollout = or_step a.epollout b.epollout x.epollout (λ j. (h j).epollout) i;
  epollerr = or_step a.epollerr b.epollerr x.epollerr (λ j. (h j).epollerr) i;
  epollhup = or_step a.epollhup b.epollhup x.epollhup (λ j. (h j).epollhup) i;
}

pub join_absorb : (a x : EpollEvents) → join a (join a x) ≡ join a x
join_absorb a x = sym (join_assoc a a x) ∙ ap (λ b. join b x) (join_idem a)

pub join_left_comm : (a b x : EpollEvents) → join a (join b x) ≡ join b (join a x)
join_left_comm a b x =
    sym (join_assoc a b x) ∙ ap (λ c. join c x) (join_comm a b) ∙ join_assoc b a x
