-- ===== src/Watches.antt =====
-- The watches of lib/ultrabus/connection.cpp: `fd_map` holds the libdbus watches of each file
-- descriptor with their event masks, and epoll is asked for the events of each descriptor. A call
-- of epoll_ctl has its outcome as an argument.
pub mod Events
pub mod Masks
pub mod Interest
pub mod Dispatch
use libultrabus.Common.{
  ℕ, Bool, true, false, ◌&&◌, Option, none, some, List, [], ◌∷◌, ◌==◌, if◌then◌else◌,
}
use libultrabus.Common.Maps.{Map, find, emplace, assign, erase}
use Events.{
  EpollEvents, WatchFlags, no_events, join, meet, without, any_event, any_flag, hup_and_err,
  epoll_events_to_dbus_events,
}

-- What libdbus says of a DBusWatch: its address, its descriptor (not negative: a watch of libdbus
-- stands on an open descriptor), whether it is enabled, and its flags.
pub record Watch : Type 0 where
  pub address : ℕ
  pub fd : ℕ
  pub enabled : Bool
  pub flags : WatchFlags

-- `interest` is what the last epoll_ctl that succeeded asked for, for each descriptor: none after
-- EPOLL_CTL_DEL, or if there was no call.
pub record Watches : Type 0 where
  pub fd_map : Map (Map EpollEvents)
  pub interest : ℕ → Option EpollEvents

abbrev pub no_watches : Watches
no_watches = record { fd_map = []; interest = λ fd. none }

abbrev pub request : (ℕ → Option EpollEvents) → ℕ → Option EpollEvents → ℕ → Option EpollEvents
request interest fd e q = if q == fd then e else interest q

abbrev pub requested_if :
    Bool → (ℕ → Option EpollEvents) → ℕ → Option EpollEvents → ℕ → Option EpollEvents
requested_if true interest fd e = request interest fd e
requested_if false interest fd e = interest

-- The start of on_add_watch and of on_toggled_watch.
abbrev pub watch_events : Watch → EpollEvents
watch_events w = record no_events {
  epollin = w.enabled && w.flags.readable;
  epollout = w.enabled && w.flags.writable;
}

-- `for (const auto& entry : entries) fd_events |= entry.second`
unfoldable pub join_masks : EpollEvents → Map EpollEvents → EpollEvents
join_masks acc [] = acc
join_masks acc ((a, mask) ∷ m) = join_masks (join acc mask) m

abbrev pub add_first : Bool → Watch → Watches → Watches × Bool
add_first epoll_ok w s =
    if epoll_ok
    then (
      record {
        fd_map = emplace w.fd (emplace w.address (watch_events w) []) s.fd_map;
        interest = request s.interest w.fd (some (watch_events w));
      },
      true,
    )
    else (
      record s {
        fd_map = erase w.fd (emplace w.fd (emplace w.address (watch_events w) []) s.fd_map);
      },
      false,
    )

abbrev pub add_more : Bool → Watch → Map EpollEvents → Watches → Watches × Bool
add_more epoll_ok w entries s =
    let entries' = emplace w.address (watch_events w) entries in
    if epoll_ok
    then (
      record {
        fd_map = assign w.fd entries' s.fd_map;
        interest = request s.interest w.fd (some (join_masks (watch_events w) entries'));
      },
      true,
    )
    else (record s { fd_map = assign w.fd (erase w.address entries') s.fd_map }, false)

unfoldable pub on_add_watch : Bool → Watch → Watches → Watches × Bool
unfolding join_masks
on_add_watch epoll_ok w s = elim (find w.fd s.fd_map) [
  | none ↦ add_first epoll_ok w s
  | some entries ↦ add_more epoll_ok w entries s
]

-- After `entry->second.erase (watch)`; the outcome of epoll_ctl is not looked at.
abbrev pub remove_rest : Bool → ℕ → Map EpollEvents → Watches → Watches
remove_rest epoll_ok fd [] s = record {
  fd_map = erase fd s.fd_map;
  interest = requested_if epoll_ok s.interest fd none;
}
remove_rest epoll_ok fd (e ∷ es) s = record {
  fd_map = assign fd (e ∷ es) s.fd_map;
  interest = requested_if epoll_ok s.interest fd (some (join_masks no_events (e ∷ es)));
}

unfoldable pub on_remove_watch : Bool → Watch → Watches → Watches
unfolding join_masks
on_remove_watch epoll_ok w s = elim (find w.fd s.fd_map) [
  | none ↦ s
  | some entries ↦ remove_rest epoll_ok w.fd (erase w.address entries) s
]

-- The loop of on_toggled_watch: `fd_events` grows on the way, and the toggled watch is given what
-- it has grown to.
pub record Toggled : Type 0 where
  pub entries : Map EpollEvents
  pub fd_events : EpollEvents

unfoldable pub toggle_entries : ℕ → EpollEvents → Map EpollEvents → Toggled
toggle_entries addr acc [] = record { entries = []; fd_events = acc }
toggle_entries addr acc ((a, mask) ∷ m) =
    let mask' = if a == addr then acc else mask in
    let rest = toggle_entries addr (join acc mask') m in
    record { entries = (a, mask') ∷ rest.entries; fd_events = rest.fd_events }

unfoldable pub on_toggled_watch : Bool → Watch → Watches → Watches
unfolding toggle_entries
on_toggled_watch epoll_ok w s = elim (find w.fd s.fd_map) [
  | none ↦ s
  | some entries ↦
      let t = toggle_entries w.address (watch_events w) entries in
      record {
        fd_map = assign w.fd t.entries s.fd_map;
        interest = requested_if epoll_ok s.interest w.fd (some t.fd_events);
      }
]

-- The outcome of handle_io_watch_event: the flags that dbus_watch_handle is called with, if it is
-- called, and the events that are left for the watches after this one.
pub record Handled : Type 0 where
  pub dispatched : Option WatchFlags
  pub left : EpollEvents

abbrev pub triggered : EpollEvents → EpollEvents → EpollEvents
triggered io_events event_mask = meet io_events (join event_mask hup_and_err)

unfoldable pub deliver : Bool → EpollEvents → EpollEvents → Handled
unfolding epoll_events_to_dbus_events
deliver enabled io_events hit =
    let flags = epoll_events_to_dbus_events hit in
    if any_event hit && any_flag flags
    then record { dispatched = if enabled then some flags else none; left = without io_events hit }
    else record { dispatched = none; left = io_events }

unfoldable pub handle_io_watch_event : Bool → EpollEvents → EpollEvents → Handled
unfolding deliver
handle_io_watch_event enabled io_events event_mask =
    deliver enabled io_events (triggered io_events event_mask)
