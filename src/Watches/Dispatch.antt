-- ===== src/Watches/Dispatch.antt =====
-- What a toggle stores for a watch, and how a ready descriptor's events go to a watch.
use libultrabus.Common.{
  ℕ, ◌≡◌, refl, ap, ◌∙◌, Bool, true, false, not, ◌&&◌, none, some, [], ◌∷◌, ◌==◌, if◌then◌else◌,
  arith, inl, inr, Bool-cases,
}
use libultrabus.Common.Maps.{Map, find, find-assign}
use libultrabus.Watches.Events.{
  EpollEvents, no_events, join, join_assoc, join_comm, without, any_event,
  epoll_events_to_dbus_events,
}
use libultrabus.Watches.{
  Watch, Watches, watch_events, toggle_entries, on_toggled_watch, triggered, deliver,
  handle_io_watch_event,
}

-- The joined masks of the watches before `a` in the order of the map.
abbrev pub masks_before : ℕ → Map EpollEvents → EpollEvents
masks_before a [] = no_events
masks_before a ((b, mask) ∷ m) = if b == a then no_events else join mask (masks_before a m)

find-toggle_entries :
    (a : ℕ) (acc : EpollEvents) (m : Map EpollEvents) (old : EpollEvents)
    → find a m ≡ some old
    → find a (toggle_entries a acc m).entries ≡ some (join acc (masks_before a m))
unfolding find toggle_entries
find-toggle_entries a acc [] old h = cc
find-toggle_entries a acc ((b, mask) ∷ m) old h = elim (Bool-cases (b == a)) [
  | inl hit ↦ rw hit (ap some (join_comm no_events acc))
  | inr miss ↦ rw miss (
      find-toggle_entries a (join acc mask) m old (rw miss at h)
      ∙ ap some (join_assoc acc mask (masks_before a m)))
]

-- After on_toggled_watch the mask of the toggled watch is not only what the watch asks for: it is
-- that joined with the masks of all the watches of the same descriptor that come before it.
pub on_toggled_watch_mask :
    (epoll_ok : Bool) (w : Watch) (s : Watches) (m : Map EpollEvents) (old : EpollEvents)
    → find w.fd s.fd_map ≡ some m
    → find w.address m ≡ some old
    → (m' : Map EpollEvents) × (find w.fd (on_toggled_watch epoll_ok w s).fd_map ≡ some m')
      × (find w.address m' ≡ some (join (watch_events w) (masks_before w.address m)))
unfolding on_toggled_watch
on_toggled_watch_mask epoll_ok w s m old e h =
    let m' = (toggle_entries w.address (watch_events w) m).entries in
    (
      m',
      rw (e, on_toggled_watch) (find-assign w.fd m' w.fd s.fd_map m e ∙ ground arith),
      find-toggle_entries w.address (watch_events w) m old h,
    )

without_none : (a b : Bool) → b ≡ false → a ≡ (a && not b)
without_none a b h = ground arith

-- A mask with no bit takes nothing away.
without-any_event : (a hit : EpollEvents) → any_event hit ≡ false → a ≡ without a hit
without-any_event a hit h = λ i. record {
  epollin = without_none a.epollin hit.epollin (ground arith) i;
  epollout = without_none a.epollout hit.epollout (ground arith) i;
  epollerr = without_none a.epollerr hit.epollerr (ground arith) i;
  epollhup = without_none a.epollhup hit.epollhup (ground arith) i;
}

deliver_lem :
    (enabled : Bool) (io_events hit : EpollEvents)
    → ((deliver enabled io_events hit).left ≡ without io_events hit)
      × ((deliver enabled io_events hit).dispatched
          ≡ (if enabled && any_event hit then some (epoll_events_to_dbus_events hit) else none))
unfolding deliver
deliver_lem true io_events hit = elim (Bool-cases (any_event hit)) [
  | inl ready ↦ rw ready (refl, refl)
  | inr idle ↦ rw idle (without-any_event io_events hit idle, refl)
]
deliver_lem false io_events hit = elim (Bool-cases (any_event hit)) [
  | inl ready ↦ rw ready (refl, refl)
  | inr idle ↦ rw idle (without-any_event io_events hit idle, refl)
]

-- A watch takes from the ready events those in its mask, and errors and hangups in any case. It is
-- given them, in the flags of libdbus, if there are any and it is enabled; they are gone for the
-- watches after it also if it is disabled.
pub handle_io_watch_event_lem :
    (enabled : Bool) (io_events event_mask : EpollEvents)
    → let h = handle_io_watch_event enabled io_events event_mask in
      let hit = triggered io_events event_mask in
      (h.left ≡ without io_events hit)
      × (h.dispatched
          ≡ (if enabled && any_event hit then some (epoll_events_to_dbus_events hit) else none))
unfolding handle_io_watch_event
handle_io_watch_event_lem enabled io_events event_mask =
    deliver_lem enabled io_events (triggered io_events event_mask)
