-- ===== src/Timers.antt =====
-- The timer queue of lib/ultrabus/connection.cpp: `timers` is kept in order of expiry, and one
-- timerfd is programmed for its front. A call of timerfd_settime has its outcome as an argument.
pub mod Time
pub mod Entries
pub mod Order
pub mod Expiry
use libultrabus.Common.{
  ℕ, ◌≡◌, Bool, true, false, not, ◌&&◌, Option, none, some, List, [], ◌∷◌, ◌==◌, if◌then◌else◌,
}
use Time.{Timespec, inc_abs_time}
use Entries.{TimerEntry, insert_timer, sort_timers, has_timer, is_first, erase_timer}

-- What libdbus says of a DBusTimeout: its address, dbus_timeout_get_interval, in milliseconds, and
-- dbus_timeout_get_enabled.
pub record Timeout : Type 0 where
  pub address : ℕ
  pub interval : ℕ
  pub enabled : Bool

-- `programmed` is the expiry that the last timerfd_settime that succeeded asked for, none if it
-- asked to disarm or if there was no such call.
pub record Timers : Type 0 where
  pub timers : List TimerEntry
  pub programmed : Option Timespec

abbrev pub no_timers : Timers
no_timers = record { timers = []; programmed = none }

abbrev pub next_expiry : List TimerEntry → Option Timespec
next_expiry [] = none
next_expiry (e ∷ es) = some e.abs_time

-- timerfd_settime: `settime_ok` says whether the call succeeds.
abbrev pub settime : Bool → Option Timespec → Option Timespec → Option Timespec
settime true wanted old = wanted
settime false wanted old = old

abbrev pub clamp_interval : ℕ → ℕ
clamp_interval interval = if interval == 0 then 1 else interval

abbrev pub new_entry : Timeout → Timespec → TimerEntry
new_entry t now = record {
  handle = t.address;
  abs_time = inc_abs_time now (clamp_interval t.interval);
  repeat = clamp_interval t.interval;
}

-- Insert, and program the timerfd if the new entry comes first.
unfoldable pub add_entry : Bool → TimerEntry → Timers → Timers × Bool
add_entry settime_ok e s =
    let queue = insert_timer e s.timers in
    if is_first e s.timers
    then (
      record { timers = queue; programmed = settime settime_ok (some e.abs_time) s.programmed },
      settime_ok,
    )
    else (record s { timers = queue }, true)

-- `now` is what clock_gettime answers.
unfoldable pub on_add_timeout : Bool → Timespec → Timeout → Timers → Timers × Bool
unfolding add_entry
on_add_timeout settime_ok now t s =
    if t.enabled then add_entry settime_ok (new_entry t now) s else (s, true)

abbrev pub front_is : ℕ → List TimerEntry → Bool
front_is h [] = false
front_is h (e ∷ es) = e.handle == h

-- After `timers.erase (pos)`: disarm if nothing is left, else program the new front if it changed.
abbrev pub reprogram : Bool → Bool → List TimerEntry → Option Timespec → Option Timespec
reprogram settime_ok update_timer [] old = settime settime_ok none old
reprogram settime_ok update_timer (e ∷ es) old =
    if update_timer then settime settime_ok (some e.abs_time) old else old

unfoldable pub on_remove_timeout : Bool → ℕ → Timers → Timers
on_remove_timeout settime_ok h s =
    if has_timer h s.timers
    then record {
      timers = erase_timer h s.timers;
      programmed = reprogram settime_ok (front_is h s.timers) (erase_timer h s.timers) s.programmed;
    }
    else s

unfoldable pub on_toggled_timeout : Bool → Timespec → Timeout → Timers → Timers
on_toggled_timeout settime_ok now t s =
    if t.enabled
    then (on_add_timeout settime_ok now t s).0
    else on_remove_timeout settime_ok t.address s

abbrev pub postpone : TimerEntry → TimerEntry
postpone e = record e { abs_time = inc_abs_time e.abs_time e.repeat }

unfoldable pub expire : Bool → List TimerEntry → Timers → Timers × Option ℕ
expire settime_ok [] s = (s, none)
expire settime_ok (e ∷ es) s =
    let queue = sort_timers (postpone e ∷ es) in
    (
      record { timers = queue; programmed = settime settime_ok (next_expiry queue) s.programmed },
      some e.handle,
    )

-- `readable` is the EPOLLIN bit of the event. The second component is the timeout that is handed to
-- dbus_timeout_handle. What `read` answers is not used, as in the source.
unfoldable pub on_timerfd_event : Bool → Bool → Timers → Timers × Option ℕ
unfolding expire
on_timerfd_event settime_ok readable s =
    if readable then expire settime_ok s.timers s else (s, none)
