-- ===== src/Tests/TimerQueue.antt =====
-- Timers at concrete inputs.
use libultrabus.Common.{◌≡◌, refl, true, some, [], ◌∷◌, arith}
use libultrabus.Timers.Time.{Timespec, timespec_less, inc_abs_time}
use libultrabus.Timers.Entries.{has_timer, is_first, insert_timer}
use libultrabus.Timers.{
  Timeout, Timers, no_timers, on_add_timeout, on_remove_timeout, on_timerfd_event, new_entry,
}
use libultrabus.Timers.Expiry.{
  IsValid, Reach, start, later, add, fire, Reach-IsValid, on_timerfd_event_first,
  on_remove_timeout-on_add_timeout,
}

abbrev noon : Timespec
noon = record { tv_sec = 100; tv_nsec = 999000000 }

-- Two milliseconds cross a second.
inc_abs_time_carry : inc_abs_time noon 2002 ≡ record { tv_sec = 103; tv_nsec = 1000000 }
unfolding inc_abs_time
inc_abs_time_carry = refl

abbrev slow : Timeout
slow = record { address = 7; interval = 5000; enabled = true }

abbrev quick : Timeout
quick = record { address = 9; interval = 10; enabled = true }

abbrev one_timer : Timers
one_timer = (on_add_timeout true noon slow no_timers).0

abbrev two_timers : Timers
two_timers = (on_add_timeout true noon quick one_timer).0

one_timer-Reach : Reach one_timer
one_timer-Reach = later start (add noon slow (omega arith))

two_timers-Reach : Reach two_timers
two_timers-Reach = later one_timer-Reach (add noon quick (omega arith))

Reach-IsValid_example : IsValid (on_timerfd_event true true two_timers).0
Reach-IsValid_example = Reach-IsValid (later two_timers-Reach (fire true))

on_timerfd_event_first_example : (on_timerfd_event true true two_timers).1 ≡ some 9
unfolding on_add_timeout inc_abs_time timespec_less is_first insert_timer
on_timerfd_event_first_example =
    (on_timerfd_event_first two_timers (new_entry quick noon) (new_entry slow noon ∷ [])
      (Reach-IsValid two_timers-Reach) refl).0

on_remove_timeout-on_add_timeout_example :
    on_remove_timeout true 9 (on_add_timeout true noon quick one_timer).0 ≡ one_timer
unfolding on_add_timeout inc_abs_time timespec_less has_timer is_first insert_timer
on_remove_timeout-on_add_timeout_example =
    on_remove_timeout-on_add_timeout noon quick one_timer (omega arith)
      (Reach-IsValid one_timer-Reach) refl
