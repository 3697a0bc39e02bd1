-- ===== src/Timers/Entries.antt =====
-- The list of timer entries: the position loop of on_add_timeout, `timers.sort`, and the search and
-- erasure of on_remove_timeout.
use libultrabus.Common.{ℕ, Bool, true, false, ◌||◌, List, [], ◌∷◌, ◌==◌, if◌then◌else◌}
use libultrabus.Timers.Time.{Timespec, timespec_less}

-- timer_entry_t: the handle is the address of the DBusTimeout, the repeat is in milliseconds.
pub record TimerEntry : Type 0 where
  pub handle : ℕ
  pub abs_time : Timespec
  pub repeat : ℕ

-- Before the first entry that expires later, so behind those that expire at the same time.
unfoldable pub insert_timer : TimerEntry → List TimerEntry → List TimerEntry
insert_timer e [] = e ∷ []
insert_timer e (x ∷ xs) =
    if timespec_less e.abs_time x.abs_time then e ∷ x ∷ xs else x ∷ insert_timer e xs

-- `pos == timers.begin ()`
unfoldable pub is_first : TimerEntry → List TimerEntry → Bool
is_first e [] = true
is_first e (x ∷ xs) = timespec_less e.abs_time x.abs_time

unfoldable pub compare_timer_entry : TimerEntry → TimerEntry → Bool
compare_timer_entry lhs rhs = timespec_less lhs.abs_time rhs.abs_time

-- std::list::sort is stable: an entry stays before those that do not compare less.
unfoldable pub merge_timer : TimerEntry → List TimerEntry → List TimerEntry
unfolding compare_timer_entry
merge_timer e [] = e ∷ []
merge_timer e (x ∷ xs) = if compare_timer_entry x e then x ∷ merge_timer e xs else e ∷ x ∷ xs

unfoldable pub sort_timers : List TimerEntry → List TimerEntry
unfolding merge_timer
sort_timers [] = []
sort_timers (e ∷ es) = merge_timer e (sort_timers es)

unfoldable pub has_timer : ℕ → List TimerEntry → Bool
has_timer h [] = false
has_timer h (e ∷ es) = e.handle == h || has_timer h es

-- Only the first entry with the handle goes.
unfoldable pub erase_timer : ℕ → List TimerEntry → List TimerEntry
erase_timer h [] = []
erase_timer h (e ∷ es) = if e.handle == h then es else e ∷ erase_timer h es
