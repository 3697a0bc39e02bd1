-- ===== src/Tests/Rules.antt =====
-- Match rules at concrete inputs.
use Prim.Native.String.{String}
use libultrabus.Common.{◌≡◌, refl, true, false, some, []}
use libultrabus.Matches.{
  Filter, new_filter, success, error, add_match, add_match_async, remove_match, on_add_reply, held,
  on_remove_reply,
}
use libultrabus.Matches.Rules.{contains, emplace}
use libultrabus.Matches.Synced.{
  IsSynced, start, later, adds, removes, asks_add, add_replies, Reach-IsSynced,
}
use libultrabus.Matches.Deadlock.{Shared, idle, waiting, Moves, deadlock_forever}

abbrev signals : String
signals = "type='signal'"

abbrev with_signals : Filter
with_signals = (add_match true success signals new_filter).0

with_signals_listed : contains signals with_signals.match_rules ≡ true
unfolding add_match on_add_reply contains emplace
with_signals_listed = refl

absent : contains signals new_filter.match_rules ≡ false
unfolding contains
absent = refl

unheld : held signals new_filter.log ≡ 0
unfolding held
unheld = refl

Reach-IsSynced_example :
    IsSynced
      (on_add_reply "b" success
        (add_match_async true true
          (some 1)
          "b"
          (remove_match true (error "E" "refused") signals with_signals).0).0).0
unfolding contains add_match on_add_reply emplace remove_match on_remove_reply add_match_async
Reach-IsSynced_example = Reach-IsSynced (
    later
      (later
        (later (later start (adds true success signals refl))
          (removes true (error "E" "refused") signals refl))
        (asks_add true true 1 "b"))
      (add_replies "b" success refl refl))

abbrev quiet : Shared
quiet = record { caller = idle; mutex_held = false; due = []; received = [] }

deadlock_forever_example :
    (t : Shared) × Moves quiet t × ((u : Shared) → Moves t u → u.caller ≡ waiting)
deadlock_forever_example = deadlock_forever quiet refl refl refl refl
