-- ===== src/Timers/Order.antt =====
-- The queue is in order of expiry and the timerfd is programmed for its front.
use mathlib.Core.List.Perm
use libultrabus.Common.{ℕ, ◌≤◌, ◌<◌, List, [], ◌∷◌, arith, Bool-cases, inl, inr, ◌==◌, Perm}
use libultrabus.Timers.Time.{ns, IsNormal, timespec_less_iff}
use libultrabus.Timers.Entries.{
  TimerEntry, insert_timer, compare_timer_entry, merge_timer, sort_timers, erase_timer,
}

abbrev pub deadline : TimerEntry → ℕ
deadline e = ns e.abs_time

pub record IsEntry (e : TimerEntry) : Type 0 where
  pub normal : IsNormal e.abs_time
  pub repeats : 0 < e.repeat

-- Entries in form, in order of expiry, none before the instant `n`.
abbrev pub IsAgenda : ℕ → List TimerEntry → Type 0
IsAgenda n [] = Unit {0}
IsAgenda n (e ∷ es) = (n ≤ deadline e) × IsEntry e × IsAgenda (deadline e) es

pub IsAgenda-mono : {m n : ℕ} (es : List TimerEntry) → m ≤ n → IsAgenda n es → IsAgenda m es
IsAgenda-mono [] h a = tt
IsAgenda-mono (e ∷ es) h a = (omega arith, a.1, a.2)

pub insert_timer-IsAgenda :
    (n : ℕ) (e : TimerEntry) (es : List TimerEntry)
    → n ≤ deadline e
    → IsEntry e
    → IsAgenda n es
    → IsAgenda n (insert_timer e es)
unfolding insert_timer
insert_timer-IsAgenda n e [] h v a = (h, v, tt)
insert_timer-IsAgenda n e (x ∷ es) h v a = ground (
  arith,
  timespec_less_iff e.abs_time x.abs_time v.normal a.1.normal,
  insert_timer-IsAgenda (deadline x) e es,
)

pub merge_timer-IsAgenda :
    (n : ℕ) (e : TimerEntry) (es : List TimerEntry)
    → n ≤ deadline e
    → IsEntry e
    → IsAgenda n es
    → IsAgenda n (merge_timer e es)
unfolding merge_timer
merge_timer-IsAgenda n e [] h v a = (h, v, tt)
merge_timer-IsAgenda n e (x ∷ es) h v a = ground (
  arith,
  timespec_less_iff x.abs_time e.abs_time a.1.normal v.normal,
  merge_timer-IsAgenda (deadline x) e es,
)

abbrev pub AllEntries : List TimerEntry → Type 0
AllEntries [] = Unit {0}
AllEntries (e ∷ es) = IsEntry e × AllEntries es

pub AllEntries-agenda : (n : ℕ) (es : List TimerEntry) → IsAgenda n es → AllEntries es
AllEntries-agenda n [] a = tt
AllEntries-agenda n (e ∷ es) a = (a.1, AllEntries-agenda (deadline e) es a.2)

pub sort_timers-IsAgenda : (es : List TimerEntry) → AllEntries es → IsAgenda 0 (sort_timers es)
unfolding sort_timers
sort_timers-IsAgenda [] v = tt
sort_timers-IsAgenda (e ∷ es) v =
    merge_timer-IsAgenda 0 e (sort_timers es) (omega arith) v.0 (sort_timers-IsAgenda es v.1)

pub erase_timer-IsAgenda :
    (n h : ℕ) (es : List TimerEntry) → IsAgenda n es → IsAgenda n (erase_timer h es)
unfolding erase_timer
erase_timer-IsAgenda n h [] a = tt
erase_timer-IsAgenda n h (e ∷ es) a = elim (Bool-cases (e.handle == h)) [
  | inl hit ↦ rw hit (IsAgenda-mono es a.0 a.2)
  | inr miss ↦ rw miss (a.0, a.1, erase_timer-IsAgenda (deadline e) h es a.2)
]

pub merge_timer-perm : (e : TimerEntry) (es : List TimerEntry) → Perm (merge_timer e es) (e ∷ es)
unfolding merge_timer
merge_timer-perm e [] = Perm.refl (e ∷ [])
merge_timer-perm e (x ∷ es) = elim (Bool-cases (compare_timer_entry x e)) [
  | inl less ↦ rw less (Perm.trans (Perm.cons x (merge_timer-perm e es)) (Perm.swap e x es))
  | inr other ↦ rw other (Perm.refl (e ∷ x ∷ es))
]

pub sort_timers-perm : (es : List TimerEntry) → Perm (sort_timers es) es
unfolding sort_timers
sort_timers-perm [] = Perm.refl []
sort_timers-perm (e ∷ es) =
    Perm.trans (merge_timer-perm e (sort_timers es)) (Perm.cons e (sort_timers-perm es))
