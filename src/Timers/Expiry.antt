-- ===== src/Timers/Expiry.antt =====
-- What the operations on the timer queue keep, and what the expiry of the timerfd does.
use libultrabus.Common.{
  ℕ, ◌+◌, ◌*◌, ◌≤◌, ◌≡◌, refl, Bool, true, false, Option, some, List, [], ◌∷◌, arith, Bool-cases,
  inl, inr, sym, ◌∙◌, if◌then◌else◌, Perm, if_intro,
}
use libultrabus.Timers.Time.{Timespec, IsNormal, inc_abs_time_lem, nanoseconds_in_a_millisecond}
use libultrabus.Timers.Entries.{TimerEntry, insert_timer, is_first, has_timer, erase_timer}
use libultrabus.Timers.Order.{
  deadline, IsEntry, IsAgenda, insert_timer-IsAgenda, sort_timers-IsAgenda, erase_timer-IsAgenda,
  AllEntries-agenda, sort_timers-perm,
}
use libultrabus.Timers.{
  Timeout, Timers, no_timers, next_expiry, clamp_interval, new_entry, on_add_timeout, front_is,
  reprogram, on_remove_timeout, on_toggled_timeout, postpone, expire, on_timerfd_event,
}

pub record IsValid (s : Timers) : Type 0 where
  pub ordered : IsAgenda 0 s.timers
  pub armed : s.programmed ≡ next_expiry s.timers

next_expiry-insert_timer :
    (e : TimerEntry) (es : List TimerEntry)
    → next_expiry (insert_timer e es) ≡ (if is_first e es then some e.abs_time else next_expiry es)
unfolding insert_timer is_first
next_expiry-insert_timer e [] = refl
next_expiry-insert_timer e (x ∷ es) = ground arith

new_entry-IsEntry : (t : Timeout) (now : Timespec) → IsNormal now → IsEntry (new_entry t now)
new_entry-IsEntry t now h = record {
  normal = (inc_abs_time_lem now (clamp_interval t.interval) h).0;
  repeats = ground arith;
}

pub on_add_timeout-IsValid :
    (now : Timespec) (t : Timeout) (s : Timers)
    → IsNormal now
    → IsValid s
    → IsValid (on_add_timeout true now t s).0
unfolding on_add_timeout
on_add_timeout-IsValid now t s h v = ground (
  arith,
  next_expiry-insert_timer (new_entry t now) s.timers,
  insert_timer-IsAgenda 0 (new_entry t now) s.timers (omega arith) (new_entry-IsEntry t now h)
      v.ordered,
)

next_expiry-erase_timer :
    (h : ℕ) (es : List TimerEntry)
    → front_is h es ≡ false
    → next_expiry (erase_timer h es) ≡ next_expiry es
unfolding erase_timer
next_expiry-erase_timer h [] e = refl
next_expiry-erase_timer h (x ∷ es) e = ground arith

reprogram-next_expiry :
    (u : Bool) (es : List TimerEntry) (old : Option Timespec)
    → (u ≡ false → next_expiry es ≡ old)
    → reprogram true u es old ≡ next_expiry es
reprogram-next_expiry u [] old h = refl
reprogram-next_expiry true (e ∷ es) old h = refl
reprogram-next_expiry false (e ∷ es) old h = sym (h refl)

pub on_remove_timeout-IsValid :
    (h : ℕ) (s : Timers) → IsValid s → IsValid (on_remove_timeout true h s)
unfolding on_remove_timeout
on_remove_timeout-IsValid h s v = elim (Bool-cases (has_timer h s.timers)) [
  | inr absent ↦ rw absent v
  | inl present ↦ rw present (record {
    ordered = erase_timer-IsAgenda 0 h s.timers v.ordered;
    armed =
        reprogram-next_expiry (front_is h s.timers) (erase_timer h s.timers) s.programmed
          (λ e. next_expiry-erase_timer h s.timers e ∙ sym v.armed);
  })
]

postpone-IsEntry : (e : TimerEntry) → IsEntry e → IsEntry (postpone e)
postpone-IsEntry e v = record {
  normal = (inc_abs_time_lem e.abs_time e.repeat v.normal).0;
  repeats = v.repeats;
}

expire-IsValid :
    (es : List TimerEntry) (s : Timers) → IsAgenda 0 es → IsValid s → IsValid (expire true es s).0
unfolding expire
expire-IsValid [] s a v = v
expire-IsValid (e ∷ es) s a v = record {
  ordered =
      sort_timers-IsAgenda (postpone e ∷ es)
        (postpone-IsEntry e a.1, AllEntries-agenda (deadline e) es a.2);
  armed = refl;
}

pub on_timerfd_event-IsValid :
    (readable : Bool) (s : Timers) → IsValid s → IsValid (on_timerfd_event true readable s).0
unfolding on_timerfd_event
on_timerfd_event-IsValid true s v = expire-IsValid s.timers s v.ordered v
on_timerfd_event-IsValid false s v = v

pub on_toggled_timeout-IsValid :
    (now : Timespec) (t : Timeout) (s : Timers)
    → IsNormal now
    → IsValid s
    → IsValid (on_toggled_timeout true now t s)
unfolding on_toggled_timeout
on_toggled_timeout-IsValid now t s h v =
    if_intro IsValid t.enabled (λ _. on_add_timeout-IsValid now t s h v)
      (λ _. on_remove_timeout-IsValid t.address s v)

-- What libdbus and the event loop do to the queue, while timerfd_settime succeeds.
pub data Step : Timers → Timers → Type 0 where
  add :
      {s : Timers} (now : Timespec) (t : Timeout)
      → IsNormal now
      → Step s (on_add_timeout true now t s).0
  remove : {s : Timers} (h : ℕ) → Step s (on_remove_timeout true h s)
  toggle :
      {s : Timers} (now : Timespec) (t : Timeout)
      → IsNormal now
      → Step s (on_toggled_timeout true now t s)
  fire : {s : Timers} (readable : Bool) → Step s (on_timerfd_event true readable s).0

pub data Reach : Timers → Type 0 where
  start : Reach no_timers
  later : {s t : Timers} → Reach s → Step s t → Reach t

Step-IsValid : {s t : Timers} → Step s t → IsValid s → IsValid t
Step-IsValid {s} (add now t h) v = on_add_timeout-IsValid now t s h v
Step-IsValid {s} (remove h) v = on_remove_timeout-IsValid h s v
Step-IsValid {s} (toggle now t h) v = on_toggled_timeout-IsValid now t s h v
Step-IsValid {s} (fire readable) v = on_timerfd_event-IsValid readable s v

-- After any sequence of additions, removals, toggles and expiries from an empty queue, where every
-- clock value is in normal form and timerfd_settime succeeds, the queue is in order of expiry, its
-- times are in normal form, its repeats are positive, and the timerfd is programmed for the front
-- of the queue, or disarmed if the queue is empty.
pub Reach-IsValid : {s : Timers} → Reach s → IsValid s
Reach-IsValid start = record { ordered = tt; armed = refl }
Reach-IsValid (later r st) = Step-IsValid st (Reach-IsValid r)

abbrev pub IsEarliest : ℕ → List TimerEntry → Type 0
IsEarliest n [] = Unit {0}
IsEarliest n (e ∷ es) = (n ≤ deadline e) × IsEarliest n es

IsAgenda-IsEarliest : {m n : ℕ} (es : List TimerEntry) → m ≤ n → IsAgenda n es → IsEarliest m es
IsAgenda-IsEarliest [] h a = tt
IsAgenda-IsEarliest {m} {n} (e ∷ es) h a =
    (omega arith, IsAgenda-IsEarliest {m = m} {n = deadline e} es (omega arith) a.2)

-- When the timerfd of a valid queue that is not empty becomes readable, the timeout that is handed
-- to libdbus is one that expires first; its entry alone is moved, later by exactly its repeat, and
-- all other entries stay.
pub on_timerfd_event_first :
    (s : Timers) (e : TimerEntry) (es : List TimerEntry)
    → IsValid s
    → s.timers ≡ e ∷ es
    → let after = on_timerfd_event true true s in
      (after.1 ≡ some e.handle)
      × IsEarliest (deadline e) s.timers
      × Perm after.0.timers (postpone e ∷ es)
      × (deadline (postpone e) ≡ deadline e + e.repeat * nanoseconds_in_a_millisecond)
unfolding on_timerfd_event
on_timerfd_event_first s e es v h =
    let a : IsAgenda 0 (e ∷ es) = rw h at v.ordered in
    rw (h, expire)
      (
        refl,
        (omega arith, IsAgenda-IsEarliest {m = deadline e} {n = deadline e} es (omega arith) a.2),
        sort_timers-perm (postpone e ∷ es),
        (inc_abs_time_lem e.abs_time e.repeat a.1.normal).1,
      )

has_timer-insert_timer :
    (e : TimerEntry) (es : List TimerEntry) → has_timer e.handle (insert_timer e es) ≡ true
unfolding has_timer insert_timer
has_timer-insert_timer e [] = ground arith
has_timer-insert_timer e (x ∷ es) = ground (arith, has_timer-insert_timer e es)

erase_timer-insert_timer :
    (e : TimerEntry) (es : List TimerEntry)
    → has_timer e.handle es ≡ false
    → erase_timer e.handle (insert_timer e es) ≡ es
unfolding has_timer insert_timer erase_timer
erase_timer-insert_timer e [] h = ground arith
erase_timer-insert_timer e (x ∷ es) h = ground (arith, erase_timer-insert_timer e es)

-- The expiry that the addition programs, or leaves, is undone by the removal.
reprogram-insert_timer :
    (e : TimerEntry) (es : List TimerEntry)
    → has_timer e.handle es ≡ false
    → reprogram true
        (front_is e.handle (insert_timer e es))
        es
        (if is_first e es then some e.abs_time else next_expiry es)
      ≡ next_expiry es
unfolding has_timer insert_timer is_first
reprogram-insert_timer e [] h = refl
reprogram-insert_timer e (x ∷ es) h = ground arith

-- Removing a timeout that was just added, and that was not in the queue of a valid state before,
-- gives back the state as it was, the programmed expiry included.
pub on_remove_timeout-on_add_timeout :
    (now : Timespec) (t : Timeout) (s : Timers)
    → IsNormal now
    → IsValid s
    → has_timer t.address s.timers ≡ false
    → on_remove_timeout true t.address (on_add_timeout true now t s).0 ≡ s
unfolding on_remove_timeout on_add_timeout
on_remove_timeout-on_add_timeout now t s h v absent = ground (
  arith,
  v.armed,
  has_timer-insert_timer (new_entry t now) s.timers,
  erase_timer-insert_timer (new_entry t now) s.timers,
  reprogram-insert_timer (new_entry t now) s.timers absent,
)

-- When timerfd_settime fails, an addition that reports failure has still left its timeout in the
-- queue.
pub on_add_timeout_failed :
    (now : Timespec) (t : Timeout) (s : Timers)
    → (on_add_timeout false now t s).1 ≡ false
    → has_timer t.address (on_add_timeout false now t s).0.timers ≡ true
unfolding on_add_timeout
on_add_timeout_failed now t s h = ground (arith, has_timer-insert_timer (new_entry t now) s.timers)
