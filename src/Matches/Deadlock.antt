-- ===== src/Matches/Deadlock.antt =====
-- match_rule_mutex of lib/ultrabus/message_filter.cpp between a thread that calls add_match and the
-- dispatch thread. The synchronous add_match keeps the mutex while it waits for its reply; the
-- callback of an asynchronous one takes it.
use libultrabus.Common.{◌≡◌, refl, Bool, true, false, List, [], ◌∷◌, ◌++◌, ap}

-- Where the calling thread stands.
pub data Caller : Type 0 where
  idle : Caller
  locked : Caller  -- has the mutex
  waiting : Caller  -- in send_and_wait, has the mutex

-- A reply, by the overload that asked.
pub data Answer : Type 0 where
  to_callback : Answer
  to_caller : Answer

-- `due` are the replies that the bus owes, `received` those that the dispatch thread has not
-- handled; the oldest is first.
pub record Shared : Type 0 where
  pub caller : Caller
  pub mutex_held : Bool
  pub due : List Answer
  pub received : List Answer

pub data Move (s : Shared) : Shared → Type 0 where
  -- add_match with a callback, which gives the mutex back when it returns
  ask_async :
      s.caller ≡ idle
      → s.mutex_held ≡ false
      → Move s (record s { due = s.due ++ (to_callback ∷ []) })
  lock :
      s.caller ≡ idle
      → s.mutex_held ≡ false
      → Move s (record s { caller = locked; mutex_held = true })
  -- add_match without one
  ask : s.caller ≡ locked → Move s (record s { caller = waiting; due = s.due ++ (to_caller ∷ []) })
  -- the bus answers in the order of the requests
  arrive :
      (m : Answer) (rest : List Answer)
      → s.due ≡ m ∷ rest
      → Move s (record s { due = rest; received = s.received ++ (m ∷ []) })
  -- the dispatch thread, one message after the other
  run_callback :
      (rest : List Answer)
      → s.received ≡ to_callback ∷ rest
      → s.mutex_held ≡ false
      → Move s (record s { received = rest })
  wake_caller :
      (rest : List Answer)
      → s.received ≡ to_caller ∷ rest
      → s.caller ≡ waiting
      → Move s (record s { caller = idle; mutex_held = false; received = rest })

pub data Moves (s : Shared) : Shared → Type 0 where
  done : Moves s s
  next : {t u : Shared} → Moves s t → Move t u → Moves s u

pub record IsDeadlocked (s : Shared) : Type 0 where
  pub waits : s.caller ≡ waiting
  pub holds : s.mutex_held ≡ true
  pub rest : List Answer
  pub blocked : s.received ≡ to_callback ∷ rest

Move-IsDeadlocked : {s t : Shared} → Move s t → IsDeadlocked s → IsDeadlocked t
Move-IsDeadlocked (ask_async p q) v = cc v.waits
Move-IsDeadlocked (lock p q) v = cc
Move-IsDeadlocked (ask p) v = cc v.waits
Move-IsDeadlocked (arrive m l p) v = record {
  waits = v.waits;
  holds = v.holds;
  rest = v.rest ++ (m ∷ []);
  blocked = ap (λ x. x ++ (m ∷ [])) v.blocked;
}
Move-IsDeadlocked (run_callback l p q) v = cc (v.holds)
Move-IsDeadlocked (wake_caller l p q) v = cc (v.blocked)

Moves-IsDeadlocked : {s t : Shared} → Moves s t → IsDeadlocked s → IsDeadlocked t
Moves-IsDeadlocked done v = v
Moves-IsDeadlocked (next ms m) v = Move-IsDeadlocked m (Moves-IsDeadlocked ms v)

-- An asynchronous add, a synchronous one, and the arrival of the first reply.
abbrev pub deadlock : Shared → Shared
deadlock s = record {
  caller = waiting;
  mutex_held = true;
  due = to_caller ∷ [];
  received = s.received ++ (to_callback ∷ []);
}

deadlock-Moves :
    (s : Shared) → s.caller ≡ idle → s.mutex_held ≡ false → s.due ≡ [] → Moves s (deadlock s)
deadlock-Moves s p q e = next (next (next (next done (ask_async p q)) (lock p q)) (ask refl)) (
    arrive to_callback (to_caller ∷ []) (ap (λ d. (d ++ (to_callback ∷ [])) ++ (to_caller ∷ [])) e))

-- Whenever the calling thread is outside, the mutex is free and no reply is due or unhandled, it
-- can come into a state from which it never returns: after an asynchronous add_match and a
-- synchronous one, the reply to the first stands before the reply to the second, its callback
-- waits for the mutex, and the thread that has the mutex waits for the second reply. Whatever
-- happens then, the thread is still waiting.
pub deadlock_forever :
    (s : Shared)
    → s.caller ≡ idle
    → s.mutex_held ≡ false
    → s.due ≡ []
    → s.received ≡ []
    → (t : Shared) × Moves s t × ((u : Shared) → Moves t u → u.caller ≡ waiting)
deadlock_forever s p q e f = (
  deadlock s,
  deadlock-Moves s p q e,
  λ u ms.
      (Moves-IsDeadlocked ms (record {
        waits = refl;
        holds = refl;
        rest = [];
        blocked = ap (λ r. r ++ (to_callback ∷ [])) f;
      })).waits,
)
