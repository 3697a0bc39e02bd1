-- ===== src/Connection/Pending.antt =====
-- Pending calls: registered by `send`, answered by on_pending_call, and accounted for.
use libultrabus.Common.{
  ℕ, ◌+◌, ◌≡◌, refl, Option, none, some, List, [], ◌∷◌, ◌==◌, ==_iff, arith, inl, inr, Bool-cases,
  Option-cases, sym,
}
use libultrabus.Common.Maps.{Map, find, emplace, erase}
use libultrabus.Connection.Log.{Resource, call, Event, acquire, same, one_if, acquired, released}
use libultrabus.Connection.{Connection, register_reply, awaits, answer, on_pending_call}
use libultrabus.Connection.Balance.{in_calls, IsBalanced}

in_calls-emplace :
    (r : Resource) (p : ℕ) (cb : Option ℕ) (m : Map (Option ℕ))
    → find p m ≡ none
    → in_calls r (emplace p cb m) ≡ one_if (same r (call p)) + in_calls r m
unfolding find emplace
in_calls-emplace r p cb [] e = omega arith
in_calls-emplace r p cb ((q, d) ∷ m) e = ground (arith, in_calls-emplace r p cb m)

in_calls-erase :
    (r : Resource) (p : ℕ) (cb : Option ℕ) (m : Map (Option ℕ))
    → find p m ≡ some cb
    → one_if (same r (call p)) + in_calls r (erase p m) ≡ in_calls r m
unfolding find erase
in_calls-erase r p cb [] e = cc
in_calls-erase r p cb ((q, d) ∷ m) e = elim (Bool-cases (q == p)) [
  | inl hit ↦ rw (hit, sym ((==_iff q p).0 hit))
  | inr miss ↦ rw miss (omega (arith, in_calls-erase r p cb m (rw miss at e)))
]

-- libdbus gives a pending call that is not waiting already.
abbrev pub IsFresh : Option ℕ → Connection → Type 0
IsFresh none s = Unit {0}
IsFresh (some p) s = find p s.pending_messages ≡ none

acquired-awaits :
    (r : Resource) (cb : Option ℕ) (log : List Event)
    → (acquired r (awaits cb log) ≡ acquired r log) × (released r (awaits cb log) ≡ released r log)
unfolding acquired released
acquired-awaits r none log = (refl, refl)
acquired-awaits r (some cb) log = omega arith

pub register_reply-IsBalanced :
    (pending cb : Option ℕ) (s : Connection)
    → IsFresh pending s
    → IsBalanced s
    → IsBalanced (register_reply pending cb s).0
unfolding register_reply acquired released
register_reply-IsBalanced none cb s f h = h
register_reply-IsBalanced (some p) cb s f h = λ r. omega (
  arith,
  h r,
  acquired-awaits r cb (acquire (call p) ∷ s.log),
  in_calls-emplace r p cb s.pending_messages f,
)

answer-log :
    (r : Resource) (p : ℕ) (cb : Option ℕ) (message : ℕ) (log : List Event)
    → (acquired r (answer p cb message log) ≡ acquired r log)
      × (released r (answer p cb message log) ≡ one_if (same r (call p)) + released r log)
unfolding answer acquired released
answer-log r p none message log = omega arith
answer-log r p (some cb) message log = omega arith

pub on_pending_call-IsBalanced :
    (p message : ℕ) (s : Connection) → IsBalanced s → IsBalanced (on_pending_call p message s)
unfolding on_pending_call
on_pending_call-IsBalanced p message s h = elim (Option-cases (find p s.pending_messages)) [
  | inl e ↦ rw (e, on_pending_call) h
  | inr (cb, e) ↦
      rw (e, on_pending_call)
        (λ r.
          omega (
            arith,
            h r,
            answer-log r p cb message s.log,
            in_calls-erase r p cb s.pending_messages e,
          ))
]
