-- ===== src/Connection/Waiting.antt =====
-- send_and_wait of lib/ultrabus/connection.cpp after the message is sent: the calling thread loops on
-- `got_reply` and waits on `cond`; the dispatch thread runs the reply callback. The two interleave,
-- a statement at a time.
use libultrabus.Common.{
  ◌≡◌, refl, Bool, true, false, Option, none, some, ℕ, suc, ◌+◌, ◌⊎◌, inl, inr, arith,
}

-- Where the calling thread stands.
pub data Waiter : Type 0 where
  testing : Waiter  -- at the test of the loop
  entering : Waiter  -- the test has failed, `cond.wait` is not reached
  asleep : Waiter  -- in `cond.wait`
  returned : Waiter  -- `return reply`

-- Where the dispatch thread stands in the callback.
pub data Callback : Type 0 where
  before : Callback
  stored : Callback  -- `reply` is assigned
  flagged : Callback  -- `got_reply` is set
  finished : Callback  -- `notify_one` is done

pub record Exchange : Type 0 where
  pub waiter : Waiter
  pub callback : Callback
  pub reply : Option ℕ
  pub got_reply : Bool

-- `is_sent` holds, no reply has come.
abbrev pub sent : Exchange
sent = record { waiter = testing; callback = before; reply = none; got_reply = false }

pub data Move (s : Exchange) : Exchange → Type 0 where
  leave : s.waiter ≡ testing → s.got_reply ≡ true → Move s (record s { waiter = returned })
  stay : s.waiter ≡ testing → s.got_reply ≡ false → Move s (record s { waiter = entering })
  sleep : s.waiter ≡ entering → Move s (record s { waiter = asleep })
  store :
      (resp : ℕ) → s.callback ≡ before → Move s (record s { callback = stored; reply = some resp })
  flag : s.callback ≡ stored → Move s (record s { callback = flagged; got_reply = true })
  notify :
      s.callback ≡ flagged
      → s.waiter ≡ asleep
      → Move s (record s { waiter = testing; callback = finished })
  notify_nobody :
      s.callback ≡ flagged → ¬ (s.waiter ≡ asleep) → Move s (record s { callback = finished })

-- A wait may also end by itself; the standard allows it and does not promise it.
pub data Step (s : Exchange) (t : Exchange) : Type 0 where
  move : Move s t → Step s t
  spurious : s.waiter ≡ asleep → t ≡ record s { waiter = testing } → Step s t

pub data Reach : Exchange → Type 0 where
  start : Reach sent
  later : {s t : Exchange} → Reach s → Step s t → Reach t

pub data Moves (s : Exchange) : Exchange → Type 0 where
  done : Moves s s
  next : {t u : Exchange} → Moves s t → Move t u → Moves s u

abbrev pub HasReply : Exchange → Type 0
HasReply s = (r : ℕ) × (s.reply ≡ some r)

pub record IsSound (s : Exchange) : Type 0 where
  pub unset : s.callback ≡ before → s.got_reply ≡ false
  pub has_reply : ¬ (s.callback ≡ before) → HasReply s
  pub left : s.waiter ≡ returned → s.got_reply ≡ true
  pub set : s.callback ≡ flagged → s.got_reply ≡ true
  pub kept : s.callback ≡ finished → s.got_reply ≡ true

Move-IsSound : {s t : Exchange} → Move s t → IsSound s → IsSound t
Move-IsSound {s} (leave p q) v = record {
  unset = ground arith;
  has_reply = ground arith;
  left = ground arith;
  set = ground arith;
  kept = ground arith;
}
Move-IsSound (stay p q) v = record {
  unset = ground arith;
  has_reply = ground arith;
  left = ground arith;
  set = ground arith;
  kept = ground arith;
}
Move-IsSound (sleep p) v = record {
  unset = ground arith;
  has_reply = ground arith;
  left = ground arith;
  set = ground arith;
  kept = ground arith;
}
Move-IsSound (store r p) v = record {
  unset = ground arith;
  has_reply = ground arith;
  left = ground arith;
  set = ground arith;
  kept = ground arith;
}
Move-IsSound (flag p) v = record {
  unset = ground arith;
  has_reply = ground arith;
  left = ground arith;
  set = ground arith;
  kept = ground arith;
}
Move-IsSound (notify p q) v = record {
  unset = ground arith;
  has_reply = ground arith;
  left = ground arith;
  set = ground arith;
  kept = ground arith;
}
Move-IsSound (notify_nobody p q) v = record {
  unset = ground arith;
  has_reply = ground arith;
  left = ground arith;
  set = ground arith;
  kept = ground arith;
}

Step-IsSound : {s t : Exchange} → Step s t → IsSound s → IsSound t
Step-IsSound (move m) v = Move-IsSound m v
Step-IsSound (spurious p q) v = record {
  unset = ground arith;
  has_reply = ground arith;
  left = ground arith;
  set = ground arith;
  kept = ground arith;
}

Reach-IsSound : {s : Exchange} → Reach s → IsSound s
Reach-IsSound start = record {
  unset = ground arith;
  has_reply = ground arith;
  left = ground arith;
  set = ground arith;
  kept = ground arith;
}
Reach-IsSound (later r st) = Step-IsSound st (Reach-IsSound r)

-- In every reachable state in which send_and_wait has returned, the reply callback has stored a
-- reply, so what is returned is a reply and not the message that `reply` was constructed with.
pub Reach-HasReply : {s : Exchange} → Reach s → s.waiter ≡ returned → HasReply s
Reach-HasReply r h = let v = Reach-IsSound r in ground (arith, v.left h, v.unset, v.has_reply)

-- Each move brings the exchange closer to its end: the callback's statements count most, then how
-- far the caller is from returning.
abbrev pub callback_left : Callback → ℕ
callback_left before = 9
callback_left stored = 6
callback_left flagged = 3
callback_left finished = 0

abbrev pub waiter_left : Waiter → ℕ
waiter_left testing = 3
waiter_left entering = 2
waiter_left asleep = 1
waiter_left returned = 0

abbrev pub left_over : Exchange → ℕ
left_over s = callback_left s.callback + waiter_left s.waiter

abbrev pub count : {s t : Exchange} → Moves s t → ℕ
count done = 0
count (next ms m) = suc (count ms)

-- The caller is in `cond.wait` and the notification is still to come, or it tests a flag that is
-- set, or it has returned.
pub data IsSafe (s : Exchange) : Type 0 where
  dozes : s.waiter ≡ asleep → ¬ (s.callback ≡ finished) → IsSafe s
  sees : s.waiter ≡ testing → s.got_reply ≡ true → IsSafe s
  is_back : s.waiter ≡ returned → IsSafe s

-- The notification is done and the caller is not past `cond.wait`.
abbrev pub IsLost : Exchange → Type 0
IsLost s = (s.callback ≡ finished) × ((s.waiter ≡ entering) ⊎ (s.waiter ≡ asleep))

Move-IsLost : {s t : Exchange} → Move s t → IsLost s → IsLost t
Move-IsLost (leave a b) (f, inl g) = absurd (cc)
Move-IsLost (leave a b) (f, inr g) = absurd (cc)
Move-IsLost (stay a b) (f, inl g) = absurd (cc)
Move-IsLost (stay a b) (f, inr g) = absurd (cc)
Move-IsLost (sleep a) (f, g) = (f, inr refl)
Move-IsLost (store r a) (f, g) = absurd (cc)
Move-IsLost (flag a) (f, g) = absurd (cc)
Move-IsLost (notify a b) (f, g) = absurd (cc)
Move-IsLost (notify_nobody a n) (f, g) = absurd (cc)

Moves-IsLost : {s t : Exchange} → Moves s t → IsLost s → IsLost t
Moves-IsLost done h = h
Moves-IsLost (next ms m) h = Move-IsLost m (Moves-IsLost ms h)

-- The lost wakeup: if the callback has set `got_reply` while the caller stands between its test and
-- `cond.wait`, the callback can go on to its notification before the caller moves, which finds
-- nobody; and however the two threads move after that, send_and_wait does not return unless a wait
-- ends by itself.
pub lost_wakeup :
    (s : Exchange)
    → s.waiter ≡ entering
    → s.callback ≡ flagged
    → Move s (record s { callback = finished })
      × ((t : Exchange) → Moves (record s { callback = finished }) t → ¬ (t.waiter ≡ returned))
lost_wakeup s p q = (
  notify_nobody q (λ e. cc),
  λ t ms e. let (f, g) = Moves-IsLost ms (refl, inl p) in elim g [ inl k ↦ cc | inr k ↦ cc ],
)
