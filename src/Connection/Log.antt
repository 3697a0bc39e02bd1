-- ===== src/Connection/Log.antt =====
-- What the class connection asks of libdbus and of the system, as a log, newest first.
use libultrabus.Common.{ℕ, ◌+◌, Bool, true, false, List, [], ◌∷◌, ◌==◌}

-- What is acquired and has to be given back: a file descriptor, a reference to the DBusConnection,
-- a reference to a DBusPendingCall.
pub data Resource : Type 0 where
  file : ℕ → Resource
  bus : ℕ → Resource
  call : ℕ → Resource

pub data Event : Type 0 where
  acquire : Resource → Event
  release : Resource → Event
  add_filter remove_filter : Event
  flush close_bus : Event
  cancel : ℕ → Event
  -- a reply callback is registered, or is called with a reply
  await : (callback : ℕ) → Event
  reply : (callback : ℕ) (message : ℕ) → Event

abbrev pub same : Resource → Resource → Bool
same (file a) (file b) = a == b
same (bus a) (bus b) = a == b
same (call a) (call b) = a == b
same _ _ = false

abbrev pub one_if : Bool → ℕ
one_if true = 1
one_if false = 0

abbrev pub acquires : Resource → Event → ℕ
acquires r (acquire q) = one_if (same r q)
acquires r _ = 0

abbrev pub releases : Resource → Event → ℕ
releases r (release q) = one_if (same r q)
releases r _ = 0

unfoldable pub acquired : Resource → List Event → ℕ
acquired r [] = 0
acquired r (e ∷ log) = acquires r e + acquired r log

unfoldable pub released : Resource → List Event → ℕ
released r [] = 0
released r (e ∷ log) = releases r e + released r log
