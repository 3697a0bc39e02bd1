-- ===== src/Timers/Time.antt =====
-- Absolute times of lib/ultrabus/connection.cpp: timespec_less_t and inc_abs_time.
use libultrabus.Common.{
  ℕ, zero, suc, ◌+◌, ◌-◌, ◌*◌, ◌/◌, ◌%◌, ◌≤◌, ◌<◌, ◌≡◌, ◌↔◌, Bool, true, arith, ltb, leb, ◌==◌,
  if◌then◌else◌,
}

-- struct timespec of CLOCK_MONOTONIC, so both fields are non-negative. `time_t` has 64 bits, and no
-- clock value comes near its bound.
pub record Timespec : Type 0 where
  pub tv_sec : ℕ
  pub tv_nsec : ℕ

abbrev pub milliseconds_in_a_second : ℕ
milliseconds_in_a_second = 1000

abbrev pub nanoseconds_in_a_second : ℕ
nanoseconds_in_a_second = 1000000000

abbrev pub nanoseconds_in_a_millisecond : ℕ
nanoseconds_in_a_millisecond = 1000000

unfoldable pub timespec_less : Timespec → Timespec → Bool
timespec_less lhs rhs =
    if lhs.tv_sec == rhs.tv_sec then ltb lhs.tv_nsec rhs.tv_nsec else ltb lhs.tv_sec rhs.tv_sec

-- The `while` loop of inc_abs_time over `tv_sec` and `msec`; `msec` rounds are more than it takes.
pub record Carried : Type 0 where
  pub seconds : ℕ
  pub left : ℕ

unfoldable pub carry_seconds : ℕ → ℕ → ℕ → Carried
carry_seconds zero sec msec = record { seconds = sec; left = msec }
carry_seconds (suc f) sec msec =
    let rest = carry_seconds f (sec + 1) (msec - milliseconds_in_a_second) in
    if leb milliseconds_in_a_second msec then rest else record { seconds = sec; left = msec }

unfoldable pub inc_abs_time : Timespec → ℕ → Timespec
unfolding carry_seconds
inc_abs_time abs msec =
    let c = carry_seconds msec abs.tv_sec msec in
    let nsec = abs.tv_nsec + c.left * nanoseconds_in_a_millisecond in
    if leb nanoseconds_in_a_second nsec
    then record { tv_sec = c.seconds + 1; tv_nsec = nsec - nanoseconds_in_a_second }
    else record { tv_sec = c.seconds; tv_nsec = nsec }

-- The instant that a time names, in nanoseconds.
abbrev pub ns : Timespec → ℕ
ns t = t.tv_sec * nanoseconds_in_a_second + t.tv_nsec

abbrev pub IsNormal : Timespec → Type 0
IsNormal t = t.tv_nsec < nanoseconds_in_a_second

-- Enough fuel: the loop ends by its test, with the quotient carried and the remainder left.
pub carry_seconds_lem :
    (f sec msec : ℕ)
    → msec / milliseconds_in_a_second ≤ f
    → ((carry_seconds f sec msec).seconds ≡ sec + msec / milliseconds_in_a_second)
      × ((carry_seconds f sec msec).left ≡ msec % milliseconds_in_a_second)
unfolding carry_seconds
carry_seconds_lem zero sec msec h = omega arith
carry_seconds_lem (suc f) sec msec h = ground (arith, carry_seconds_lem f (sec + 1) (msec - 1000))

-- A time in normal form stays so, and moves by exactly the given milliseconds.
pub inc_abs_time_lem :
    (t : Timespec) (msec : ℕ)
    → IsNormal t
    → IsNormal (inc_abs_time t msec)
      × (ns (inc_abs_time t msec) ≡ ns t + msec * nanoseconds_in_a_millisecond)
unfolding inc_abs_time
inc_abs_time_lem t msec h = ground (arith, carry_seconds_lem msec t.tv_sec msec (omega arith))

-- On times in normal form the comparison is that of the instants.
pub timespec_less_iff :
    (a b : Timespec) → IsNormal a → IsNormal b → (timespec_less a b ≡ true) ↔ (ns a < ns b)
unfolding timespec_less
timespec_less_iff a b ha hb = ground arith
