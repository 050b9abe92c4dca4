-- ===== src/Port/Clock.antt =====
-- The clock in milliseconds of src/port/arch_unix.c.
use libsupla.Prelude.{ℕ, ◌+◌, ◌*◌, ◌^◌, ◌≤◌, ◌<◌, ◌≡◌, ◌⊎◌, arith, inl, inr}
use libsupla.Port.{supla_time_getmonotonictime_milliseconds}

-- Of two readings of the clock, each with less than 10 ^ 9 nanoseconds and at most 9 * 10 ^ 15 seconds,
-- the later one gives no fewer milliseconds, and after d more seconds, 1000 * d more.
milliseconds_mono :
    (s n s' n' d : ℕ)
    → n < 1000000000
    → n' < 1000000000
    → (s < s') ⊎ ((s ≡ s') × (n ≤ n'))
    → s' + d ≤ 9 * 10 ^ 15
    → (supla_time_getmonotonictime_milliseconds s n
        ≤ supla_time_getmonotonictime_milliseconds s' n')
      × (supla_time_getmonotonictime_milliseconds (s' + d) n'
          ≡ supla_time_getmonotonictime_milliseconds s' n' + 1000 * d)
unfolding supla_time_getmonotonictime_milliseconds
milliseconds_mono s n s' n' d a b (inl c) e = (omega arith, omega arith)
milliseconds_mono s n s' n' d a b (inr c) e = (omega arith, omega arith)
