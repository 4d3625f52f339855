-- ===== src/Timer/Spans.antt =====
-- Spans of time as numbers of nanoseconds, microseconds and ticks.
use oskernel2023_main_os.Common.{arith, ltb, ℕ, ◌*◌, ◌+◌, ◌-◌, ◌<◌, ◌^◌, ◌≡◌, ◌≤◌}
use oskernel2023_main_os.Timer.{
  Times, add_spec, add_times, from_ns, nsec_per_sec, spec_less, sub_spec, sub_times, to_ns,
  val_from_tick, val_to_tick,
}
use oskernel2023_main_os.Timer.{TimeSpec}

-- A span of at most 2 ^ 33 seconds, with less than a second of nanoseconds.
abbrev pub IsSpan : TimeSpec → Type 0
IsSpan t = (t.tv_sec ≤ 2 ^ 33) × (t.tv_nsec < nsec_per_sec)

module _ (a b : TimeSpec) (h : IsSpan a) (k : IsSpan b) where
  add_value : to_ns (add_spec a b) ≡ to_ns a + to_ns b
  unfolding to_ns add_spec
  add_value = omega arith

  sub_value : to_ns (sub_spec a b) ≡ to_ns a - to_ns b
  unfolding to_ns sub_spec from_ns
  sub_value = ground arith

  less : spec_less a b ≡ ltb (to_ns a) (to_ns b)
  unfolding to_ns spec_less
  less = ground arith

add_normal : (a b : TimeSpec) → (add_spec a b).tv_nsec < nsec_per_sec
unfolding add_spec
add_normal a b = omega arith

sub_normal : (a b : TimeSpec) → (sub_spec a b).tv_nsec < nsec_per_sec
unfolding sub_spec from_ns
sub_normal a b = ground arith

-- For spans of at most 2 ^ 33 seconds, with less than a second of nanoseconds: sums and
-- differences are those of their nanoseconds, a difference stopping at 0, and are normal again;
-- the order of spans is that of their nanoseconds.
pub to_ns-arithmetic :
    (a b : TimeSpec)
    → IsSpan a
    → IsSpan b
    → (to_ns (add_spec a b) ≡ to_ns a + to_ns b)
      × ((add_spec a b).tv_nsec < nsec_per_sec)
      × (to_ns (sub_spec a b) ≡ to_ns a - to_ns b)
      × ((sub_spec a b).tv_nsec < nsec_per_sec)
      × (spec_less a b ≡ ltb (to_ns a) (to_ns b))
to_ns-arithmetic a b h k =
    (add_value a b h k, add_normal a b, sub_value a b h k, sub_normal a b, less a b h k)

-- A time in microseconds that was taken from a counter of ticks below 2 ^ 64 is at most the
-- counter, and less than 13 ticks behind it, when it is turned into ticks again.
pub val_to_tick-val_from_tick :
    (tick : ℕ)
    → tick < 2 ^ 64
    → (val_to_tick (val_from_tick tick) ≤ tick) × (tick < val_to_tick (val_from_tick tick) + 13)
unfolding val_to_tick val_from_tick
val_to_tick-val_from_tick tick h = omega arith

-- The difference of process times and themselves has twice their user time, where that is below 2
-- ^ 63.
pub sub_times_self :
    (a : Times) → a.tms_utime < 2 ^ 63 → (sub_times a a).tms_utime ≡ 2 * a.tms_utime
unfolding sub_times add_times
sub_times_self a h = ground arith
