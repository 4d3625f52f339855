-- ===== src/Timer/Tests.antt =====
-- The theorems on spans of time at small ones.
use oskernel2023_main_os.Common.{false, ltb, true, ◌*◌, ◌+◌, ◌-◌, ◌<◌, ◌≡◌}
use oskernel2023_main_os.Common.{arith, refl}
use oskernel2023_main_os.Timer.{
  add_assign_spec, add_spec, clock_freq, itimer_is_zero, new_itimer, nsec_per_sec, spec_from_s,
  spec_is_zero, spec_less, sub_spec, time_ms, time_ns, time_sec, time_us, to_ns, val_from_ms,
  val_from_s, val_is_zero, val_less,
}
use oskernel2023_main_os.Timer.{TimeSpec, Times}
use oskernel2023_main_os.Timer.Spans.{to_ns-arithmetic}

abbrev short : TimeSpec
short = record { tv_sec = 1; tv_nsec = 999999999 }

abbrev long : TimeSpec
long = record { tv_sec = 3; tv_nsec = 2 }

carries : add_spec long short ≡ record { tv_sec = 5; tv_nsec = 1 }
unfolding add_spec
carries = refl

-- `+=` does not carry.
carries_not : add_assign_spec long short ≡ record { tv_sec = 4; tv_nsec = 1000000001 }
unfolding add_assign_spec
carries_not = refl

borrows : sub_spec long short ≡ record { tv_sec = 1; tv_nsec = 3 }
unfolding sub_spec
borrows = refl

to_ns-arithmetic_example :
    (to_ns (add_spec long short) ≡ to_ns long + to_ns short)
    × ((add_spec long short).tv_nsec < nsec_per_sec)
    × (to_ns (sub_spec long short) ≡ to_ns long - to_ns short)
    × ((sub_spec long short).tv_nsec < nsec_per_sec)
    × (spec_less long short ≡ ltb (to_ns long) (to_ns short))
to_ns-arithmetic_example =
    to_ns-arithmetic long short (omega arith, omega arith) (omega arith, omega arith)

abbrev spent : Times
spent = record { tms_utime = 5; tms_stime = 1; tms_cutime = 0; tms_cstime = 0 }

-- The microsecond clock divides by 12 and not by 12.5: after a second it is 41666 microseconds ahead.
ahead : (time_us clock_freq ≡ 1041666) × (time_ms clock_freq ≡ 1000) × (time_sec clock_freq ≡ 1)
unfolding time_us time_ms time_sec
ahead = (refl, refl, refl)

-- The product of `get_time_ns` wraps after less than 25 minutes.
wraps : time_ns (clock_freq * 1476) ≡ 260474103
unfolding time_ns
wraps = refl

small_constructors :
    (spec_is_zero (spec_from_s 0) ≡ true)
    × (val_is_zero (val_from_ms 1) ≡ false)
    × (itimer_is_zero new_itimer ≡ true)
    × (val_less (val_from_s 1) (val_from_ms 1001) ≡ true)
unfolding spec_is_zero spec_from_s val_is_zero val_from_ms itimer_is_zero new_itimer val_less
    val_from_s
small_constructors = (refl, refl, refl, refl)
