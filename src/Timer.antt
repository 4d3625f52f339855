-- ===== src/Timer.antt =====
-- kernel/src/timer.rs: spans of time as seconds and nanoseconds, or seconds and microseconds, and the
-- processor times of a process. The clock's frequency is that of the board_qemu build.
pub mod Spans
mod Tests
use oskernel2023_main_os.Common.{
  add64, if◌then◌else◌, leb, ltb, mul64, ◌%◌, ◌&&◌, ◌-◌, ◌/◌, ◌==◌, ◌||◌,
}
use oskernel2023_main_os.Common.{Bool, ℕ}

abbrev pub nsec_per_sec : ℕ
nsec_per_sec = 1000000000

abbrev pub usec_per_sec : ℕ
usec_per_sec = 1000000

-- `CLOCK_FREQ` of boards/qemu.rs
abbrev pub clock_freq : ℕ
clock_freq = 12500000

pub record TimeSpec : Type 0 where
  pub tv_sec : ℕ
  pub tv_nsec : ℕ

abbrev pub zero_spec : TimeSpec
zero_spec = record { tv_sec = 0; tv_nsec = 0 }

-- `Add::add`
unfoldable pub add_spec : TimeSpec → TimeSpec → TimeSpec
add_spec a b =
    let nsec = add64 a.tv_nsec b.tv_nsec in
    record {
      tv_sec = add64 (add64 a.tv_sec b.tv_sec) (nsec / nsec_per_sec);
      tv_nsec = nsec % nsec_per_sec;
    }

-- `AddAssign::add_assign`
unfoldable pub add_assign_spec : TimeSpec → TimeSpec → TimeSpec
add_assign_spec a b = record {
  tv_sec = add64 a.tv_sec b.tv_sec;
  tv_nsec = add64 a.tv_nsec b.tv_nsec;
}

unfoldable pub from_ns : ℕ → TimeSpec
from_ns ns = record { tv_sec = ns / nsec_per_sec; tv_nsec = ns % nsec_per_sec }

unfoldable pub to_ns : TimeSpec → ℕ
to_ns t = add64 (mul64 t.tv_sec nsec_per_sec) t.tv_nsec

-- `Sub::sub`
unfoldable pub sub_spec : TimeSpec → TimeSpec → TimeSpec
unfolding to_ns from_ns
sub_spec a b = if leb (to_ns a) (to_ns b) then zero_spec else from_ns (to_ns a - to_ns b)

-- `Ord::cmp`, as `a < b` and `a == b`
unfoldable pub spec_less : TimeSpec → TimeSpec → Bool
spec_less a b = ltb a.tv_sec b.tv_sec || a.tv_sec == b.tv_sec && ltb a.tv_nsec b.tv_nsec

unfoldable pub spec_from_tick : ℕ → TimeSpec
spec_from_tick tick = record {
  tv_sec = tick / clock_freq;
  tv_nsec = mul64 (tick % clock_freq) nsec_per_sec / clock_freq;
}

unfoldable pub spec_from_ms : ℕ → TimeSpec
spec_from_ms ms = record { tv_sec = ms / 1000; tv_nsec = mul64 (ms % 1000) 1000000 }

unfoldable pub spec_from_us : ℕ → TimeSpec
spec_from_us us = record { tv_sec = us / usec_per_sec; tv_nsec = mul64 (us % usec_per_sec) 1000 }

pub record TimeVal : Type 0 where
  pub tv_sec : ℕ
  pub tv_usec : ℕ

abbrev pub zero_val : TimeVal
zero_val = record { tv_sec = 0; tv_usec = 0 }

unfoldable pub add_val : TimeVal → TimeVal → TimeVal
add_val a b =
    let usec = add64 a.tv_usec b.tv_usec in
    record {
      tv_sec = add64 (add64 a.tv_sec b.tv_sec) (usec / usec_per_sec);
      tv_usec = usec % usec_per_sec;
    }

unfoldable pub from_us : ℕ → TimeVal
from_us us = record { tv_sec = us / usec_per_sec; tv_usec = us % usec_per_sec }

unfoldable pub to_us : TimeVal → ℕ
to_us t = add64 (mul64 t.tv_sec usec_per_sec) t.tv_usec

unfoldable pub sub_val : TimeVal → TimeVal → TimeVal
unfolding to_us from_us
sub_val a b = if leb (to_us a) (to_us b) then zero_val else from_us (to_us a - to_us b)

unfoldable pub val_from_tick : ℕ → TimeVal
val_from_tick tick = record {
  tv_sec = tick / clock_freq;
  tv_usec = mul64 (tick % clock_freq) usec_per_sec / clock_freq;
}

unfoldable pub val_to_tick : TimeVal → ℕ
val_to_tick t = add64 (mul64 t.tv_sec clock_freq) (mul64 t.tv_usec clock_freq / usec_per_sec)

pub record Times : Type 0 where
  pub tms_utime : ℕ
  pub tms_stime : ℕ
  pub tms_cutime : ℕ
  pub tms_cstime : ℕ

abbrev pub zero_times : Times
zero_times = record { tms_utime = 0; tms_stime = 0; tms_cutime = 0; tms_cstime = 0 }

unfoldable pub add_times : Times → Times → Times
add_times a b = record {
  tms_utime = add64 a.tms_utime b.tms_utime;
  tms_stime = add64 a.tms_stime b.tms_stime;
  tms_cutime = add64 a.tms_cutime b.tms_cutime;
  tms_cstime = add64 a.tms_cstime b.tms_cstime;
}

abbrev pub below_times : Times → Times → Bool
below_times a b =
    ltb a.tms_utime b.tms_utime
    || (ltb a.tms_stime b.tms_stime
        || (ltb a.tms_cutime b.tms_cutime || ltb a.tms_cstime b.tms_cstime))

unfoldable pub sub_times : Times → Times → Times
unfolding add_times
sub_times a b = if below_times a b then zero_times else add_times a b

-- The remaining constructors and tests of the three types
unfoldable pub spec_from_s : ℕ → TimeSpec
spec_from_s s = record { tv_sec = s; tv_nsec = 0 }

unfoldable pub spec_is_zero : TimeSpec → Bool
spec_is_zero t = t.tv_sec == 0 && t.tv_nsec == 0

unfoldable pub val_from_s : ℕ → TimeVal
val_from_s s = record { tv_sec = s; tv_usec = 0 }

unfoldable pub val_from_ms : ℕ → TimeVal
val_from_ms ms = record { tv_sec = ms / 1000; tv_usec = mul64 (ms % 1000) 1000 }

unfoldable pub val_is_zero : TimeVal → Bool
val_is_zero t = t.tv_sec == 0 && t.tv_usec == 0

-- `Ord::cmp`, as `a < b`
unfoldable pub val_less : TimeVal → TimeVal → Bool
val_less a b = ltb a.tv_sec b.tv_sec || a.tv_sec == b.tv_sec && ltb a.tv_usec b.tv_usec

unfoldable pub create_times : ℕ → ℕ → ℕ → ℕ → Times
create_times u s cu cs = record { tms_utime = u; tms_stime = s; tms_cutime = cu; tms_cstime = cs }

pub record ITimerVal : Type 0 where
  pub it_interval : TimeVal
  pub it_value : TimeVal

unfoldable pub new_itimer : ITimerVal
new_itimer = record { it_interval = zero_val; it_value = zero_val }

unfoldable pub itimer_is_zero : ITimerVal → Bool
unfolding val_is_zero
itimer_is_zero t = val_is_zero t.it_interval && val_is_zero t.it_value

-- The current time in each unit, from the counter `time`
unfoldable pub time_sec : ℕ → ℕ
time_sec time = time / clock_freq

unfoldable pub time_ms : ℕ → ℕ
time_ms time = time / (clock_freq / 1000)

unfoldable pub time_us : ℕ → ℕ
time_us time = time / (clock_freq / usec_per_sec)

unfoldable pub time_ns : ℕ → ℕ
time_ns time = mul64 time nsec_per_sec / clock_freq
