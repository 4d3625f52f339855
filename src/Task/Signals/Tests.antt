-- ===== src/Task/Signals/Tests.antt =====
-- Signals 9, 11 and 64, and the theorems there.
use oskernel2023_main_os.Common.{arith, none, ok, refl, some, ◌^◌, ◌≡◌}
use oskernel2023_main_os.Timer.{zero_spec}
use oskernel2023_main_os.Task.Signals.{
  SigInfo, SignalAction, check_error, default_actions, kill, sigaction, sigtimedwait_round,
  wait_returns,
}
use oskernel2023_main_os.Task.Signals.Masks.{
  Acts, Finds, pending_after, sigaction-Acts, sigtimedwait_round-kill,
}

abbrev handler : SignalAction
handler = record { sa_handler = 4096; sa_flags = 0; sa_restorer = 0; mask = 3 }

abbrev blank_info : SigInfo
blank_info = record { si_signo = 0; si_errno = 0; si_code = 0 }

fatal : (check_error (2 ^ 10) ≡ some 11) × (check_error (2 ^ 9) ≡ none)
unfolding check_error
fatal = (refl, refl)

-- Signal 0 passes as signal 64.
zeroth : kill (some 0) 0 ≡ (ok 0, some (2 ^ 63))
unfolding kill
zeroth = refl

-- The signal number is reported one too low.
reports :
    sigtimedwait_round (2 ^ 9) (2 ^ 9) zero_spec zero_spec (some blank_info)
    ≡ wait_returns (ok 0) (some (record { si_signo = 9; si_errno = 0; si_code = 0 }))
unfolding sigtimedwait_round
reports = refl

sigaction-Acts_example :
    Acts 11 handler default_actions (sigaction 11 (some handler) (some handler) default_actions)
unfolding default_actions
sigaction-Acts_example = sigaction-Acts 11 handler handler default_actions refl

sigtimedwait_round-kill_example : Finds (2 ^ 9) (pending_after 0 (kill (some 0) 10)) (
    sigtimedwait_round
      (2 ^ 9)
      (pending_after 0 (kill (some 0) 10))
      zero_spec
      zero_spec
      (some blank_info))
sigtimedwait_round-kill_example =
    sigtimedwait_round-kill (2 ^ 9) 0 10 zero_spec zero_spec blank_info (omega arith) (omega arith)
      (omega arith) refl
