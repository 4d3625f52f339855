-- ===== src/Task/Signals.antt =====
-- kernel/src/task/signal.rs, kernel/src/task/action.rs and kernel/src/syscall/signal.rs: sets of signals as
-- 64-bit words, of which every bit is a flag, and the system calls on them. A pointer is `none` where it
-- is null, and otherwise what memory holds there.
pub mod Masks
mod Tests
use oskernel2023_main_os.Common.{
  Bool, List, Option, Result, bit_and, bit_or, eagain, eperm, err, get_or, if◌then◌else◌, ltb, none,
  not, ok, replicate, set, some, sub64, suc, zero, ℕ, ◌%◌, ◌+◌, ◌-◌, ◌/◌, ◌==◌, ◌^◌, ◌||◌,
}
use oskernel2023_main_os.Timer.{TimeSpec, spec_less}

abbrev pub max_sig : ℕ
max_sig = 63

abbrev pub sig_kill : ℕ
sig_kill = 2 ^ 8

abbrev pub sig_stop : ℕ
sig_stop = 2 ^ 18

abbrev pub contains_flag : ℕ → ℕ → Bool
contains_flag flags flag = bit_and flags flag == flag

-- `check_error`: the number in the answer, which is negative there
unfoldable pub check_error : ℕ → Option ℕ
check_error flags =
    if contains_flag flags (2 ^ 1)
    then some 2
    else if contains_flag flags (2 ^ 3)
    then some 4
    else if contains_flag flags (2 ^ 5)
    then some 6
    else if contains_flag flags (2 ^ 7)
    then some 8
    else if contains_flag flags sig_kill
    then some 9
    else if contains_flag flags (2 ^ 10)
    then some 11
    else none

pub record SigInfo : Type 0 where
  pub si_signo : ℕ
  pub si_errno : ℕ
  pub si_code : ℕ

unfoldable pub new_sig_info : ℕ → ℕ → ℕ → SigInfo
new_sig_info signo errno code = record {
  si_signo = signo % 2 ^ 32;
  si_errno = errno % 2 ^ 32;
  si_code = code % 2 ^ 32;
}

pub record SignalAction : Type 0 where
  pub sa_handler : ℕ
  pub sa_flags : ℕ
  pub sa_restorer : ℕ
  pub mask : ℕ

abbrev pub default_mask : ℕ
default_mask = 40

unfoldable pub default_action : SignalAction
default_action = record { sa_handler = 0; sa_flags = 0; sa_restorer = 0; mask = default_mask }

-- `SignalActions::default`
unfoldable pub default_actions : List SignalAction
unfolding default_action
default_actions = replicate (max_sig + 1) default_action

-- `sys_sigprocmask`: what it returns, the mask, and what memory holds at `old_set`
pub record MaskResult : Type 0 where
  pub returned : Result ℕ
  pub signal_mask : ℕ
  pub old_set : Option ℕ

-- The mask that a `how` makes; `none` is any other number.
unfoldable pub changed_mask : ℕ → ℕ → ℕ → Option ℕ
changed_mask how sigs mask =
    if how == 0
    then some (bit_or mask sigs)
    else if how == 1
    then some (mask - bit_and mask sigs)
    else if how == 2
    then some sigs
    else none

unfoldable pub sigprocmask : ℕ → Option ℕ → Option ℕ → ℕ → MaskResult
unfolding changed_mask
sigprocmask how sigs old_set mask =
    let written = elim old_set as (λ x. Option ℕ) [ none ↦ none | some old ↦ some mask ] in
    elim sigs [
      | none ↦ record { returned = ok 0; signal_mask = mask; old_set = written }
      | some set_flags ↦ elim (changed_mask how set_flags mask) [
        | none ↦ record { returned = err eperm; signal_mask = mask; old_set = written }
        | some mask' ↦ record { returned = ok 0; signal_mask = mask'; old_set = written }
      ]
    ]

-- `1 << (signum - 1)`: a shift counts modulo 64.
unfoldable pub flag_of : ℕ → ℕ
flag_of signum = 2 ^ (sub64 signum 1 % 64)

unfoldable pub check_sigaction_error : ℕ → Bool
check_sigaction_error signal = signal == sig_kill || signal == sig_stop

-- `sys_sigaction`: what it returns, the table, and what memory holds at `old_action`. In the case of a
-- default mask the handler is written to a copy.
pub record ActionResult : Type 0 where
  pub returned : Result ℕ
  pub table : List SignalAction
  pub old_action : Option SignalAction

abbrev pub give_old : Option SignalAction → SignalAction → Option SignalAction
give_old none a = none
give_old (some old) a = some a

abbrev pub give_again : Option SignalAction → SignalAction → Option SignalAction
give_again none a = none
give_again (some old) a = if not (a.mask == default_mask) then some a else some old

abbrev pub install_action : ℕ → Option SignalAction → List SignalAction → List SignalAction
install_action signum none table = table
install_action signum (some a) table = set table signum a

unfoldable pub sigaction :
    ℕ → Option SignalAction → Option SignalAction → List SignalAction → ActionResult
unfolding flag_of check_sigaction_error default_action
sigaction signum action old_action table =
    if ltb max_sig signum
    then record { returned = err eperm; table = table; old_action = old_action }
    else let current = get_or table signum default_action in
      let old = give_old old_action current in
      if check_sigaction_error (flag_of signum)
      then record { returned = err eperm; table = table; old_action = old }
      else record {
        returned = ok 0;
        table = install_action signum action table;
        old_action = give_again old current;
      }

-- `sys_kill` of a process with these pending signals, or of none
unfoldable pub kill : Option ℕ → ℕ → Result ℕ × Option ℕ
unfolding flag_of
kill none signum = (err eperm, none)
kill (some pending) signum = (ok 0, some (bit_or pending (flag_of signum)))

-- `trailing_zeros` of a word of `n` bits
unfoldable pub trailing_zeros : ℕ → ℕ → ℕ
trailing_zeros zero bits = 0
trailing_zeros (suc n) bits =
    let above = trailing_zeros n (bits / 2) in if bits % 2 == 0 then suc above else 0

-- One round of the loop of `sys_sigtimedwait`: it goes on, or returns with what it writes to `info`.
pub data WaitRound : Type 0 where
  wait_again : WaitRound
  wait_returns : Result ℕ → Option SigInfo → WaitRound

unfoldable pub sigtimedwait_round : ℕ → ℕ → TimeSpec → TimeSpec → Option SigInfo → WaitRound
unfolding trailing_zeros new_sig_info spec_less
sigtimedwait_round set_flags signals_pending limit_time now info =
    let match_signals = bit_and set_flags signals_pending in
    if not (match_signals == 0)
    then wait_returns (ok 0) (elim info as (λ x. Option SigInfo) [
      | none ↦ none
      | some old ↦ some (new_sig_info (trailing_zeros 64 match_signals) 0 0)
    ])
    else if spec_less limit_time now
    then wait_returns (err eagain) info
    else wait_again
