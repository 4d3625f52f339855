-- ===== src/Task/Signals/Masks.antt =====
-- The system calls on signals, signal by signal.
use Prim.Native.Nat.{max}
use native.Mathlib.Nat.{pow-suc}
use oskernel2023_main_os.Common.{
  Bool, Bool-cases, List, Option, Result, [], ap, arith, bit, bit-bit_and, bit-bit_or, bit-power,
  bit-power_ne, bit-without, bit-zero, bit_and, bit_and_le, bit_lt, bit_or, eperm, err, false,
  get_elem?, get_elem?-set_ne, get_elem?-set_self, get_or, if◌then◌else◌, inl, inr, length, ltb,
  min, none, not, ok, refl, some, sub64, suc, sym, true, zero, ℕ, ◌%◌, ◌-◌, ◌/◌, ◌<◌, ◌==◌, ◌^◌,
  ◌||◌, ◌∙◌, ◌∷◌, ◌≡◌, ◌≢◌, ◌≤◌, ◌⊎◌,
}
use oskernel2023_main_os.Timer.{TimeSpec}
use oskernel2023_main_os.Task.Signals.{
  ActionResult, MaskResult, SigInfo, SignalAction, WaitRound, changed_mask, check_sigaction_error,
  default_action, default_mask, flag_of, kill, max_sig, new_sig_info, sigaction, sigprocmask,
  sigtimedwait_round, trailing_zeros, wait_again, wait_returns,
}

-- What `how` means for each signal of the mask, `mask` before and `mask'` after, and what is returned
abbrev pub Changes : ℕ → ℕ → ℕ → MaskResult → Type 0
Changes how sigs mask r =
    ((how ≡ 0)
      × (r.returned ≡ ok 0)
      × ((s : ℕ) → bit s r.signal_mask ≡ max (bit s mask) (bit s sigs)))
    ⊎ ((how ≡ 1) × (r.returned ≡ ok 0) × ((s : ℕ) → bit s r.signal_mask ≡ bit s mask - bit s sigs))
    ⊎ ((how ≡ 2) × (r.returned ≡ ok 0) × ((s : ℕ) → bit s r.signal_mask ≡ bit s sigs))
    ⊎ ((2 < how) × (r.returned ≡ err eperm) × (r.signal_mask ≡ mask))

-- `sigprocmask` with a set blocks its signals, unblocks them or makes them the mask, as `how` says, and
-- with another `how` answers EPERM and keeps the mask; in each case the old mask is given out.
pub sigprocmask-Changes :
    (how sigs mask old : ℕ)
    → Changes how sigs mask (sigprocmask how (some sigs) (some old) mask)
      × ((sigprocmask how (some sigs) (some old) mask).old_set ≡ some mask)
unfolding sigprocmask changed_mask
sigprocmask-Changes how sigs mask old = elim (Bool-cases (how == 0)) [
  | inl block ↦
      rw (sigprocmask, block)
        (inl (ground (arith, block), refl, (λ s. bit-bit_or s mask sigs)), refl)
  | inr b ↦ elim (Bool-cases (how == 1)) [
    | inl unblock ↦
        rw (sigprocmask, b, unblock)
          (inr (inl (ground (arith, unblock), refl, (λ s. bit-without s mask sigs))), refl)
    | inr u ↦ elim (Bool-cases (how == 2)) [
      | inl all ↦
          rw (sigprocmask, b, u, all)
            (inr (inr (inl (ground (arith, all), refl, (λ s. refl)))), refl)
      | inr other ↦
          rw (sigprocmask, b, u, other)
            (inr (inr (inr (ground (arith, b, u, other), refl, refl))), refl)
    ]
  ]
]

power_eq : (j k : ℕ) → (2 ^ j == 2 ^ k) ≡ true → j ≡ k
power_eq j k h = elim (Bool-cases (j == k)) [
  | inl e ↦ ground (arith, e)
  | inr ne ↦
      let same : 2 ^ k ≡ 2 ^ j = ground (arith, h) in
      let one : bit j (2 ^ k) ≡ 1 = ap (bit j) same ∙ bit-power j in
      let zero_bit = bit-power_ne j k (λ e. ground (arith, ne, e)) in
      absurd (omega (arith, one, zero_bit))
]

power_test : (j k : ℕ) → (2 ^ j == 2 ^ k) ≡ (j == k)
power_test j k = elim (Bool-cases (2 ^ j == 2 ^ k)) [
  | inl e ↦ let same = power_eq j k e in ground (arith, e, same)
  | inr ne ↦ elim (Bool-cases (j == k)) [
    | inl e ↦
        let same : j ≡ k = ground (arith, e) in
        let powers : 2 ^ j ≡ 2 ^ k = ap (λ n. 2 ^ n) same in absurd (ground (arith, ne, powers))
    | inr e ↦ ne ∙ sym e
  ]
]

-- Signals whose action cannot be set
abbrev pub is_fixed : ℕ → Bool
is_fixed signum = signum == 9 || signum == 19

flag_of-fixed :
    (signum : ℕ) → signum ≤ max_sig → check_sigaction_error (flag_of signum) ≡ is_fixed signum
unfolding check_sigaction_error flag_of
flag_of-fixed signum h =
    let place = sub64 signum 1 % 64 in
    let kills = power_test place 8 in
    let stops = power_test place 18 in
    let k : (place == 8) ≡ (signum == 9) = ground arith in
    let s : (place == 18) ≡ (signum == 19) = ground arith in rw (kills, stops, k, s) refl

get_or-some :
    (table : List SignalAction) (i : ℕ) (d : SignalAction)
    → i < length table
    → get_elem? table i ≡ some (get_or table i d)
get_or-some [] i d h = absurd (omega arith)
get_or-some (x ∷ xs) zero d h = refl
get_or-some (x ∷ xs) (suc i) d h = get_or-some xs i d (omega arith)

-- The table and the old action after a call
abbrev pub Acts : ℕ → SignalAction → List SignalAction → ActionResult → Type 0
Acts signum a table r =
    if ltb max_sig signum || is_fixed signum
    then (r.returned ≡ err eperm) × (r.table ≡ table)
    else (r.returned ≡ ok 0)
      × (get_elem? r.table signum ≡ some a)
      × ((s : ℕ) → signum ≢ s → get_elem? r.table s ≡ get_elem? table s)
      × (r.old_action ≡ get_elem? table signum)

-- `sigaction` on a table of 64 actions with a new action and a place for the old one: for a signal up to
-- 63 other than SIGKILL and SIGSTOP it returns 0, sets the action of this signal and of no other, and
-- gives out its old action; for any other number it answers EPERM and keeps the table.
pub sigaction-Acts :
    (signum : ℕ) (a old : SignalAction) (table : List SignalAction)
    → length table ≡ 64
    → Acts signum a table (sigaction signum (some a) (some old) table)
unfolding sigaction
sigaction-Acts signum a old table h = elim (Bool-cases (ltb max_sig signum)) [
  | inl large ↦ rw (sigaction, large) (refl, refl)
  | inr small ↦
      let e = flag_of-fixed signum (ground (arith, small)) in
      elim (Bool-cases (is_fixed signum)) [
        | inl fixed ↦ rw (sigaction, small, e, fixed) (refl, refl)
        | inr free ↦
            rw (sigaction, small, e, free)
              (
                refl,
                get_elem?-set_self table signum a (ground (arith, small, h)),
                (λ s ne. get_elem?-set_ne table a ne),
                either (not ((get_or table signum default_action).mask == default_mask))
                    ∙ sym (get_or-some table signum default_action (ground (arith, small, h))),
              )
      ]
]
  where
    either :
        (b : Bool)
        → (if b
            then some (get_or table signum default_action)
            else some (get_or table signum default_action))
          ≡ some (get_or table signum default_action)
    either true = refl
    either false = refl

trailing_zeros_lem :
    (n w : ℕ)
    → w ≢ 0
    → w < 2 ^ n
    → (trailing_zeros n w < n)
      × (bit (trailing_zeros n w) w ≡ 1)
      × ((j : ℕ) → j < trailing_zeros n w → bit j w ≡ 0)
unfolding trailing_zeros
trailing_zeros_lem zero w ne h = absurd (ne (omega arith))
trailing_zeros_lem (suc n) w ne h = elim (Bool-cases (w % 2 == 0)) [
  | inl even ↦
      let (low, one, below) =
        trailing_zeros_lem n (w / 2) (λ e. ne (ground (arith, e, even)))
          (omega (arith, h, pow-suc 2 n)) in
      rw even (omega arith, one, lower (trailing_zeros n (w / 2)) (ground (arith, even)) below)
  | inr odd ↦ rw odd (omega arith, ground (arith, odd), (λ j k. absurd (omega (arith, k))))
]
  where
    lower :
        (t : ℕ)
        → w % 2 ≡ 0
        → ((j : ℕ) → j < t → bit j (w / 2) ≡ 0)
        → (j : ℕ) → j < suc t
        → bit j w ≡ 0
    lower t even below zero k = even
    lower t even below (suc j) k = below j (omega arith)

-- What a round of the wait finds: the lowest of the signals that are waited for and pending
abbrev pub Finds : ℕ → ℕ → WaitRound → Type 0
Finds sigs pending wait_again = false ≡ true
Finds sigs pending (wait_returns r none) = false ≡ true
Finds sigs pending (wait_returns r (some info)) =
    (r ≡ ok 0)
    × (bit info.si_signo sigs ≡ 1)
    × (bit info.si_signo pending ≡ 1)
    × ((j : ℕ) → j < info.si_signo → min (bit j sigs) (bit j pending) ≡ 0)

round-Finds :
    (sigs pending : ℕ) (limit_time now : TimeSpec) (old : SigInfo)
    → sigs < 2 ^ 64
    → bit_and sigs pending ≢ 0
    → Finds sigs pending (sigtimedwait_round sigs pending limit_time now (some old))
unfolding sigtimedwait_round new_sig_info
round-Finds sigs pending limit_time now old h ne =
    let some_match : (bit_and sigs pending == 0) ≡ false = ground (arith, ne) in
    let less = bit_and_le sigs pending in
    let (low, one, below) = trailing_zeros_lem 64 (bit_and sigs pending) ne (omega (arith, less)) in
    let small : trailing_zeros 64 (bit_and sigs pending) % 2 ^ 32
        ≡ trailing_zeros 64 (bit_and sigs pending) =
      omega (arith, low) in
    let both = bit-bit_and (trailing_zeros 64 (bit_and sigs pending)) sigs pending in
    let b = bit_lt (trailing_zeros 64 (bit_and sigs pending)) sigs in
    let c = bit_lt (trailing_zeros 64 (bit_and sigs pending)) pending in
    rw (sigtimedwait_round, some_match, small)
      (
        refl,
        omega (arith, both, one, b, c),
        omega (arith, both, one, b, c),
        (λ j k. sym (bit-bit_and j sigs pending) ∙ below j k),
      )

-- The signals that are pending after a `kill`
abbrev pub pending_after : ℕ → Result ℕ × Option ℕ → ℕ
pending_after pending (r, none) = pending
pending_after pending (r, some pending') = pending'

-- After a `kill` with a signal from 1 to 64 of the set that a task waits for, the next round of its
-- `sigtimedwait` returns 0, whatever the time, and reports in `info`, counted from 0, the lowest
-- signal that is both in the set and pending.
pub sigtimedwait_round-kill :
    (sigs pending signum : ℕ) (limit_time now : TimeSpec) (old : SigInfo)
    → sigs < 2 ^ 64
    → 0 < signum
    → signum ≤ 64
    → bit (signum - 1) sigs ≡ 1
    → Finds sigs (pending_after pending (kill (some pending) signum)) (
        sigtimedwait_round sigs
          (pending_after pending (kill (some pending) signum))
          limit_time
          now
          (some old))
unfolding kill flag_of
sigtimedwait_round-kill sigs pending signum limit_time now old h low high k =
    let place : sub64 signum 1 % 64 ≡ signum - 1 = omega arith in
    let flagged = bit_or pending (2 ^ (sub64 signum 1 % 64)) in
    let one : bit (signum - 1) (2 ^ (sub64 signum 1 % 64)) ≡ 1 =
      ap (λ n. bit (signum - 1) (2 ^ n)) place ∙ bit-power (signum - 1) in
    let now_pending = bit-bit_or (signum - 1) pending (2 ^ (sub64 signum 1 % 64)) in
    let both = bit-bit_and (signum - 1) sigs flagged in
    round-Finds sigs flagged limit_time now old h (λ e.
      let none_left : bit (signum - 1) (bit_and sigs flagged) ≡ 0 =
        ap (bit (signum - 1)) e ∙ bit-zero (signum - 1) in
      absurd (omega (arith, none_left, both, now_pending, one, k)))
