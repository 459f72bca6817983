-- ===== src/Lockout/Guesses.antt =====
-- How many guesses the protection against dictionary attacks lets through between two startups.
use swtrust.Base.{
  ℕ, suc, ◌+◌, ◌*◌, ◌/◌, ◌^◌, ◌≤◌, ◌<◌, ◌≡◌, ◌⊎◌, inl, inr, sym, ap, subst, Bool, true, false, ◌==◌,
  arith,
}
use native.Mathlib.Nat.{add-mul, zero-mul, le-div_iff_mul-le}
use swtrust.Constants.Cc
use swtrust.Error.{ok}
use swtrust.Sessions.Slots.{SessionSlots}
use swtrust.Lockout.{
  check_lockout, uses_auth_value, LockoutState, recover, on_time, on_startup, protection_off,
  locked_out, record_failure, record_lockout_failure,
}
use swtrust.Lockout.Recovery.{Recovers, recover-Recovers}

-- What happens between two startups while no command changes the parameters or clears the failures, with
-- the state, the time since the first startup and the number of guesses: time passes, an authorization
-- of a protected entity fails that uses an authValue and that the check for lockout lets through, or one
-- with lockoutAuth fails.
pub data Epoch (l₀ : LockoutState) : LockoutState → ℕ → ℕ → Type 0 where
  started : Epoch l₀ (on_startup l₀) 0 0
  waited :
      {l : LockoutState} {t g : ℕ} (u : ℕ) → Epoch l₀ l t g → t ≤ u → Epoch l₀ (on_time u l) u g
  guessed :
      {l : LockoutState} {t g : ℕ} (slots : SessionSlots) (names_lockout : Bool) (code session : ℕ)
      → Epoch l₀ l t g
      → check_lockout l slots names_lockout code session true ≡ ok tt
      → uses_auth_value slots session ≡ true
      → (code == Cc.dictionary_attack_lock_reset) ≡ false
      → Epoch l₀ (record_failure t true l) t (suc g)
  lockout_failed :
      {l : LockoutState} {t g : ℕ} → Epoch l₀ l t g → Epoch l₀ (record_lockout_failure t l) t g

-- The tries that time has taken off so far, and what they took.
record Accounts (l₀ l : LockoutState) (t g : ℕ) : Type 0 where
  forgiven : ℕ
  same_max : l.max_tries ≡ l₀.max_tries
  same_time : l.recovery_time ≡ l₀.recovery_time
  counted : g + l₀.failed_tries ≡ l.failed_tries + forgiven
  bounded : l.failed_tries ≤ l₀.max_tries
  paid : forgiven * (l₀.recovery_time * 1000) ≤ t
  due :
      (l.failed_tries ≡ 0)
      ⊎ (forgiven * (l₀.recovery_time * 1000) + l₀.recovery_time * 1000 ≤ l.next_recovery)

startup-Accounts :
    (l₀ : LockoutState) → l₀.failed_tries ≤ l₀.max_tries → Accounts l₀ (on_startup l₀) 0 0
unfolding on_startup
startup-Accounts l₀ few = record {
  forgiven = 0;
  same_max = ground arith;
  same_time = ground arith;
  counted = ground arith;
  bounded = ground arith;
  paid = ground (arith, zero-mul (l₀.recovery_time * 1000));
  due = ground (arith, zero-mul (l₀.recovery_time * 1000));
}

failure-Accounts :
    (l₀ l : LockoutState) (t g : ℕ)
    → 0 < l₀.recovery_time
    → l₀.max_tries < 2 ^ 32
    → l₀.recovery_time < 2 ^ 32
    → t < 2 ^ 63
    → locked_out l ≡ false
    → Accounts l₀ l t g
    → Accounts l₀ (record_failure t true l) t (suc g)
unfolding record_failure locked_out protection_off
failure-Accounts l₀ l t g on small short early free a = record {
  forgiven = a.forgiven;
  same_max = ground (arith, a.same_max);
  same_time = ground (arith, a.same_time);
  counted = ground (arith, a.counted, a.same_time, a.same_max);
  bounded = ground (arith, a.same_max, a.same_time);
  paid = a.paid;
  due = inr (ground (arith, a.paid, a.same_time));
}

-- The fields that `on_time` decides, where the protection is on.
record Passed (l l' : LockoutState) (left : ℕ × ℕ) : Type 0 where
  tries : l'.failed_tries ≡ left.0
  next : (left.0 ≡ 0) ⊎ (l'.next_recovery ≡ left.1)
  max : l'.max_tries ≡ l.max_tries
  time : l'.recovery_time ≡ l.recovery_time

on_time-Passed :
    (l : LockoutState) (u : ℕ)
    → 0 < l.recovery_time
    → Passed l (on_time u l) (recover (l.recovery_time * 1000) u l.failed_tries l.next_recovery)
unfolding on_time protection_off
on_time-Passed l u on = record {
  tries = ground arith;
  next = ground arith;
  max = ground arith;
  time = ground arith;
}

wait-Accounts :
    (l₀ l l' : LockoutState) (t u g : ℕ) (left : ℕ × ℕ)
    → t ≤ u
    → Passed l l' left
    → Recovers (l₀.recovery_time * 1000) u l.failed_tries l.next_recovery left
    → Accounts l₀ l t g
    → Accounts l₀ l' u g
wait-Accounts l₀ l l' t u g left later p r a = record {
  forgiven = a.forgiven + r.dropped;
  same_max = ground (arith, a.same_max, p.max);
  same_time = ground (arith, a.same_time, p.time);
  counted = omega (arith, a.counted, r.counted, p.tries);
  bounded = omega (arith, a.bounded, r.counted, p.tries);
  paid = paid_on r.reached;
  due = due_on p.next;
}
  where
    each :
        (a.forgiven + r.dropped) * (l₀.recovery_time * 1000)
        ≡ a.forgiven * (l₀.recovery_time * 1000) + r.dropped * (l₀.recovery_time * 1000)
    each = add-mul a.forgiven r.dropped (l₀.recovery_time * 1000)

    none_dropped : r.dropped ≡ 0 → (a.forgiven + r.dropped) * (l₀.recovery_time * 1000) ≤ u
    none_dropped none = omega (
      arith,
      a.paid,
      later,
      each,
      zero-mul (l₀.recovery_time * 1000),
      ap (λ (d : ℕ). d * (l₀.recovery_time * 1000)) none,
    )

    on_due :
        left.1 ≤ u + l₀.recovery_time * 1000
        → (l.failed_tries ≡ 0)
          ⊎ (a.forgiven * (l₀.recovery_time * 1000) + l₀.recovery_time * 1000 ≤ l.next_recovery)
        → (a.forgiven + r.dropped) * (l₀.recovery_time * 1000) ≤ u
    on_due h (inl none) = none_dropped (omega (arith, none, r.counted))
    on_due h (inr there) = omega (arith, h, there, each, r.moved)

    paid_on :
        (r.dropped ≡ 0) ⊎ (left.1 ≤ u + l₀.recovery_time * 1000)
        → (a.forgiven + r.dropped) * (l₀.recovery_time * 1000) ≤ u
    paid_on (inl none) = none_dropped none
    paid_on (inr h) = on_due h a.due

    due_on :
        (left.0 ≡ 0) ⊎ (l'.next_recovery ≡ left.1)
        → (l'.failed_tries ≡ 0)
          ⊎ ((a.forgiven + r.dropped) * (l₀.recovery_time * 1000) + l₀.recovery_time * 1000
              ≤ l'.next_recovery)
    due_on (inl none) = inl (omega (arith, none, p.tries))
    due_on (inr h) = ground (arith, h, a.due, r.moved, each, p.tries, r.counted)

let_in :
    (l : LockoutState) (slots : SessionSlots) (names_lockout : Bool) (code session : ℕ)
    → check_lockout l slots names_lockout code session true ≡ ok tt
    → uses_auth_value slots session ≡ true
    → (code == Cc.dictionary_attack_lock_reset) ≡ false
    → locked_out l ≡ false
unfolding check_lockout
let_in l slots names_lockout code session passes uses other = ground arith

lockout-Accounts :
    (l₀ l : LockoutState) (t g : ℕ)
    → Accounts l₀ l t g
    → Accounts l₀ (record_lockout_failure t l) t g
unfolding record_lockout_failure
lockout-Accounts l₀ l t g a = record {
  forgiven = a.forgiven;
  same_max = a.same_max;
  same_time = a.same_time;
  counted = a.counted;
  bounded = a.bounded;
  paid = a.paid;
  due = a.due;
}

module _ (l₀ : LockoutState) (on : 0 < l₀.recovery_time) (short : l₀.recovery_time < 2 ^ 32)
    (small : l₀.max_tries < 2 ^ 32) (few : l₀.failed_tries ≤ l₀.max_tries) where
  accounts : {l : LockoutState} {t g : ℕ} → t < 2 ^ 63 → Epoch l₀ l t g → Accounts l₀ l t g
  accounts early started = startup-Accounts l₀ few
  accounts early (waited {l} {t} {g} u e le) =
      let a = accounts (omega (arith, early, le)) e in
      let same : recover (l₀.recovery_time * 1000) u l.failed_tries l.next_recovery
          ≡ recover (l.recovery_time * 1000) u l.failed_tries l.next_recovery =
        ap (λ (r : ℕ). recover (r * 1000) u l.failed_tries l.next_recovery) (sym a.same_time) in
      wait-Accounts l₀ l (on_time u l) t u g
        (recover (l.recovery_time * 1000) u l.failed_tries l.next_recovery) le
        (on_time-Passed l u (omega (arith, on, a.same_time)))
        (subst (Recovers (l₀.recovery_time * 1000) u l.failed_tries l.next_recovery) same (
          recover-Recovers (l₀.recovery_time * 1000) u l.failed_tries l.next_recovery
            (omega (arith, early, short))))
        a
  accounts early (guessed {l} {t} {g} slots names_lockout code session e let_through uses other) =
      failure-Accounts l₀ l t g on small short early
        (let_in l slots names_lockout code session let_through uses other) (accounts early e)
  accounts early (lockout_failed {l} {t} {g} e) = lockout-Accounts l₀ l t g (accounts early e)

-- The number of guesses between two startups is bounded by the tries that the TPM allows and those that
-- time gives back: at time `t`, the failed authorizations of protected entities that the check for
-- lockout let through with an authValue, by commands other than TPM2_DictionaryAttackLockReset, with the
-- failures recorded when the TPM started, are at most `max_tries` and one for each full recovery time.
-- It holds while no command changes the parameters or clears the failures, where the protection is on,
-- the parameters have 32 bits, no more failures than `max_tries` are recorded at the start, and the
-- time is below 2 ^ 63 milliseconds.
pub guesses_bounded :
    (l₀ l : LockoutState) (t g : ℕ)
    → 0 < l₀.recovery_time
    → l₀.recovery_time < 2 ^ 32
    → l₀.max_tries < 2 ^ 32
    → l₀.failed_tries ≤ l₀.max_tries
    → t < 2 ^ 63
    → Epoch l₀ l t g
    → g + l₀.failed_tries ≤ l₀.max_tries + t / (l₀.recovery_time * 1000)
guesses_bounded l₀ l t g on short small few early e =
    let a = accounts l₀ on short small few early e in
    let (to, from) =
      le-div_iff_mul-le {k = l₀.recovery_time * 1000} {x = a.forgiven} {y = t}
        (omega (arith, on)) in
    omega (arith, a.counted, a.bounded, from a.paid)
