-- ===== src/Act/Countdown.antt =====
-- How time runs the timer down, and what a power cycle keeps of it. src/tpm/core/act.rs.
use swtrust.Base.{
  ℕ, zero, suc, ◌+◌, ◌-◌, ◌*◌, ◌/◌, ◌^◌, ◌≤◌, ◌<◌, ◌≡◌, Bool, false, ◌||◌, ◌==◌, leb, if◌then◌else◌,
  arith, refl,
}
use native.Mathlib.Nat.{pow-suc}
use swtrust.Act.{Act, advance, on_resume, on_shutdown_state, u32_max}

-- What the fields hold: a `u32`, and the milliseconds of a started second.
pub record IsValid (a : Act) : Type 0 where
  pub word : a.timeout ≤ u32_max
  pub part : a.fraction < 1000

pub advance-IsValid : (m : ℕ) (a : Act) → IsValid a → IsValid (advance m a)
unfolding advance
advance-IsValid m a v = ground arith

-- The milliseconds until the timer expires; none for a stopped one.
abbrev pub left : Act → ℕ
left a = a.timeout * 1000 - a.fraction

-- Time passes to the millisecond: what is left falls by what has passed and stops at zero, and the
-- timer signals exactly when it was running and what was left has passed.
pub advance_exact :
    (m : ℕ) (a : Act)
    → IsValid a
    → a.fraction + m < 2 ^ 64
    → (left (advance m a) ≡ left a - m)
      × ((advance m a).signaled
          ≡ (if a.timeout == 0 then a.signaled else leb (left a) m || a.signaled))
unfolding advance
advance_exact m a v fits = ground arith

-- It does not matter in how many steps the time passes: two give the same rest and signal as one.
pub advance-advance :
    (m n : ℕ) (a : Act)
    → IsValid a
    → a.fraction + m + n < 2 ^ 64
    → (left (advance n (advance m a)) ≡ left (advance (m + n) a))
      × ((advance n (advance m a)).signaled ≡ (advance (m + n) a).signaled)
unfolding advance
advance-advance m n a v fits = ground arith

half_le : (t p u : ℕ) → t * p ≤ u → t / 2 * (p * 2) ≤ u
half_le t p u h = grind arith

-- A power cycle with an orderly shutdown: TPM2_Shutdown(STATE), then TPM Resume.
abbrev pub power_cycle : Act → Act
power_cycle a = on_resume (on_shutdown_state a)

abbrev pub power_cycles : ℕ → Act → Act
power_cycles zero a = a
power_cycles (suc n) a = power_cycle (power_cycles n a)

record Halved (n : ℕ) (a b : Act) : Type 0 where
  rest : b.timeout * 2 ^ n ≤ a.timeout
  read : b.written ≡ false
  signal : b.signaled ≡ a.signaled

first_cycle : (a : Act) → Halved 0 a (power_cycle a)
unfolding on_shutdown_state on_resume
first_cycle a = ground arith

next_cycle : (n : ℕ) (a b : Act) → Halved n a b → Halved (suc n) a (power_cycle b)
unfolding on_shutdown_state on_resume
next_cycle n a b h = record {
  rest = half_fits b.timeout a.timeout n h.rest b.written h.read;
  read = refl;
  signal = h.signal;
}
  where
    half_fits :
        (t u n : ℕ)
        → t * 2 ^ n ≤ u
        → (w : Bool) → w ≡ false
        → (if w then t else t / 2) * 2 ^ suc n ≤ u
    half_fits t u n h w e = rw (e, pow-suc 2 n) (half_le t (2 ^ n) u h)

cycles : (n : ℕ) (a : Act) → Halved n a (power_cycles (suc n) a)
cycles zero a = first_cycle a
cycles (suc n) a = next_cycle n a (power_cycles (suc n) a) (cycles n a)

-- Power cycles alone do not extend the timer: after the first, which keeps a timeout that was set
-- since the last startup, each at least halves it, and none changes the signal.
pub power_cycles_halve :
    (n : ℕ) (a : Act)
    → ((power_cycles (suc n) a).timeout * 2 ^ n ≤ a.timeout)
      × ((power_cycles (suc n) a).signaled ≡ a.signaled)
power_cycles_halve n a = let h = cycles n a in (h.rest, h.signal)
