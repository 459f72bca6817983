-- ===== src/Act/Signals.antt =====
-- The table of TPM2_ACT_SetTimeout, and what starts and stops a signal. src/tpm/core/act.rs.
use swtrust.Base.{ℕ, ◌≡◌, false, List, [], ◌∷◌, ◌==◌, if◌then◌else◌, arith, All, not, ◌&&◌, ◌||◌}
use swtrust.Act.{Act, advance, on_reset, on_resume, on_shutdown_state, set_timeout, clear_signaled}

-- Part 3 clause 33.2.1, in every state: the signal is set afterwards exactly when the timer was
-- asked to stop and was running or had signaled; the timer counts what was asked for, but where a
-- stopped timer that has signaled is asked to clear; and `preserve_signaled` is clear.
pub set_timeout_table :
    (start : ℕ) (a : Act)
    → ((set_timeout start a).signaled ≡ (start == 0 && (not (a.timeout == 0) || a.signaled)))
      × ((set_timeout start a).timeout
          ≡ (if start == clear_signaled && (a.timeout == 0) && a.signaled then 0 else start))
      × ((set_timeout start a).preserve_signaled ≡ false)
unfolding set_timeout
set_timeout_table start a = ground arith

-- What happens to a timer.
pub data Event : Type 0 where
  passes : ℕ → Event
  sets : ℕ → Event
  resets resumes shuts_down : Event

abbrev pub step : Act → Event → Act
step a (passes m) = advance m a
step a (sets start) = set_timeout start a
step a resets = on_reset a
step a resumes = on_resume a
step a shuts_down = on_shutdown_state a

abbrev pub run : Act → List Event → Act
run a [] = a
run a (e ∷ es) = run (step a e) es

-- An event that starts no countdown.
abbrev pub StartsNothing : Event → Type 0
StartsNothing (sets start) = start ≡ 0
StartsNothing _ = Unit {0}

step_idle :
    (a : Act) (e : Event)
    → StartsNothing e
    → a.timeout ≡ 0
    → a.signaled ≡ false
    → ((step a e).timeout ≡ 0) × ((step a e).signaled ≡ false)
unfolding advance set_timeout on_reset on_resume on_shutdown_state
step_idle a (passes m) h t s = ground arith
step_idle a (sets start) h t s = ground arith
step_idle a resets h t s = ground arith
step_idle a resumes h t s = ground arith
step_idle a shuts_down h t s = ground arith

-- A timer that is stopped and clear stays so through every history in which no countdown is
-- started: no signal comes from time, stops, resets, resumes and shutdowns alone.
pub run_idle :
    (a : Act) (es : List Event)
    → All StartsNothing es
    → a.timeout ≡ 0
    → a.signaled ≡ false
    → ((run a es).timeout ≡ 0) × ((run a es).signaled ≡ false)
run_idle a [] h t s = (t, s)
run_idle a (e ∷ es) h t s = let (t', s') = step_idle a e h.0 t s in run_idle (step a e) es h.1 t' s'
