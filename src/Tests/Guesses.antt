-- ===== src/Tests/Guesses.antt =====
-- A guess at a password, five seconds after a startup.
use swtrust.Base.{◌+◌, ◌*◌, ◌/◌, ◌≤◌, ◌≡◌, refl, true, false, arith}
use swtrust.Constants.Cc
use swtrust.Constants.Handles
use swtrust.Error.{ok}
use swtrust.Sessions.Slots
use swtrust.Lockout
use swtrust.Lockout.{
  LockoutState, on_startup, on_time, record_failure, check_lockout, uses_auth_value,
}
use swtrust.Lockout.Guesses.{Epoch, started, waited, guessed, guesses_bounded}

abbrev later : LockoutState
later = on_time 5000 (on_startup Lockout.default)

let_through : check_lockout later Slots.new false Cc.unseal Handles.rh_rs_pw true ≡ ok tt
unfolding check_lockout Lockout.locked_out Lockout.protection_off on_time on_startup Lockout.default
let_through = refl

password_used : uses_auth_value Slots.new Handles.rh_rs_pw ≡ true
unfolding uses_auth_value
password_used = refl

one_guess : Epoch Lockout.default (record_failure 5000 true later) 5000 1
one_guess =
    guessed Slots.new false Cc.unseal Handles.rh_rs_pw (waited 5000 started (omega arith))
      let_through password_used refl

guesses_bounded_example : 1 + 0 ≤ 32 + 5000 / (1000 * 1000)
unfolding Lockout.default
guesses_bounded_example =
    guesses_bounded Lockout.default (record_failure 5000 true later) 5000 1 (omega arith)
      (omega arith) (omega arith) (omega arith) (omega arith) one_guess
