-- ===== src/Tests/Timer.antt =====
-- The Authenticated Countdown Timer.
use swtrust.Base.{◌-◌, ◌≡◌, true, false, ◌||◌, leb, if◌then◌else◌, ◌==◌, arith}
use swtrust.Structures.Base.{TpmtHa_null}
use swtrust.Act.{Act, advance}
use swtrust.Act.Countdown.{IsValid, left, advance_exact}

-- Ten seconds to go, less a quarter of one.
abbrev running : Act
running = record {
  timeout = 10;
  signaled = false;
  preserve_signaled = false;
  fraction = 250;
  written = true;
  policy = TpmtHa_null;
}

running-IsValid : IsValid running
running-IsValid = record { word = omega arith; part = omega arith }

advance_exact_example :
    (left (advance 9750 running) ≡ left running - 9750)
    × ((advance 9750 running).signaled ≡ (
        if running.timeout == 0
        then running.signaled
        else leb (left running) 9750 || running.signaled))
advance_exact_example = advance_exact 9750 running running-IsValid (omega arith)
