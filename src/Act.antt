-- ===== src/Act.antt =====
-- The Authenticated Countdown Timer, src/tpm/core/act.rs. Numbers are `u32` and `u64`; the methods
-- of `&mut Act` return the timer that they leave.
pub mod Countdown
pub mod Signals
use swtrust.Base.{
  ℕ, zero, suc, ◌+◌, ◌-◌, ◌*◌, ◌/◌, ◌%◌, ◌^◌, ◌≡◌, Bool, true, false, not, ◌&&◌, ◌||◌, List, [],
  ◌∷◌, ◌==◌, ltb, leb, if◌then◌else◌, min,
}
use swtrust.Constants.Alg
use swtrust.Structures.Base.{TpmtHa, TpmtHa_null}

abbrev pub u32_max : ℕ
u32_max = 2 ^ 32 - 1

abbrev pub u64_max : ℕ
u64_max = 2 ^ 64 - 1

abbrev pub clear_signaled : ℕ
clear_signaled = u32_max

pub record Act : Type 0 where
  pub timeout : ℕ
  pub signaled : Bool
  pub preserve_signaled : Bool
  pub fraction : ℕ
  pub written : Bool
  pub policy : TpmtHa

unfoldable pub default : Act
default = record {
  timeout = 0;
  signaled = false;
  preserve_signaled = false;
  fraction = 0;
  written = false;
  policy = TpmtHa_null;
}

-- The end of `advance`, once `seconds` whole seconds have passed: `u32::try_from` or its maximum.
unfoldable pub count_down : ℕ → Act → Act
count_down seconds a =
    let passed = if leb seconds u32_max then seconds else u32_max in
    if leb a.timeout passed
    then record a { timeout = 0; signaled = true }
    else record a { timeout = a.timeout - passed }

-- `saturating_add` stops at the largest `u64`.
unfoldable pub advance : ℕ → Act → Act
unfolding count_down
advance millis a =
    let total = min (a.fraction + millis) u64_max in
    let ticked = record a { fraction = total % 1000 } in
    if a.timeout == 0
    then a
    else if total / 1000 == 0
    then ticked
    else count_down (total / 1000) ticked

-- The `match` on the pair of zero tests.
abbrev pub signal_of : Bool → Bool → Bool → Bool
signal_of stopped false signaled = false
signal_of true true signaled = signaled
signal_of false true signaled = true

unfoldable pub set_timeout : ℕ → Act → Act
set_timeout start a =
    let b = record a { written = true; fraction = 0 } in
    if start == clear_signaled && (a.timeout == 0) && a.signaled
    then record b { signaled = false; preserve_signaled = false }
    else record b {
      signaled = signal_of (a.timeout == 0) (start == 0) a.signaled;
      timeout = start;
      preserve_signaled = false;
    }

unfoldable pub on_reset : Act → Act
on_reset a = record {
  timeout = 0;
  signaled = false;
  preserve_signaled = false;
  fraction = 0;
  written = false;
  policy = TpmtHa_null;
}

unfoldable pub on_resume : Act → Act
on_resume a = record a { preserve_signaled = a.signaled; written = false; fraction = 0 }

unfoldable pub saved_timeout : Act → ℕ
saved_timeout a = if a.written then a.timeout else a.timeout / 2

unfoldable pub on_shutdown_state : Act → Act
unfolding saved_timeout
on_shutdown_state a = record a { timeout = saved_timeout a; written = false; fraction = 0 }

unfoldable pub restore : ℕ → Bool → Act → Act
restore timeout signaled a = record a {
  timeout = timeout;
  signaled = signaled;
  fraction = 0;
  written = false;
}

abbrev is_nil : List ℕ → Bool
is_nil [] = true
is_nil (x ∷ xs) = false

unfoldable pub has_no_policy : Act → Bool
has_no_policy a = (a.policy.hash_alg == Alg.null) || is_nil a.policy.digest
