-- ===== src/Lockout.antt =====
-- The protection against dictionary attacks: `LockoutState` of src/tpm/core/state.rs, what
-- src/tpm/commands/dispatch.rs counts, and the two commands of src/tpm/commands/hierarchy.rs.
use swtrust.Base.{
  ℕ, zero, suc, ◌+◌, ◌-◌, ◌*◌, ◌^◌, ◌<◌, min, Bool, true, false, not, ◌&&◌, ◌||◌, ◌==◌, ltb, leb,
  if◌then◌else◌,
}
use swtrust.Constants.Cc
use swtrust.Constants.Config
use swtrust.Constants.Handles
use swtrust.Constants.Rc
use swtrust.Error.{TpmResult, ok, err}
use swtrust.Marshal.Read.{Read, ◌>>=◌, pure, read_u8, read_u32, read_u64}
use swtrust.Marshal.Write.{Writer, write_u8, write_u32, write_u64}
use swtrust.Sessions.Policy.{flag_octet}
use swtrust.Sessions.Session.{Session, is_policy}
use swtrust.Sessions.Slots.{SessionSlots, get}
use swtrust.Commands.Request.{Request, Response, parameter, read_parameters, respond_empty}
pub mod Recovery
pub mod Guesses

-- The numbers of tries and seconds are `u32`, the times in milliseconds `u64`.
pub record LockoutState : Type 0 where
  pub failed_tries : ℕ
  pub max_tries : ℕ
  pub recovery_time : ℕ
  pub lockout_recovery : ℕ
  pub in_lockout : Bool
  pub next_recovery : ℕ
  pub lockout_until : ℕ

unfoldable pub locked_out : LockoutState → Bool
locked_out l = l.max_tries == 0 || leb l.max_tries l.failed_tries

unfoldable pub protection_off : LockoutState → Bool
protection_off l = l.recovery_time == 0

abbrev pub saturating : ℕ → ℕ
saturating t = min t (2 ^ 64 - 1)

-- The `while` loop of `on_time`: the tries that are left and the time of the next recovery.
unfoldable pub recover : ℕ → ℕ → ℕ → ℕ → ℕ × ℕ
recover interval time zero next = (0, next)
recover interval time (suc tries) next =
    let later = recover interval time tries (saturating (next + interval)) in
    if leb next time then later else (suc tries, next)

abbrev pub recovered : ℕ × ℕ → LockoutState → LockoutState
recovered (tries, next) l = record l {
  failed_tries = tries;
  next_recovery = if tries == 0 then 0 else next;
}

abbrev pub special_ended : ℕ → LockoutState → LockoutState
special_ended time l =
    if l.in_lockout && (not (l.lockout_until == 0) && leb l.lockout_until time)
    then record l { in_lockout = false; lockout_until = 0 }
    else l

unfoldable pub on_time : ℕ → LockoutState → LockoutState
unfolding recover
on_time time l =
    let interval = l.recovery_time * 1000 in
    special_ended time (
      if not (protection_off l) && ltb 0 interval
      then recovered (recover interval time l.failed_tries l.next_recovery) l
      else l)

unfoldable pub count_pending_failure : LockoutState → LockoutState
count_pending_failure l =
    if protection_off l
    then l
    else if ltb l.failed_tries l.max_tries
    then record l { failed_tries = l.failed_tries + 1 }
    else l

abbrev pub restarted : LockoutState → LockoutState
restarted l =
    if l.in_lockout
    then (if l.lockout_recovery == 0
        then record l { in_lockout = false; lockout_until = 0 }
        else record l { lockout_until = l.lockout_recovery * 1000 })
    else l

unfoldable pub on_startup : LockoutState → LockoutState
on_startup l =
    restarted
      (record l { next_recovery = if ltb 0 l.failed_tries then l.recovery_time * 1000 else 0 })

unfoldable pub default : LockoutState
default = record {
  failed_tries = 0;
  max_tries = Config.default_max_auth_fail;
  recovery_time = Config.default_lockout_interval;
  lockout_recovery = Config.default_lockout_recovery;
  in_lockout = false;
  next_recovery = 0;
  lockout_until = 0;
}

unfoldable pub marshal : LockoutState → Writer → Writer
marshal l w = write_u64 l.next_recovery (
    write_u8 (flag_octet l.in_lockout) (
      write_u32 l.lockout_recovery
        (write_u32 l.recovery_time (write_u32 l.max_tries (write_u32 l.failed_tries w)))))

-- A deadline of the special lockout is not in the record.
unfoldable pub unmarshal : Read LockoutState
unmarshal = do
  failed_tries ← read_u32
  max_tries ← read_u32
  recovery_time ← read_u32
  lockout_recovery ← read_u32
  in_lockout ← read_u8
  next_recovery ← read_u64
  pure (record {
    failed_tries = failed_tries;
    max_tries = max_tries;
    recovery_time = recovery_time;
    lockout_recovery = lockout_recovery;
    in_lockout = not (in_lockout == 0);
    next_recovery = next_recovery;
    lockout_until = 0;
  })

-- `record_failure` of a handler, at `clock.time`.
unfoldable pub record_failure : ℕ → Bool → LockoutState → LockoutState
record_failure time uses_lockout l =
    if not uses_lockout then l else if protection_off l then l else record l {
      failed_tries = min (l.failed_tries + 1) (2 ^ 32 - 1);
      next_recovery = saturating (time + l.recovery_time * 1000);
    }

unfoldable pub record_lockout_failure : ℕ → LockoutState → LockoutState
record_lockout_failure time l = record l {
  in_lockout = true;
  lockout_until =
      if l.lockout_recovery == 0 then 0 else saturating (time + l.lockout_recovery * 1000);
}

unfoldable pub clear_failures : LockoutState → LockoutState
clear_failures l = record l {
  failed_tries = 0;
  next_recovery = 0;
  in_lockout = false;
  lockout_until = 0;
}

unfoldable pub dictionary_attack_lock_reset : LockoutState → TpmResult Response × LockoutState
dictionary_attack_lock_reset l = (
  respond_empty,
  record l { failed_tries = 0; next_recovery = 0; in_lockout = false; lockout_until = 0 },
)

abbrev pub with_parameters :
    TpmResult (ℕ × ℕ × ℕ) → LockoutState → TpmResult Response × LockoutState
with_parameters (err e) l = (err e, l)
with_parameters (ok (max_tries, recovery_time, lockout_recovery)) l = (
  respond_empty,
  record l {
    max_tries = max_tries;
    recovery_time = recovery_time;
    lockout_recovery = lockout_recovery;
  },
)

unfoldable pub dictionary_attack_parameters :
    Request → LockoutState → TpmResult Response × LockoutState
dictionary_attack_parameters request = with_parameters (
    read_parameters request (do
      max_tries ← parameter 1 read_u32
      recovery_time ← parameter 2 read_u32
      lockout_recovery ← parameter 3 read_u32
      pure (max_tries, recovery_time, lockout_recovery)))

-- Whether an authorization uses an authValue; a session that is unknown is taken to.
abbrev pub session_uses : TpmResult Session → Bool
session_uses (err e) = true
session_uses (ok s) =
    s.bind_uses_lockout
    || not (is_policy s)
    || s.policy.auth_value_needed
    || s.policy.password_needed

unfoldable pub uses_auth_value : SessionSlots → ℕ → Bool
uses_auth_value slots session =
    if session == Handles.rh_rs_pw then true else session_uses (get slots session)

-- `names_lockout` is `request.handle(index).ok() == Some(rh::LOCKOUT)`, and `session` is the handle of
-- the authorization.
unfoldable pub check_lockout :
    LockoutState → SessionSlots → Bool → ℕ → ℕ → Bool → TpmResult (Unit {0})
unfolding locked_out uses_auth_value
check_lockout l slots names_lockout code session protected =
    if not ((if protected then locked_out l else false) || (l.in_lockout && names_lockout))
    then ok tt
    else if code == Cc.dictionary_attack_lock_reset
    then ok tt
    else if uses_auth_value slots session
    then err Rc.lockout
    else ok tt
