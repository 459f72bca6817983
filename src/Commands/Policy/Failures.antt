-- ===== src/Commands/Policy/Failures.antt =====
-- Every policy command against the sessions that it does not name, and where it fails.
-- src/tpm/commands/policy.rs.
use swtrust.Base.{ℕ, ◌≡◌, refl, arith}
use swtrust.Error.{TpmRc, TpmResult, ok, err}
use swtrust.Crypto.Hash.{Crypto}
use swtrust.Pcr.Banks.{PcrBanks}
use swtrust.Sessions.Session.{Session}
use swtrust.Sessions.Slots.{SessionSlots, get}
use swtrust.Commands.Request.{Request, handle}
use swtrust.Commands.Policy.Steps.{is_some}
use swtrust.Commands.Policy.Frame.{at_handle}
use swtrust.Commands.Policy.Handlers
use swtrust.Commands.Policy.Handlers.{current_pcr, restarted, restart_at}
use swtrust.Commands.Table.{lookup}
use swtrust.Commands.Policy.Plans
use swtrust.Commands.Policy.Plans.{Assertion, asserted}
use swtrust.Commands.Policy.Selected.{
  PolicyCommand, run, restart, or_branches, pcr, locality, command_code, physical_presence, cp_hash,
  name_hash, duplication_select, auth_value, password, get_digest, nv_written, template, parameters,
}
use swtrust.Commands.Policy.Answers.{
  AllSupported, asserted-IsAtomic, current_pcr-IsAtomic, bare-atomic, reading-atomic, answers,
}

restart-atomic :
    (c : Crypto) (request : Request) (slots : SessionSlots) (k : ℕ) (e : TpmRc)
    → (Handlers.policy_restart c request slots).0 ≡ err e
    → get (Handlers.policy_restart c request slots).1 k ≡ get slots k
unfolding Handlers.policy_restart
restart-atomic c request slots k e bad = decide (handle request 0) bad
  where
    left :
        (h : ℕ) (r : TpmResult Session)
        → (restarted c slots h r).0 ≡ err e
        → get (restarted c slots h r).1 k ≡ get slots k
    left h (err e) bad = refl
    left h (ok s) bad = ground (arith, answers)

    decide :
        (r : TpmResult ℕ)
        → (restart_at c r slots).0 ≡ err e
        → get (restart_at c r slots).1 k ≡ get slots k
    decide (err e) bad = refl
    decide (ok h) bad = left h (at_handle 1 (get slots h)) bad

-- Each of the fifteen policy commands that are modelled leaves every session as it was where it fails
-- and each session has an algorithm that is implemented.
pub failed_command :
    (c : Crypto) (banks : PcrBanks) (command : PolicyCommand) (request : Request)
    (slots : SessionSlots) (e : TpmRc) (k : ℕ)
    → AllSupported c slots
    → (run c banks command request slots).0 ≡ err e
    → get (run c banks command request slots).1 k ≡ get slots k
unfolding run asserted Handlers.policy_or Handlers.policy_pcr Handlers.policy_locality
    Handlers.policy_command_code Handlers.policy_physical_presence Handlers.policy_cp_hash
    Handlers.policy_name_hash Handlers.policy_duplication_select Handlers.policy_auth_value
    Handlers.policy_password Handlers.policy_get_digest Handlers.policy_nv_written
    Handlers.policy_template Handlers.policy_parameters
failed_command c banks restart request slots e k all bad = restart-atomic c request slots k e bad
failed_command c banks or_branches request slots e k all bad =
    reading-atomic c request slots k _ _ e (λ ds. asserted-IsAtomic c (Plans.branches ds)) all bad
failed_command c banks pcr request slots e k all bad =
    reading-atomic c request slots k _ (current_pcr c banks) e (current_pcr-IsAtomic c banks) all
      bad
failed_command c banks locality request slots e k all bad =
    reading-atomic c request slots k _ _ e (λ l. asserted-IsAtomic c (Plans.locality l)) all bad
failed_command c banks command_code request slots e k all bad =
    reading-atomic c request slots k _ _ e
      (λ code. asserted-IsAtomic c (Plans.command_code (is_some (lookup code)) code)) all bad
failed_command c banks physical_presence request slots e k all bad =
    bare-atomic c request slots k _ e (asserted-IsAtomic c Plans.physical_presence) all bad
failed_command c banks cp_hash request slots e k all bad =
    reading-atomic c request slots k _ _ e (λ h. asserted-IsAtomic c (Plans.cp_hash h)) all bad
failed_command c banks name_hash request slots e k all bad =
    reading-atomic c request slots k _ _ e (λ h. asserted-IsAtomic c (Plans.name_hash h)) all bad
failed_command c banks duplication_select request slots e k all bad =
    reading-atomic c request slots k _ _ e
      (λ names. asserted-IsAtomic c (Plans.duplication_select names.0 names.1 names.2)) all bad
failed_command c banks auth_value request slots e k all bad =
    bare-atomic c request slots k _ e (asserted-IsAtomic c Plans.auth_value) all bad
failed_command c banks password request slots e k all bad =
    bare-atomic c request slots k _ e (asserted-IsAtomic c Plans.password) all bad
failed_command c banks get_digest request slots e k all bad = refl
failed_command c banks nv_written request slots e k all bad =
    reading-atomic c request slots k _ _ e (λ w. asserted-IsAtomic c (Plans.nv_written w)) all bad
failed_command c banks template request slots e k all bad =
    reading-atomic c request slots k _ _ e (λ h. asserted-IsAtomic c (Plans.template h)) all bad
failed_command c banks parameters request slots e k all bad =
    reading-atomic c request slots k _ _ e (λ h. asserted-IsAtomic c (Plans.parameters h)) all bad
