-- ===== src/Commands/Policy/Scope.antt =====
-- The policy commands of Selected against the sessions that its command does not name.
-- src/tpm/commands/policy.rs.
use swtrust.Base.{ℕ, ◌≡◌, ◌≢◌, refl, arith}
use swtrust.Error.{TpmResult, ok, err}
use swtrust.Crypto.Hash.{Crypto}
use swtrust.Pcr.Banks.{PcrBanks}
use swtrust.Sessions.Session.{Session, restart_policy}
use swtrust.Sessions.Slots.{SessionSlots, get, put}
use swtrust.Commands.Request.{Request, handle}
use swtrust.Commands.Policy.Steps.{Step}
use swtrust.Commands.Policy.Frame.{
  policy_session, at_handle, on_session, answered, on_handle, on_parameters,
}
use swtrust.Commands.Policy.Handlers
use swtrust.Commands.Policy.Handlers.{current_pcr, restarted, put_restarted, restart_at}
use swtrust.Commands.Policy.Selected.{
  PolicyCommand, run, restart, or_branches, pcr, locality, command_code, physical_presence, cp_hash,
  name_hash, duplication_select, auth_value, password, get_digest, nv_written, template, parameters,
}
use swtrust.Commands.Policy.Answers.{get-put}

put-others :
    (slots : SessionSlots) (h k : ℕ) (s : Session)
    → ok h ≢ ok k
    → get (put slots h s) k ≡ get slots k
put-others slots h k s other = ground (arith, get-put slots h k s)

module _ (slots : SessionSlots) (k : ℕ) where
  on_session-others :
      (h : ℕ) (r : TpmResult Session) (step : Step (Unit {0}))
      → ok h ≢ ok k
      → get (on_session slots h r step).1 k ≡ get slots k
  on_session-others h (err e) step other = refl
  on_session-others h (ok s) step other = left (step s)
    where
      left : (r : TpmResult (Unit {0}) × Session) → get (answered slots h r).1 k ≡ get slots k
      left (ok _, s') = put-others slots h k s' other
      left (err e, s') = put-others slots h k s' other

  on_handle-others :
      (r : TpmResult ℕ) (step : Step (Unit {0}))
      → r ≢ ok k
      → get (on_handle r step slots).1 k ≡ get slots k
  on_handle-others (err e) step other = refl
  on_handle-others (ok h) step other = on_session-others h (policy_session slots h) step other

  on_parameters-others {ℓ} :
      {A : Type ℓ} (r : TpmResult ℕ) (x : TpmResult A) (step : A → Step (Unit {0}))
      → r ≢ ok k
      → get (on_parameters r x step slots).1 k ≡ get slots k
  on_parameters-others (err e) x step other = refl
  on_parameters-others (ok h) (err e) step other = refl
  on_parameters-others (ok h) (ok x) step other = on_handle-others (ok h) (step x) other

  restart-others :
      (c : Crypto) (r : TpmResult ℕ) → r ≢ ok k → get (restart_at c r slots).1 k ≡ get slots k
  restart-others c (err e) other = refl
  restart-others c (ok h) other = left (at_handle 1 (get slots h))
    where
      left : (r : TpmResult Session) → get (restarted c slots h r).1 k ≡ get slots k
      left (err e) = refl
      left (ok s) = decide (restart_policy c s)
        where
          decide : (r : TpmResult Session) → get (put_restarted slots h r).1 k ≡ get slots k
          decide (err e) = refl
          decide (ok s') = put-others slots h k s' other

-- Each of the fifteen commands PolicyRestart, PolicyOR, PolicyPCR, PolicyLocality, PolicyCommandCode,
-- PolicyPhysicalPresence, PolicyCpHash, PolicyNameHash, PolicyDuplicationSelect, PolicyAuthValue,
-- PolicyPassword, PolicyGetDigest, PolicyNvWritten, PolicyTemplate and PolicyParameters changes no
-- session but the one that its first handle names, whether it succeeds or fails.
pub only_named :
    (c : Crypto) (banks : PcrBanks) (command : PolicyCommand) (request : Request)
    (slots : SessionSlots) (k : ℕ)
    → handle request 0 ≢ ok k
    → get (run c banks command request slots).1 k ≡ get slots k
unfolding run Handlers.policy_restart Handlers.policy_or Handlers.policy_pcr
    Handlers.policy_locality Handlers.policy_command_code Handlers.policy_physical_presence
    Handlers.policy_cp_hash Handlers.policy_name_hash Handlers.policy_duplication_select
    Handlers.policy_auth_value Handlers.policy_password Handlers.policy_get_digest
    Handlers.policy_nv_written Handlers.policy_template Handlers.policy_parameters
only_named c banks restart request slots k other = restart-others slots k c (handle request 0) other
only_named c banks or_branches request slots k other =
    on_parameters-others slots k (handle request 0) _ _ other
only_named c banks pcr request slots k other =
    on_parameters-others slots k (handle request 0) _ _ other
only_named c banks locality request slots k other =
    on_parameters-others slots k (handle request 0) _ _ other
only_named c banks command_code request slots k other =
    on_parameters-others slots k (handle request 0) _ _ other
only_named c banks physical_presence request slots k other =
    on_handle-others slots k (handle request 0) _ other
only_named c banks cp_hash request slots k other =
    on_parameters-others slots k (handle request 0) _ _ other
only_named c banks name_hash request slots k other =
    on_parameters-others slots k (handle request 0) _ _ other
only_named c banks duplication_select request slots k other =
    on_parameters-others slots k (handle request 0) _ _ other
only_named c banks auth_value request slots k other =
    on_handle-others slots k (handle request 0) _ other
only_named c banks password request slots k other =
    on_handle-others slots k (handle request 0) _ other
only_named c banks get_digest request slots k other = refl
only_named c banks nv_written request slots k other =
    on_parameters-others slots k (handle request 0) _ _ other
only_named c banks template request slots k other =
    on_parameters-others slots k (handle request 0) _ _ other
only_named c banks parameters request slots k other =
    on_parameters-others slots k (handle request 0) _ _ other
