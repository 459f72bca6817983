-- ===== src/Commands/Policy/Frame.antt =====
-- How a handler of src/tpm/commands/policy.rs reaches the session that a command names, and what it
-- answers.
use swtrust.Base.{ℕ, not, if◌then◌else◌}
use swtrust.Constants.Rc
use swtrust.Error.{TpmResult, ok, err, ◌>>=◌, with_handle}
use swtrust.Marshal.Read.{Read}
use swtrust.Sessions.Session.{Session, is_policy}
use swtrust.Sessions.Slots.{SessionSlots, get, put}
use swtrust.Commands.Request.{Request, Response, handle, read_parameters, respond_empty}
use swtrust.Commands.Policy.Steps.{Step}

-- A handler that changes nothing but the sessions.
abbrev pub Handler : Type 0
Handler = SessionSlots → TpmResult Response × SessionSlots

abbrev pub at_handle {ℓ} : {A : Type ℓ} → ℕ → TpmResult A → TpmResult A
at_handle index (ok x) = ok x
at_handle index (err e) = err (with_handle e index)

unfoldable pub policy_session : SessionSlots → ℕ → TpmResult Session
policy_session slots h = do
  s ← at_handle 1 (get slots h)
  if not (is_policy s) then err (with_handle Rc.mode 1) else ok s

-- The session that a step leaves is the one in its slot, also where the step fails.
abbrev pub answered :
    SessionSlots → ℕ → TpmResult (Unit {0}) × Session → TpmResult Response × SessionSlots
answered slots h (ok _, s) = (respond_empty, put slots h s)
answered slots h (err e, s) = (err e, put slots h s)

abbrev pub on_session :
    SessionSlots → ℕ → TpmResult Session → Step (Unit {0}) → TpmResult Response × SessionSlots
on_session slots h (err e) step = (err e, slots)
on_session slots h (ok s) step = answered slots h (step s)

abbrev pub on_handle : TpmResult ℕ → Step (Unit {0}) → Handler
on_handle (err e) step slots = (err e, slots)
on_handle (ok h) step slots = on_session slots h (policy_session slots h) step

abbrev pub on_parameters {ℓ} :
    {A : Type ℓ} → TpmResult ℕ → TpmResult A → (A → Step (Unit {0})) → Handler
on_parameters (err e) parameters step slots = (err e, slots)
on_parameters (ok h) (err e) step slots = (err e, slots)
on_parameters (ok h) (ok x) step slots = on_handle (ok h) (step x) slots

-- A handler that reads no parameter, and one that reads some.
abbrev pub bare : Request → Step (Unit {0}) → Handler
bare request step = on_handle (handle request 0) step

abbrev pub reading {ℓ} : {A : Type ℓ} → Request → Read A → (A → Step (Unit {0})) → Handler
reading request m step = on_parameters (handle request 0) (read_parameters request m) step
