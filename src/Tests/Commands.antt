-- ===== src/Tests/Commands.antt =====
-- Policy commands on a session.
use swtrust.Base.{◌≡◌, refl, [], ◌∷◌, arith}
use swtrust.Base.Maps
use swtrust.Marshal.Read
use swtrust.Commands.Request as Requests
use swtrust.Commands.Policy.Frame
use swtrust.Commands.Policy.Steps
use swtrust.Commands.Policy.Handlers
use swtrust.Constants.Rc
use swtrust.Error.{err, with_parameter}
use swtrust.Pcr.Banks.{PcrBanks}
use swtrust.Pcr.Banks
use swtrust.Sessions.Session.{is_policy, is_trial}
use swtrust.Sessions.Slots
use swtrust.Sessions.Slots.{SessionSlots, get, insert_session}
use swtrust.Commands.Request.{Request, handle}
use swtrust.Commands.Policy.Selected.{run, locality, password}
use swtrust.Commands.Policy.Answers.{AllSupported}
use swtrust.Commands.Policy.Failures.{failed_command}
use swtrust.Commands.Policy.Scope.{only_named}
use swtrust.Tests.Fixtures.{test_crypto, sha256-IsSupported}
use swtrust.Tests.Policies.{real}

abbrev slots : SessionSlots
slots = insert_session Slots.new real

-- TPM2_PolicyLocality with no locality.
abbrev no_locality : Request
no_locality = record { handles = 0x0200_0000 ∷ []; parameters = 0 ∷ [] }

slots-AllSupported : AllSupported test_crypto slots
unfolding get Maps.lookup Maps.insert Slots.new Slots.next_context_id
slots-AllSupported h s e = ground (arith, sha256-IsSupported)

refused :
    (run test_crypto Banks.default locality no_locality slots).0 ≡ err (with_parameter Rc.range 1)
unfolding run Handlers.policy_locality handle Requests.read_parameters Requests.parameter
    Read.read_u8 Read.expect_end Frame.policy_session get Maps.lookup Maps.insert
    Slots.next_context_id Slots.new is_policy is_trial Steps.policy_locality
refused = refl

failed_command_example :
    get (run test_crypto Banks.default locality no_locality slots).1 0x0200_0000
    ≡ get slots 0x0200_0000
failed_command_example =
    failed_command test_crypto Banks.default locality no_locality slots (with_parameter Rc.range 1)
      0x0200_0000 slots-AllSupported refused

only_named_example :
    get (run test_crypto Banks.default password no_locality slots).1 0x0200_0001
    ≡ get slots 0x0200_0001
unfolding handle
only_named_example =
    only_named test_crypto Banks.default password no_locality slots 0x0200_0001 (ground arith)
