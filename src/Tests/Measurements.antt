-- ===== src/Tests/Measurements.antt =====
-- TPM2_PCR_Extend of a register that locality zero may not extend.
use swtrust.Base.{◌≡◌, refl, [], ◌∷◌}
use swtrust.Constants.Rc
use swtrust.Error.{err}
use swtrust.Commands.Request as Requests
use swtrust.Commands.Request.{Request}
use swtrust.Marshal.Read
use swtrust.Pcr.Update
use swtrust.Pcr.Profile
use swtrust.Commands.Registers.{pcr_extend, pcr_index}
use swtrust.Commands.Measured.{pcr_extend_atomic}
use swtrust.Tests.Fixtures.{test_crypto}
use swtrust.Tests.Registers.{banks, banks-IsValid}

abbrev request : Request
request = record { handles = 17 ∷ []; parameters = 0 ∷ 0 ∷ 0 ∷ 0 ∷ [] }

refused : (pcr_extend test_crypto 0 request banks).0 ≡ err Rc.locality
unfolding pcr_extend pcr_index Requests.handle Requests.read_parameters Requests.parameter
    Read.unmarshal_list Read.expect_end Update.extend Profile.is_implemented
    Profile.refuses_locality Profile.attributes
refused = refl

pcr_extend_atomic_example : (pcr_extend test_crypto 0 request banks).1 ≡ banks
pcr_extend_atomic_example =
    pcr_extend_atomic test_crypto 0 request banks Rc.locality banks-IsValid refused
