-- ===== src/Commands/Registers.antt =====
-- The handlers of src/tpm/commands/pcr.rs that extend, report and reset registers.
use swtrust.Base.{ℕ, Bool, List, [], ◌∷◌, ◌==◌, ltb, if◌then◌else◌, length}
use swtrust.Constants.Alg
use swtrust.Constants.Config
use swtrust.Constants.Handles
use swtrust.Constants.Rc
use swtrust.Error.{TpmRc, TpmResult, ok, err, ◌>>=◌, ◌>>◌, refuse_if, with_handle, with_parameter}
use swtrust.Marshal.Read.{Read, read_u16, read_u32, unmarshal_list}
use swtrust.Marshal.Read
use swtrust.Marshal.Write.{marshal_list}
use swtrust.Structures.Base.{
  TpmtHa, tpmt_ha_new, tpmt_ha_marshal, tpmt_ha_unmarshal, tpm2b_unmarshal,
}
use swtrust.Crypto.Hash.{Crypto}
use swtrust.Pcr.Banks.{PcrBanks, algorithms}
use swtrust.Pcr.Update
use swtrust.Pcr.Update.{event_digests}
use swtrust.Commands.Request.{
  Request, Response, handle, parameter, read_parameters, respond, respond_empty,
}
use swtrust.Commands.Policy.Frame.{at_handle}

-- The handles of the registers start at zero.
unfoldable pub pcr_index : ℕ → TpmResult ℕ
pcr_index handle = if ltb handle Config.implementation_pcr then ok handle else err Rc.value

-- The register that the first handle names.
abbrev pub first_index : Request → TpmResult ℕ
first_index request = do h ← handle request 0; at_handle 1 (pcr_index h)

-- The pairs of an algorithm and a digest, of which none may be null.
abbrev pub pairs : List TpmtHa → TpmResult (List (ℕ × List ℕ))
pairs [] = ok []
pairs (d ∷ ds) = do
  refuse_if (d.hash_alg == Alg.null) (with_parameter Rc.hash 1)
  others ← pairs ds
  ok ((d.hash_alg, d.digest) ∷ others)

-- What the parameters of TPM2_PCR_Extend hold.
abbrev pub extend_parameters : Crypto → Request → TpmResult (List (ℕ × List ℕ))
extend_parameters c request = do
  digests ←
      read_parameters request
        (parameter 1 (unmarshal_list (tpmt_ha_unmarshal c.strict) Config.hash_count))
  pairs digests

abbrev pub renamed_code : TpmRc → TpmRc
renamed_code e = if e == Rc.locality then e else with_parameter e 1

abbrev pub extend_answer : TpmResult (Unit {0}) × PcrBanks → TpmResult Response × PcrBanks
extend_answer (ok _, b) = (respond_empty, b)
extend_answer (err e, b) = (err (renamed_code e), b)

abbrev pub extend_with :
    Crypto
    → ℕ
    → TpmResult ℕ
    → TpmResult (List (ℕ × List ℕ))
    → PcrBanks
    → TpmResult Response × PcrBanks
extend_with c locality (err e) digests b = (err e, b)
extend_with c locality (ok index) (err e) b = (err e, b)
extend_with c locality (ok index) (ok digests) b =
    extend_answer (Update.extend c index locality digests b)

unfoldable pub pcr_extend : Crypto → ℕ → Request → PcrBanks → TpmResult Response × PcrBanks
pcr_extend c locality request b =
    extend_with c locality (first_index request) (extend_parameters c request) b

-- `TpmtHa::new` on each digest of a report, and the list of them in a response.
abbrev pub values_of : Bool → List (ℕ × List ℕ) → TpmResult (List TpmtHa)
values_of strict [] = ok []
values_of strict ((a, d) ∷ rest) = do
  h ← tpmt_ha_new strict a d
  hs ← values_of strict rest
  ok (h ∷ hs)

unfoldable pub respond_values : Bool → List (ℕ × List ℕ) → TpmResult Response
respond_values strict digests = do
  items ← values_of strict digests
  refuse_if (ltb Config.hash_count (length items)) Rc.size
  respond (marshal_list tpmt_ha_marshal items)

abbrev pub event_answer :
    Bool → TpmResult (List (ℕ × List ℕ)) × PcrBanks → TpmResult Response × PcrBanks
event_answer strict (err e, b) = (err e, b)
event_answer strict (ok digests, b) = (respond_values strict digests, b)

-- A null handle only hashes.
abbrev pub event_at :
    Crypto → ℕ → List ℕ → TpmResult ℕ → PcrBanks → TpmResult (List (ℕ × List ℕ)) × PcrBanks
event_at c locality octets (err e) b = (err e, b)
event_at c locality octets (ok index) b = Update.event c index locality octets b

abbrev pub event_with :
    Crypto → ℕ → TpmResult ℕ → TpmResult (List ℕ) → PcrBanks → TpmResult Response × PcrBanks
event_with c locality (err e) octets b = (err e, b)
event_with c locality (ok h) (err e) b = (err e, b)
event_with c locality (ok h) (ok octets) b = event_answer c.strict (
    if h == Handles.rh_null
    then (event_digests c octets (algorithms b), b)
    else event_at c locality octets (at_handle 1 (pcr_index h)) b)

unfoldable pub pcr_event : Crypto → ℕ → Request → PcrBanks → TpmResult Response × PcrBanks
pcr_event c locality request b =
    event_with c locality (handle request 0)
      (read_parameters request (parameter 1 (tpm2b_unmarshal 1024))) b

abbrev pub reset_answer : TpmResult (Unit {0}) × PcrBanks → TpmResult Response × PcrBanks
reset_answer (ok _, b) = (respond_empty, b)
reset_answer (err e, b) = (err e, b)

abbrev pub reset_with : Bool → ℕ → TpmResult ℕ → PcrBanks → TpmResult Response × PcrBanks
reset_with strict locality (err e) b = (err e, b)
reset_with strict locality (ok index) b = reset_answer (Update.reset strict index locality b)

unfoldable pub pcr_reset : Crypto → ℕ → Request → PcrBanks → TpmResult Response × PcrBanks
pcr_reset c locality request b = reset_with c.strict locality (first_index request) b

-- No register has an authorization value or a policy.
unfoldable pub pcr_set_auth_policy : Request → TpmResult Response
pcr_set_auth_policy request = do
  pcr_handle ← read_parameters request (
      Read.◌>>=◌ (parameter 1 (tpm2b_unmarshal Config.max_digest_size))
        (λ policy. Read.◌>>=◌ (parameter 2 read_u16) (λ hash_alg. parameter 3 read_u32)))
  err (with_parameter Rc.value 3)

unfoldable pub pcr_set_auth_value : Request → TpmResult Response
pcr_set_auth_value request = do
  auth ← read_parameters request (parameter 1 (tpm2b_unmarshal Config.max_digest_size))
  err (with_handle Rc.value 1)
