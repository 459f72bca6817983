-- ===== src/Commands/Policy/Handlers.antt =====
-- The handlers of src/tpm/commands/policy.rs that change nothing but a policy session: what they read
-- from a command, the session that it names, and what they answer.
use swtrust.Base.{
  ℕ, ◌+◌, Bool, true, false, not, ◌&&◌, ◌||◌, none, some, List, ◌==◌, ltb, leb, length, take,
  if◌then◌else◌,
}
use swtrust.Constants.Config
use swtrust.Constants.Rc
use swtrust.Error.{TpmRc, TpmResult, ok, err, with_handle, with_parameter}
use swtrust.Error
use swtrust.Marshal.Bytes.{from_be_bytes}
use swtrust.Marshal.Read.{
  Read, ◌>>=◌, ◌>>◌, pure, refuse_if, read_u8, read_u32, unmarshal_items, unmarshal_list,
}
use swtrust.Marshal.Read
use swtrust.Marshal.Write.{to_bytes, marshal_list}
use swtrust.Structures.Base.{
  PcrSelection, pcr_selection_marshal, pcr_selection_unmarshal, tpm2b_marshal, tpm2b_unmarshal,
  digest_size,
}
use swtrust.Crypto.Hash.{Crypto}
use swtrust.Pcr.Banks.{PcrBanks}
use swtrust.Pcr.Selection.{filter_selection, selection_digest}
use swtrust.Sessions.Session.{Session, restart_policy}
use swtrust.Sessions.Slots.{SessionSlots, get, put}
use swtrust.Commands.Request.{Request, Response, handle, parameter, respond, respond_empty}
use swtrust.Commands.Table.{lookup}
use swtrust.Commands.Policy.Frame.{Handler, bare, reading, policy_session, at_handle}
use swtrust.Commands.Policy.Steps
use swtrust.Commands.Policy.Steps.{Step, is_some}
use swtrust.Commands.Policy.Assertions

-- A TPM2B_DIGEST and a TPM2B_NAME.
abbrev pub unmarshal_digest : Read (List ℕ)
unmarshal_digest = tpm2b_unmarshal Config.max_digest_size

abbrev pub unmarshal_name : Read (List ℕ)
unmarshal_name = tpm2b_unmarshal (2 + Config.max_digest_size)

-- `TpmlDigest::unmarshal`: two to eight digests.
unfoldable pub unmarshal_digests : Read (List (List ℕ))
unmarshal_digests = do
  count ← read_u32
  refuse_if (not (leb 2 count && leb count 8)) Rc.size
  unmarshal_items unmarshal_digest count

abbrev flag_of : ℕ → ℕ → Read Bool
flag_of index value =
    if value == 0
    then pure false
    else if value == 1
    then pure true
    else Read.fail (with_parameter Rc.value index)

unfoldable pub read_yes_no : ℕ → Read Bool
read_yes_no index = do value ← parameter index read_u8; flag_of index value

abbrev pub put_restarted : SessionSlots → ℕ → TpmResult Session → TpmResult Response × SessionSlots
put_restarted slots h (err e) = (err e, slots)
put_restarted slots h (ok s) = (respond_empty, put slots h s)

abbrev pub restarted :
    Crypto → SessionSlots → ℕ → TpmResult Session → TpmResult Response × SessionSlots
restarted c slots h (err e) = (err e, slots)
restarted c slots h (ok s) = put_restarted slots h (restart_policy c s)

abbrev pub restart_at : Crypto → TpmResult ℕ → Handler
restart_at c (err e) slots = (err e, slots)
restart_at c (ok h) slots = restarted c slots h (at_handle 1 (get slots h))

unfoldable pub policy_restart : Crypto → Request → Handler
policy_restart c request = restart_at c (handle request 0)

unfoldable pub policy_or : Crypto → Request → Handler
policy_or c request = reading request (parameter 1 unmarshal_digests) (Steps.policy_or c)

-- What TPM2_PolicyPCR asserts of the registers as they stand.
abbrev pub current_pcr : Crypto → PcrBanks → List ℕ × List PcrSelection → Step (Unit {0})
current_pcr c banks (expected, selection) s =
    let filtered = filter_selection banks selection in
    Steps.continue (selection_digest c s.auth_hash filtered banks, s)
      (λ digest.
        Steps.policy_pcr c expected (to_bytes (marshal_list pcr_selection_marshal selection))
          (to_bytes (marshal_list pcr_selection_marshal filtered)) digest banks.update_counter)

unfoldable pub policy_pcr : Crypto → PcrBanks → Request → Handler
policy_pcr c banks request =
    reading request
      (do
        expected ← parameter 1 unmarshal_digest
        selection ←
            parameter 2 (unmarshal_list (pcr_selection_unmarshal c.strict) Config.hash_count)
        pure (expected, selection))
      (current_pcr c banks)

unfoldable pub policy_locality : Crypto → Request → Handler
policy_locality c request = reading request (parameter 1 read_u8) (Steps.policy_locality c)

unfoldable pub policy_command_code : Crypto → Request → Handler
policy_command_code c request =
    reading request (parameter 1 read_u32)
      (λ code. Steps.policy_command_code c (is_some (lookup code)) code)

unfoldable pub policy_physical_presence : Crypto → Request → Handler
policy_physical_presence c request = bare request (Assertions.policy_physical_presence c)

unfoldable pub policy_cp_hash : Crypto → Request → Handler
policy_cp_hash c request =
    reading request (parameter 1 unmarshal_digest) (Assertions.policy_cp_hash c)

unfoldable pub policy_name_hash : Crypto → Request → Handler
policy_name_hash c request =
    reading request (parameter 1 unmarshal_digest) (Assertions.policy_name_hash c)

unfoldable pub policy_auth_value : Crypto → Request → Handler
policy_auth_value c request = bare request (Assertions.policy_auth_value c)

unfoldable pub policy_password : Crypto → Request → Handler
policy_password c request = bare request (Assertions.policy_password c)

unfoldable pub policy_nv_written : Crypto → Request → Handler
policy_nv_written c request = reading request (read_yes_no 1) (Assertions.policy_nv_written c)

unfoldable pub policy_template : Crypto → Request → Handler
policy_template c request =
    reading request (parameter 1 unmarshal_digest) (Assertions.policy_template c)

unfoldable pub policy_parameters : Crypto → Request → Handler
policy_parameters c request =
    reading request (parameter 1 unmarshal_digest) (Assertions.policy_parameters c)

-- `Tpm2bDigest::new` refuses a digest that is too long.
abbrev digest_answer : TpmResult Session → TpmResult Response
digest_answer (err e) = err e
digest_answer (ok s) =
    if ltb Config.max_digest_size (length s.policy.digest)
    then err Rc.size
    else respond (tpm2b_marshal s.policy.digest)

abbrev digest_at : TpmResult ℕ → SessionSlots → TpmResult Response
digest_at (err e) slots = err e
digest_at (ok h) slots = digest_answer (policy_session slots h)

unfoldable pub policy_get_digest : Request → Handler
policy_get_digest request slots = (digest_at (handle request 0) slots, slots)

-- `check_entity_name` and `check_key_name`
unfoldable pub check_key_name : Bool → List ℕ → TpmResult (Unit {0})
check_key_name strict name =
    if length name == 0
    then ok tt
    else if ltb (length name) 2
    then err Rc.size
    else elim (digest_size strict (from_be_bytes (take 2 name))) [
      | none ↦ err Rc.hash
      | some size ↦ Error.refuse_if (not (length name == 2 + size)) Rc.size
    ]

unfoldable pub check_entity_name : Bool → List ℕ → TpmResult (Unit {0})
check_entity_name strict name =
    if length name == 0 || length name == 4 then ok tt else check_key_name strict name

abbrev pub check_entity_name_at : Bool → List ℕ → ℕ → Read (Unit {0})
check_entity_name_at strict name index r = elim (check_entity_name strict name) [
  | ok _ ↦ (ok tt, r)
  | err e ↦ (err (with_parameter e index), r)
]

unfoldable pub policy_duplication_select : Crypto → Request → Handler
policy_duplication_select c request =
    reading request
      (do
        object_name ← parameter 1 unmarshal_name
        new_parent_name ← parameter 2 unmarshal_name
        check_entity_name_at c.strict object_name 1
        check_entity_name_at c.strict new_parent_name 2
        include_object ← read_yes_no 3
        pure (object_name, new_parent_name, include_object))
      (λ (object_name, new_parent_name, include_object).
        Assertions.policy_duplication_select c object_name new_parent_name include_object)
