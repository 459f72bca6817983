-- ===== src/Constants/Cc/High.antt =====
-- The command codes, `mod cc` of src/tpm/constants.rs: the second half of the table.
use swtrust.Base.{ℕ}

abbrev pub encrypt_decrypt : ℕ
encrypt_decrypt = 0x164

abbrev pub flush_context : ℕ
flush_context = 0x165

abbrev pub load_external : ℕ
load_external = 0x167

abbrev pub make_credential : ℕ
make_credential = 0x168

abbrev pub nv_read_public : ℕ
nv_read_public = 0x169

abbrev pub policy_authorize : ℕ
policy_authorize = 0x16a

abbrev pub policy_auth_value : ℕ
policy_auth_value = 0x16b

abbrev pub policy_command_code : ℕ
policy_command_code = 0x16c

abbrev pub policy_counter_timer : ℕ
policy_counter_timer = 0x16d

abbrev pub policy_cp_hash : ℕ
policy_cp_hash = 0x16e

abbrev pub policy_locality : ℕ
policy_locality = 0x16f

abbrev pub policy_name_hash : ℕ
policy_name_hash = 0x170

abbrev pub policy_or : ℕ
policy_or = 0x171

abbrev pub policy_ticket : ℕ
policy_ticket = 0x172

abbrev pub read_public : ℕ
read_public = 0x173

abbrev pub rsa_encrypt : ℕ
rsa_encrypt = 0x174

abbrev pub start_auth_session : ℕ
start_auth_session = 0x176

abbrev pub verify_signature : ℕ
verify_signature = 0x177

abbrev pub ecc_parameters : ℕ
ecc_parameters = 0x178

abbrev pub get_capability : ℕ
get_capability = 0x17a

abbrev pub get_random : ℕ
get_random = 0x17b

abbrev pub get_test_result : ℕ
get_test_result = 0x17c

abbrev pub hash : ℕ
hash = 0x17d

abbrev pub pcr_read : ℕ
pcr_read = 0x17e

abbrev pub policy_pcr : ℕ
policy_pcr = 0x17f

abbrev pub policy_restart : ℕ
policy_restart = 0x180

abbrev pub read_clock : ℕ
read_clock = 0x181

abbrev pub pcr_extend : ℕ
pcr_extend = 0x182

abbrev pub pcr_set_auth_value : ℕ
pcr_set_auth_value = 0x183

abbrev pub nv_certify : ℕ
nv_certify = 0x184

abbrev pub event_sequence_complete : ℕ
event_sequence_complete = 0x185

abbrev pub hash_sequence_start : ℕ
hash_sequence_start = 0x186

abbrev pub policy_physical_presence : ℕ
policy_physical_presence = 0x187

abbrev pub policy_duplication_select : ℕ
policy_duplication_select = 0x188

abbrev pub policy_get_digest : ℕ
policy_get_digest = 0x189

abbrev pub test_parms : ℕ
test_parms = 0x18a

abbrev pub commit : ℕ
commit = 0x18b

abbrev pub policy_password : ℕ
policy_password = 0x18c

abbrev pub z_gen_2_phase : ℕ
z_gen_2_phase = 0x18d

abbrev pub ec_ephemeral : ℕ
ec_ephemeral = 0x18e

abbrev pub policy_nv_written : ℕ
policy_nv_written = 0x18f

abbrev pub policy_template : ℕ
policy_template = 0x190

abbrev pub create_loaded : ℕ
create_loaded = 0x191

abbrev pub policy_authorize_nv : ℕ
policy_authorize_nv = 0x192

abbrev pub encrypt_decrypt2 : ℕ
encrypt_decrypt2 = 0x193

abbrev pub ac_get_capability : ℕ
ac_get_capability = 0x194

abbrev pub ac_send : ℕ
ac_send = 0x195

abbrev pub policy_ac_send_select : ℕ
policy_ac_send_select = 0x196

abbrev pub act_set_timeout : ℕ
act_set_timeout = 0x198

abbrev pub ecc_encrypt : ℕ
ecc_encrypt = 0x199

abbrev pub ecc_decrypt : ℕ
ecc_decrypt = 0x19a

abbrev pub policy_capability : ℕ
policy_capability = 0x19b

abbrev pub policy_parameters : ℕ
policy_parameters = 0x19c

abbrev pub nv_define_space2 : ℕ
nv_define_space2 = 0x19d

abbrev pub nv_read_public2 : ℕ
nv_read_public2 = 0x19e

abbrev pub read_only_control : ℕ
read_only_control = 0x1a0

abbrev pub policy_transport_spdm : ℕ
policy_transport_spdm = 0x1a1

abbrev pub verify_sequence_complete : ℕ
verify_sequence_complete = 0x1a3

abbrev pub sign_sequence_complete : ℕ
sign_sequence_complete = 0x1a4

abbrev pub verify_digest_signature : ℕ
verify_digest_signature = 0x1a5

abbrev pub sign_digest : ℕ
sign_digest = 0x1a6

abbrev pub encapsulate : ℕ
encapsulate = 0x1a7

abbrev pub decapsulate : ℕ
decapsulate = 0x1a8

abbrev pub verify_sequence_start : ℕ
verify_sequence_start = 0x1a9

abbrev pub sign_sequence_start : ℕ
sign_sequence_start = 0x1aa

abbrev pub vendor_tcg_test : ℕ
vendor_tcg_test = 0x20000000
