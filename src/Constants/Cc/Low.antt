-- ===== src/Constants/Cc/Low.antt =====
-- The command codes, `mod cc` of src/tpm/constants.rs: the first half of the table.
use swtrust.Base.{ℕ}

abbrev pub nv_undefine_space_special : ℕ
nv_undefine_space_special = 0x11f

abbrev pub evict_control : ℕ
evict_control = 0x120

abbrev pub hierarchy_control : ℕ
hierarchy_control = 0x121

abbrev pub nv_undefine_space : ℕ
nv_undefine_space = 0x122

abbrev pub change_eps : ℕ
change_eps = 0x124

abbrev pub change_pps : ℕ
change_pps = 0x125

abbrev pub clear : ℕ
clear = 0x126

abbrev pub clear_control : ℕ
clear_control = 0x127

abbrev pub clock_set : ℕ
clock_set = 0x128

abbrev pub hierarchy_change_auth : ℕ
hierarchy_change_auth = 0x129

abbrev pub nv_define_space : ℕ
nv_define_space = 0x12a

abbrev pub pcr_allocate : ℕ
pcr_allocate = 0x12b

abbrev pub pcr_set_auth_policy : ℕ
pcr_set_auth_policy = 0x12c

abbrev pub pp_commands : ℕ
pp_commands = 0x12d

abbrev pub set_primary_policy : ℕ
set_primary_policy = 0x12e

abbrev pub clock_rate_adjust : ℕ
clock_rate_adjust = 0x130

abbrev pub set_capability : ℕ
set_capability = 0x19f

abbrev pub create_primary : ℕ
create_primary = 0x131

abbrev pub nv_global_write_lock : ℕ
nv_global_write_lock = 0x132

abbrev pub get_command_audit_digest : ℕ
get_command_audit_digest = 0x133

abbrev pub nv_increment : ℕ
nv_increment = 0x134

abbrev pub nv_set_bits : ℕ
nv_set_bits = 0x135

abbrev pub nv_extend : ℕ
nv_extend = 0x136

abbrev pub nv_write : ℕ
nv_write = 0x137

abbrev pub nv_write_lock : ℕ
nv_write_lock = 0x138

abbrev pub dictionary_attack_lock_reset : ℕ
dictionary_attack_lock_reset = 0x139

abbrev pub dictionary_attack_parameters : ℕ
dictionary_attack_parameters = 0x13a

abbrev pub nv_change_auth : ℕ
nv_change_auth = 0x13b

abbrev pub pcr_event : ℕ
pcr_event = 0x13c

abbrev pub pcr_reset : ℕ
pcr_reset = 0x13d

abbrev pub sequence_complete : ℕ
sequence_complete = 0x13e

abbrev pub set_algorithm_set : ℕ
set_algorithm_set = 0x13f

abbrev pub set_command_code_audit_status : ℕ
set_command_code_audit_status = 0x140

abbrev pub incremental_self_test : ℕ
incremental_self_test = 0x142

abbrev pub self_test : ℕ
self_test = 0x143

abbrev pub startup : ℕ
startup = 0x144

abbrev pub shutdown : ℕ
shutdown = 0x145

abbrev pub stir_random : ℕ
stir_random = 0x146

abbrev pub activate_credential : ℕ
activate_credential = 0x147

abbrev pub certify : ℕ
certify = 0x148

abbrev pub certify_x509 : ℕ
certify_x509 = 0x197

abbrev pub policy_nv : ℕ
policy_nv = 0x149

abbrev pub certify_creation : ℕ
certify_creation = 0x14a

abbrev pub duplicate : ℕ
duplicate = 0x14b

abbrev pub get_time : ℕ
get_time = 0x14c

abbrev pub get_session_audit_digest : ℕ
get_session_audit_digest = 0x14d

abbrev pub nv_read : ℕ
nv_read = 0x14e

abbrev pub nv_read_lock : ℕ
nv_read_lock = 0x14f

abbrev pub object_change_auth : ℕ
object_change_auth = 0x150

abbrev pub policy_secret : ℕ
policy_secret = 0x151

abbrev pub rewrap : ℕ
rewrap = 0x152

abbrev pub create : ℕ
create = 0x153

abbrev pub ecdh_z_gen : ℕ
ecdh_z_gen = 0x154

abbrev pub hmac : ℕ
hmac = 0x155

abbrev pub import : ℕ
import = 0x156

abbrev pub load : ℕ
load = 0x157

abbrev pub quote : ℕ
quote = 0x158

abbrev pub rsa_decrypt : ℕ
rsa_decrypt = 0x159

abbrev pub hmac_start : ℕ
hmac_start = 0x15b

abbrev pub sequence_update : ℕ
sequence_update = 0x15c

abbrev pub sign : ℕ
sign = 0x15d

abbrev pub unseal : ℕ
unseal = 0x15e

abbrev pub policy_signed : ℕ
policy_signed = 0x160

abbrev pub context_load : ℕ
context_load = 0x161

abbrev pub context_save : ℕ
context_save = 0x162

abbrev pub ecdh_key_gen : ℕ
ecdh_key_gen = 0x163
