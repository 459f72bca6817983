-- ===== src/Commands/Table.antt =====
-- The command table, src/tpm/commands/table.rs.
use swtrust.Base.{
  ℕ, ◌%◌, ◌^◌, ◌*◌, ◌/◌, ◌||◌, Bool, true, false, not, Option, none, some, List, [], ◌∷◌, ◌==◌,
  if◌then◌else◌, bit_and, bit_or,
}
use swtrust.Constants.Cc

pub record CommandInfo : Type 0 where
  pub code : ℕ
  pub handles : ℕ
  pub auth_handles : ℕ
  pub response_handle : Bool
  pub nv : Bool
  pub extensive : Bool
  pub flushed : Bool

abbrev pub new : ℕ → ℕ → ℕ → Bool → Bool → Bool → Bool → CommandInfo
new code handles auth_handles response_handle nv extensive flushed = record {
  code = code;
  handles = handles;
  auth_handles = auth_handles;
  response_handle = response_handle;
  nv = nv;
  extensive = extensive;
  flushed = flushed;
}

abbrev pub plain : ℕ → ℕ → ℕ → CommandInfo
plain code handles auth = new code handles auth false false false false

abbrev pub nv_writer : ℕ → ℕ → ℕ → CommandInfo
nv_writer code handles auth = new code handles auth false true false false

abbrev pub rhandle : ℕ → ℕ → ℕ → CommandInfo
rhandle code handles auth = new code handles auth true false false false

unfoldable pub commands : List CommandInfo
commands =
    nv_writer Cc.nv_undefine_space_special 2 2
    ∷ nv_writer Cc.evict_control 2 1
    ∷ new Cc.hierarchy_control 1 1 false true true false
    ∷ nv_writer Cc.nv_undefine_space 2 1
    ∷ new Cc.change_eps 1 1 false true true false
    ∷ new Cc.change_pps 1 1 false true true false
    ∷ new Cc.clear 1 1 false true true false
    ∷ nv_writer Cc.clear_control 1 1
    ∷ nv_writer Cc.clock_set 1 1
    ∷ nv_writer Cc.hierarchy_change_auth 1 1
    ∷ nv_writer Cc.nv_define_space 1 1
    ∷ nv_writer Cc.pcr_allocate 1 1
    ∷ nv_writer Cc.pcr_set_auth_policy 1 1
    ∷ nv_writer Cc.pp_commands 1 1
    ∷ nv_writer Cc.set_primary_policy 1 1
    ∷ plain Cc.clock_rate_adjust 1 1
    ∷ nv_writer Cc.set_capability 1 1
    ∷ rhandle Cc.create_primary 1 1
    ∷ nv_writer Cc.nv_global_write_lock 1 1
    ∷ nv_writer Cc.get_command_audit_digest 2 2
    ∷ nv_writer Cc.nv_increment 2 1
    ∷ nv_writer Cc.nv_set_bits 2 1
    ∷ nv_writer Cc.nv_extend 2 1
    ∷ nv_writer Cc.nv_write 2 1
    ∷ nv_writer Cc.nv_write_lock 2 1
    ∷ nv_writer Cc.dictionary_attack_lock_reset 1 1
    ∷ nv_writer Cc.dictionary_attack_parameters 1 1
    ∷ nv_writer Cc.nv_change_auth 1 1
    ∷ nv_writer Cc.pcr_event 1 1
    ∷ nv_writer Cc.pcr_reset 1 1
    ∷ new Cc.sequence_complete 1 1 false false false true
    ∷ nv_writer Cc.set_algorithm_set 1 1
    ∷ nv_writer Cc.set_command_code_audit_status 1 1
    ∷ nv_writer Cc.incremental_self_test 0 0
    ∷ nv_writer Cc.self_test 0 0
    ∷ nv_writer Cc.startup 0 0
    ∷ nv_writer Cc.shutdown 0 0
    ∷ nv_writer Cc.stir_random 0 0
    ∷ plain Cc.activate_credential 2 2
    ∷ plain Cc.certify 2 2
    ∷ plain Cc.certify_x509 2 2
    ∷ plain Cc.policy_nv 3 1
    ∷ plain Cc.certify_creation 2 1
    ∷ plain Cc.duplicate 2 1
    ∷ plain Cc.get_time 2 2
    ∷ plain Cc.get_session_audit_digest 3 2
    ∷ plain Cc.nv_read 2 1
    ∷ nv_writer Cc.nv_read_lock 2 1
    ∷ plain Cc.object_change_auth 2 1
    ∷ plain Cc.policy_secret 2 1
    ∷ plain Cc.rewrap 2 1
    ∷ plain Cc.create 1 1
    ∷ plain Cc.ecdh_z_gen 1 1
    ∷ plain Cc.hmac 1 1
    ∷ plain Cc.import 1 1
    ∷ rhandle Cc.load 1 1
    ∷ plain Cc.quote 1 1
    ∷ plain Cc.rsa_decrypt 1 1
    ∷ rhandle Cc.hmac_start 1 1
    ∷ plain Cc.sequence_update 1 1
    ∷ plain Cc.sign 1 1
    ∷ plain Cc.unseal 1 1
    ∷ plain Cc.policy_signed 2 0
    ∷ rhandle Cc.context_load 0 0
    ∷ plain Cc.context_save 1 0
    ∷ plain Cc.ecdh_key_gen 1 0
    ∷ plain Cc.encrypt_decrypt 1 1
    ∷ new Cc.flush_context 0 0 false false false false
    ∷ rhandle Cc.load_external 0 0
    ∷ plain Cc.make_credential 1 0
    ∷ plain Cc.nv_read_public 1 0
    ∷ plain Cc.policy_authorize 1 0
    ∷ plain Cc.policy_auth_value 1 0
    ∷ plain Cc.policy_command_code 1 0
    ∷ plain Cc.policy_counter_timer 1 0
    ∷ plain Cc.policy_cp_hash 1 0
    ∷ plain Cc.policy_locality 1 0
    ∷ plain Cc.policy_name_hash 1 0
    ∷ plain Cc.policy_or 1 0
    ∷ plain Cc.policy_ticket 1 0
    ∷ plain Cc.read_public 1 0
    ∷ plain Cc.rsa_encrypt 1 0
    ∷ rhandle Cc.start_auth_session 2 0
    ∷ plain Cc.verify_signature 1 0
    ∷ plain Cc.ecc_parameters 0 0
    ∷ plain Cc.get_capability 0 0
    ∷ plain Cc.get_random 0 0
    ∷ plain Cc.get_test_result 0 0
    ∷ plain Cc.hash 0 0
    ∷ plain Cc.pcr_read 0 0
    ∷ plain Cc.policy_pcr 1 0
    ∷ plain Cc.policy_restart 1 0
    ∷ plain Cc.read_clock 0 0
    ∷ nv_writer Cc.pcr_extend 1 1
    ∷ plain Cc.pcr_set_auth_value 1 1
    ∷ plain Cc.nv_certify 3 2
    ∷ new Cc.event_sequence_complete 2 2 false true false true
    ∷ rhandle Cc.hash_sequence_start 0 0
    ∷ plain Cc.policy_physical_presence 1 0
    ∷ plain Cc.policy_duplication_select 1 0
    ∷ plain Cc.policy_get_digest 1 0
    ∷ plain Cc.test_parms 0 0
    ∷ plain Cc.commit 1 1
    ∷ plain Cc.policy_password 1 0
    ∷ plain Cc.z_gen_2_phase 1 1
    ∷ plain Cc.ec_ephemeral 0 0
    ∷ plain Cc.policy_nv_written 1 0
    ∷ plain Cc.policy_template 1 0
    ∷ rhandle Cc.create_loaded 1 1
    ∷ plain Cc.policy_authorize_nv 3 1
    ∷ plain Cc.encrypt_decrypt2 1 1
    ∷ plain Cc.ac_get_capability 1 0
    ∷ plain Cc.ac_send 3 2
    ∷ plain Cc.policy_ac_send_select 1 0
    ∷ plain Cc.act_set_timeout 1 1
    ∷ plain Cc.ecc_encrypt 1 0
    ∷ plain Cc.ecc_decrypt 1 1
    ∷ plain Cc.policy_capability 1 0
    ∷ plain Cc.policy_parameters 1 0
    ∷ nv_writer Cc.nv_define_space2 1 1
    ∷ plain Cc.nv_read_public2 1 0
    ∷ plain Cc.read_only_control 1 1
    ∷ plain Cc.policy_transport_spdm 1 0
    ∷ new Cc.verify_sequence_complete 2 1 false false false true
    ∷ new Cc.sign_sequence_complete 2 2 false false false true
    ∷ plain Cc.verify_digest_signature 1 0
    ∷ plain Cc.sign_digest 1 1
    ∷ plain Cc.encapsulate 1 0
    ∷ plain Cc.decapsulate 1 1
    ∷ rhandle Cc.verify_sequence_start 1 0
    ∷ rhandle Cc.sign_sequence_start 1 0
    ∷ plain Cc.vendor_tcg_test 0 0
    ∷ []

abbrev pub find_code : ℕ → List CommandInfo → Option CommandInfo
find_code code [] = none
find_code code (c ∷ cs) = if c.code == code then some c else find_code code cs

unfoldable pub lookup : ℕ → Option CommandInfo
unfolding commands
lookup code = find_code code commands

abbrev flag : Bool → ℕ → ℕ → ℕ
flag on flags bit = if on then bit_or flags (2 ^ bit) else flags

-- `CommandAttributes::build`, where `code as u16` is the code modulo `2 ^ 16`.
unfoldable pub build : ℕ → ℕ → ℕ → ℕ
build command_index handles flags =
    bit_or (bit_or command_index (bit_and (handles * 2 ^ 25) 0x0e00_0000)) flags

-- NV, EXTENSIVE, FLUSHED, R_HANDLE and V.
unfoldable pub attributes : CommandInfo → ℕ
unfolding build
attributes c =
    let flags = flag c.nv 0 22 in
    let flags = flag c.extensive flags 23 in
    let flags = flag c.flushed flags 24 in
    let flags = flag c.response_handle flags 28 in
    let flags = flag (not (bit_and c.code 0x2000_0000 == 0)) flags 29 in
    build (c.code % 2 ^ 16) c.handles flags

-- `CommandAttributes::command_index` and `CommandAttributes::handles`
unfoldable pub command_index : ℕ → ℕ
command_index attrs = bit_and attrs 0x0000_ffff

unfoldable pub handles_of : ℕ → ℕ
handles_of attrs = bit_and attrs 0x0e00_0000 / 2 ^ 25

unfoldable pub read_only_needs_a_volatile_index : ℕ → Bool
read_only_needs_a_volatile_index code =
    code == Cc.nv_write
    || code == Cc.nv_extend
    || code == Cc.nv_set_bits
    || code == Cc.nv_write_lock
    || code == Cc.nv_read_lock
