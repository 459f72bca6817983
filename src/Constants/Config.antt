-- ===== src/Constants/Config.antt =====
-- The implementation dependent values of src/tpm/config.rs.
use swtrust.Base.{ℕ, ◌*◌}

abbrev pub implementation_pcr : ℕ
implementation_pcr = 24

abbrev pub hcrtm_pcr : ℕ
hcrtm_pcr = 0

abbrev pub pcr_select_min : ℕ
pcr_select_min = 3

abbrev pub pcr_select_max : ℕ
pcr_select_max = 3

abbrev pub max_commit_sequences : ℕ
max_commit_sequences = 128

abbrev pub commit_nonce_bytes : ℕ
commit_nonce_bytes = 64

abbrev pub max_orderly_count : ℕ
max_orderly_count = 255

abbrev pub nv_memory_size : ℕ
nv_memory_size = 128 * 1024

abbrev pub max_nv_index_size : ℕ
max_nv_index_size = 8500

-- MAX_DIGEST_SIZE of src/tpm/structures/base.rs.
abbrev pub max_digest_size : ℕ
max_digest_size = 64

abbrev pub firmware_svn : ℕ
firmware_svn = 0

abbrev pub firmware_max_svn : ℕ
firmware_max_svn = 0

abbrev pub primary_seed_size : ℕ
primary_seed_size = 32

-- SHA512
abbrev pub context_integrity_hash_alg : ℕ
context_integrity_hash_alg = 0x000d

abbrev pub max_loaded_sessions : ℕ
max_loaded_sessions = 32

abbrev pub max_active_sessions : ℕ
max_active_sessions = 64

abbrev pub context_gap_max : ℕ
context_gap_max = 0xffff

abbrev pub hash_count : ℕ
hash_count = 8

abbrev pub default_max_auth_fail : ℕ
default_max_auth_fail = 32

abbrev pub default_lockout_interval : ℕ
default_lockout_interval = 1000

abbrev pub default_lockout_recovery : ℕ
default_lockout_recovery = 1000
