-- ===== src/Constants/Handles.antt =====
-- The permanent handles of the hierarchies, `mod rh` of src/tpm/constants.rs.
use swtrust.Base.{ℕ}

abbrev pub rh_owner : ℕ
rh_owner = 0x4000_0001

abbrev pub rh_null : ℕ
rh_null = 0x4000_0007

abbrev pub rh_endorsement : ℕ
rh_endorsement = 0x4000_000b

abbrev pub rh_platform : ℕ
rh_platform = 0x4000_000c

abbrev pub fw_owner : ℕ
fw_owner = 0x4000_0140

abbrev pub fw_endorsement : ℕ
fw_endorsement = 0x4000_0141

abbrev pub fw_platform : ℕ
fw_platform = 0x4000_0142

abbrev pub fw_null : ℕ
fw_null = 0x4000_0143

abbrev pub svn_owner_base : ℕ
svn_owner_base = 0x4001_0000

abbrev pub svn_endorsement_base : ℕ
svn_endorsement_base = 0x4002_0000

abbrev pub svn_platform_base : ℕ
svn_platform_base = 0x4003_0000

abbrev pub svn_null_base : ℕ
svn_null_base = 0x4004_0000

abbrev pub rh_rs_pw : ℕ
rh_rs_pw = 0x4000_0009
