-- ===== src/Constants/Se.antt =====
-- The session types, `mod se` of src/tpm/constants.rs, and the first handles of their ranges.
use swtrust.Base.{ℕ}

abbrev pub hmac : ℕ
hmac = 0x00

abbrev pub policy : ℕ
policy = 0x01

abbrev pub trial : ℕ
trial = 0x03

abbrev pub hmac_session_first : ℕ
hmac_session_first = 0x0200_0000

abbrev pub policy_session_first : ℕ
policy_session_first = 0x0300_0000
