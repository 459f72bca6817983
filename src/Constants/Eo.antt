-- ===== src/Constants/Eo.antt =====
-- The comparisons of TPM2_PolicyNV and TPM2_PolicyCounterTimer, `mod eo` of src/tpm/constants.rs.
use swtrust.Base.{ℕ}

abbrev pub eq : ℕ
eq = 0x0000

abbrev pub neq : ℕ
neq = 0x0001

abbrev pub signed_gt : ℕ
signed_gt = 0x0002

abbrev pub unsigned_gt : ℕ
unsigned_gt = 0x0003

abbrev pub signed_lt : ℕ
signed_lt = 0x0004

abbrev pub unsigned_lt : ℕ
unsigned_lt = 0x0005

abbrev pub signed_ge : ℕ
signed_ge = 0x0006

abbrev pub unsigned_ge : ℕ
unsigned_ge = 0x0007

abbrev pub signed_le : ℕ
signed_le = 0x0008

abbrev pub unsigned_le : ℕ
unsigned_le = 0x0009

abbrev pub bitset : ℕ
bitset = 0x000a

abbrev pub bitclear : ℕ
bitclear = 0x000b
