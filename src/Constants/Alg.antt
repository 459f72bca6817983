-- ===== src/Constants/Alg.antt =====
-- The algorithm identifiers, `mod alg` of src/tpm/constants.rs.
use swtrust.Base.{ℕ}

abbrev pub sha1 : ℕ
sha1 = 0x0004

abbrev pub sha256 : ℕ
sha256 = 0x000b

abbrev pub sha384 : ℕ
sha384 = 0x000c

abbrev pub sha512 : ℕ
sha512 = 0x000d

abbrev pub null : ℕ
null = 0x0010

abbrev pub sm3_256 : ℕ
sm3_256 = 0x0012

abbrev pub sha3_256 : ℕ
sha3_256 = 0x0027

abbrev pub sha3_384 : ℕ
sha3_384 = 0x0028

abbrev pub sha3_512 : ℕ
sha3_512 = 0x0029

abbrev pub aes : ℕ
aes = 0x0006

abbrev pub xor : ℕ
xor = 0x000a

abbrev pub ctr : ℕ
ctr = 0x0040

abbrev pub ofb : ℕ
ofb = 0x0041

abbrev pub cbc : ℕ
cbc = 0x0042

abbrev pub cfb : ℕ
cfb = 0x0043

abbrev pub ecb : ℕ
ecb = 0x0044
