-- ===== src/Structures/Attributes.antt =====
-- TPMA_NV, the instance of `attribute!` that NV storage uses. src/tpm/structures/attributes.rs.
use swtrust.Base.{
  ℕ, ◌/◌, ◌^◌, ◌<◌, ◌≡◌, Bool, true, false, not, ◌==◌, if◌then◌else◌, bit_and, bit_or, arith,
}
use swtrust.Base.Bits.{
  complement, test_bit-or, test_bit-and, test_bit-pow, test_bit-complement, bit_and-pow_self,
  pow-lt-pow,
}
use swtrust.Constants.Rc
use swtrust.Marshal.Read.{Read, ◌>>=◌, ◌>>◌, pure, refuse_if, read_u32}
use swtrust.Marshal.Write.{Writer, write_u32}

-- The bit numbers of the attributes: `FIELD = 1 << bit`.
abbrev pub writelocked : ℕ
writelocked = 11

abbrev pub writeall : ℕ
writeall = 12

abbrev pub writedefine : ℕ
writedefine = 13

abbrev pub globallock : ℕ
globallock = 15

abbrev pub orderly : ℕ
orderly = 26

abbrev pub clear_stclear : ℕ
clear_stclear = 27

abbrev pub readlocked : ℕ
readlocked = 28

abbrev pub written : ℕ
written = 29

abbrev pub platformcreate : ℕ
platformcreate = 30

abbrev pub read_stclear : ℕ
read_stclear = 31

abbrev pub reserved : ℕ
reserved = 0x01f0_0300

-- TPM_NT
abbrev pub counter : ℕ
counter = 0x1

abbrev pub bits : ℕ
bits = 0x2

abbrev pub extend : ℕ
extend = 0x4

abbrev pub pin_fail : ℕ
pin_fail = 0x8

abbrev pub pin_pass : ℕ
pin_pass = 0x9

-- An attribute word is its `u32`; the mask is `1 << bit`.
unfoldable pub has : ℕ → ℕ → Bool
has attrs bit = bit_and attrs (2 ^ bit) == 2 ^ bit

unfoldable pub with_bit : ℕ → ℕ → ℕ
with_bit attrs bit = bit_or attrs (2 ^ bit)

unfoldable pub without : ℕ → ℕ → ℕ
without attrs bit = bit_and attrs (complement 32 (2 ^ bit))

unfoldable pub set_bit : ℕ → ℕ → Bool → ℕ
unfolding with_bit without
set_bit attrs bit on = if on then with_bit attrs bit else without attrs bit

-- `(bits & 0xF0) >> 4`
unfoldable pub index_type : ℕ → ℕ
index_type attrs = bit_and attrs 0xf0 / 2 ^ 4

unfoldable pub attributes_marshal : ℕ → Writer → Writer
attributes_marshal attrs = write_u32 attrs

unfoldable pub attributes_unmarshal : Read ℕ
attributes_unmarshal = do
  v ← read_u32
  refuse_if (not (bit_and v reserved == 0)) Rc.reserved_bits
  pure v

-- Setting or clearing one attribute changes that attribute, and leaves every other.
pub has-set_bit :
    (attrs i k : ℕ) (on : Bool)
    → i < 32
    → k < 32
    → has (set_bit attrs i on) k ≡ (if i == k then on else has attrs k)
unfolding has set_bit
has-set_bit attrs i k true hi hk = ground (
  arith,
  bit_and-pow_self k (bit_or attrs (2 ^ i)),
  bit_and-pow_self k attrs,
  test_bit-or k attrs (2 ^ i),
  test_bit-pow i k,
)
has-set_bit attrs i k false hi hk = ground (
  arith,
  bit_and-pow_self k (bit_and attrs (complement 32 (2 ^ i))),
  bit_and-pow_self k attrs,
  test_bit-and k attrs (complement 32 (2 ^ i)),
  test_bit-complement 32 (2 ^ i) k hk (pow-lt-pow i 32 hi),
  test_bit-pow i k,
)
