-- ===== src/Structures/Base.antt =====
-- Digests, sized buffers and PCR selections, src/tpm/structures/base.rs. `strict` is what
-- `profile::is_strict()` answers.
use swtrust.Base.{
  ℕ, zero, suc, ◌+◌, ◌-◌, ◌*◌, ◌/◌, ◌%◌, ◌^◌, Bool, true, false, not, ◌&&◌, ◌||◌, Option, none,
  some, List, [], ◌∷◌, ◌++◌, ◌==◌, ltb, leb, if◌then◌else◌, length, get_elem?, set, replicate,
  bit_and, bit_or,
}
use swtrust.Base.Bits.{complement}
use swtrust.Constants.Rc
use swtrust.Constants.Alg
use swtrust.Constants.Config
use swtrust.Error.{TpmResult, ok, err}
use swtrust.Marshal.Read.{Read, ◌>>=◌, ◌>>◌, pure, fail, refuse_if, read, read_u8, read_u16}
use swtrust.Marshal.Write.{Writer, bytes, write_u8, write_u16, sized16}

unfoldable pub digest_size : Bool → ℕ → Option ℕ
digest_size strict a =
    if a == Alg.sha1 && strict
    then none
    else if a == Alg.sha1
    then some 20
    else if a == Alg.sha256 || a == Alg.sha3_256
    then some 32
    else if a == Alg.sha384 || a == Alg.sha3_384
    then some 48
    else if a == Alg.sha512 || a == Alg.sha3_512
    then some 64
    else if a == Alg.sm3_256
    then some 32
    else none

-- `ok_or` on a reader.
abbrev pub ok_or {ℓ} : {A : Type ℓ} → Option A → ℕ → Read A
ok_or none e = fail e
ok_or (some a) e = pure a

-- The types of `tpm2b!` differ in their bound, here the argument `limit`; the value is its buffer.
unfoldable pub tpm2b_marshal : List ℕ → Writer → Writer
tpm2b_marshal buffer = sized16 buffer

unfoldable pub tpm2b_unmarshal : ℕ → Read (List ℕ)
tpm2b_unmarshal limit = do size ← read_u16; refuse_if (ltb limit size) Rc.size; read size

pub record TpmtHa : Type 0 where
  pub hash_alg : ℕ
  pub digest : List ℕ

abbrev pub TpmtHa_null : TpmtHa
TpmtHa_null = record { hash_alg = Alg.null; digest = [] }

abbrev check_size : Option ℕ → TpmtHa → TpmResult TpmtHa
check_size none h = err Rc.hash
check_size (some n) h = if n == length h.digest then ok h else err Rc.size

unfoldable pub tpmt_ha_new : Bool → ℕ → List ℕ → TpmResult TpmtHa
tpmt_ha_new strict a d =
    let h : TpmtHa = record { hash_alg = a; digest = d } in
    if a == Alg.null
    then (if length d == 0 then ok h else err Rc.size)
    else check_size (digest_size strict a) h

unfoldable pub tpmt_ha_marshal : TpmtHa → Writer → Writer
tpmt_ha_marshal h w = bytes h.digest (write_u16 h.hash_alg w)

unfoldable pub read_digest : Bool → ℕ → Read TpmtHa
read_digest strict a = do
  size ← ok_or (digest_size strict a) Rc.hash
  d ← read size
  pure (record { hash_alg = a; digest = d })

unfoldable pub tpmt_ha_unmarshal : Bool → Read TpmtHa
tpmt_ha_unmarshal strict = do
  a ← read_u16
  if a == Alg.null then pure (record { hash_alg = a; digest = [] }) else read_digest strict a

pub record PcrSelect : Type 0 where
  pub bits : List ℕ

abbrev selects : Option ℕ → ℕ → Bool
selects none k = false
selects (some b) k = not (bit_and b (2 ^ k) == 0)

unfoldable pub is_selected : PcrSelect → ℕ → Bool
is_selected s index = selects (get_elem? s.bits (index / 8)) (index % 8)

abbrev put : List ℕ → ℕ → Option ℕ → (ℕ → ℕ) → List ℕ
put bits at none f = bits
put bits at (some b) f = set bits at (f b)

-- `resize(byte + 1, 0)` where the map is too short.
abbrev pub grown : List ℕ → ℕ → List ℕ
grown bits n = bits ++ replicate (n - length bits) 0

unfoldable pub select : PcrSelect → ℕ → PcrSelect
select s index =
    let byte = index / 8 in
    let bits = if leb (length s.bits) byte then grown s.bits (byte + 1) else s.bits in
    record { bits = put bits byte (get_elem? bits byte) (λ b. bit_or b (2 ^ (index % 8))) }

unfoldable pub deselect : PcrSelect → ℕ → PcrSelect
deselect s index =
    let byte = index / 8 in
    record {
      bits =
          put s.bits byte (get_elem? s.bits byte) (λ b. bit_and b (complement 8 (2 ^ (index % 8))));
    }

-- The inner loop of `selected`, from `bit` on, `left` rounds of it.
unfoldable pub selected_bits : ℕ → ℕ → ℕ → ℕ → List ℕ
selected_bits zero bit i b = []
selected_bits (suc left) bit i b =
    let more = selected_bits left (bit + 1) i b in
    if not (bit_and b (2 ^ bit) == 0) then (i * 8 + bit) ∷ more else more

unfoldable pub selected_from : ℕ → List ℕ → List ℕ
selected_from i [] = []
selected_from i (b ∷ bs) = selected_bits 8 0 i b ++ selected_from (i + 1) bs

unfoldable pub selected : PcrSelect → List ℕ
selected s = selected_from 0 s.bits

-- `self.bits.len() as u8` keeps the low 8 bits.
unfoldable pub pcr_select_marshal : PcrSelect → Writer → Writer
pcr_select_marshal s w = bytes s.bits (write_u8 (length s.bits % 2 ^ 8) w)

unfoldable pub pcr_select_unmarshal : Read PcrSelect
pcr_select_unmarshal = do
  size ← read_u8
  refuse_if (not (leb Config.pcr_select_min size && leb size Config.pcr_select_max)) Rc.value
  bits ← read size
  pure (record { bits = bits })

pub record PcrSelection : Type 0 where
  pub hash_alg : ℕ
  pub select : PcrSelect

unfoldable pub pcr_selection_marshal : PcrSelection → Writer → Writer
pcr_selection_marshal s w = pcr_select_marshal s.select (write_u16 s.hash_alg w)

abbrev pub is_none : Option ℕ → Bool
is_none none = true
is_none (some n) = false

unfoldable pub pcr_selection_unmarshal : Bool → Read PcrSelection
pcr_selection_unmarshal strict = do
  a ← read_u16
  refuse_if (is_none (digest_size strict a)) Rc.hash
  s ← pcr_select_unmarshal
  pure (record { hash_alg = a; select = s })
