-- ===== src/Crypto/Hmac.antt =====
-- HMAC and KDFa, src/tpm/crypto/hmac.rs.
pub mod Laws
use Prim.Native.Nat.{bit_xor}
use swtrust.Base.{
  ℕ, zero, suc, ◌+◌, ◌-◌, ◌*◌, ◌/◌, ◌%◌, ◌^◌, ◌≤◌, ◌<◌, ◌≡◌, Bool, true, false, List, [], ◌∷◌, ◌++◌,
  map, ◌==◌, ltb, leb, if◌then◌else◌, length, take, replicate, bit_and,
}
use swtrust.Constants.Rc
use swtrust.Error.{TpmResult, ok, err, ◌>>=◌, ◌>>◌, refuse_if}
use swtrust.Marshal.Bytes.{to_be_bytes}
use swtrust.Crypto.Hash.{Crypto, Hasher, block_size, digest_size, digest, new, update, finish}

-- TPM_MAX_DERIVATION_BITS is 8192.
abbrev pub max_kdf_bytes : ℕ
max_kdf_bytes = 8192 / 8

-- `checked_add` on a `u32`.
unfoldable pub out_len_of : ℕ → TpmResult ℕ
out_len_of bits =
    if leb (2 ^ 32) (bits + 7)
    then err Rc.value
    else if ltb max_kdf_bytes ((bits + 7) / 8)
    then err Rc.value
    else ok ((bits + 7) / 8)

abbrev pub ipad : ℕ
ipad = 0x36

abbrev pub opad : ℕ
opad = 0x5c

pub record Hmac : Type 0 where
  pub hash_alg : ℕ
  pub inner : Hasher
  pub outer_key : List ℕ

-- `padded[..key.len()].copy_from_slice(key)` on a buffer of `block` zeros.
abbrev pub pad_key : ℕ → List ℕ → List ℕ
pad_key block key = key ++ replicate (block - length key) 0

-- The inner hash starts with the padded key under IPAD; the other half waits for `finish`.
abbrev pub keyed : ℕ → Hasher → List ℕ → Hmac
keyed a inner padded = record {
  hash_alg = a;
  inner = update inner (map (λ b. bit_xor b ipad) padded);
  outer_key = map (λ b. bit_xor b opad) padded;
}

unfoldable pub hmac_new : Crypto → ℕ → List ℕ → TpmResult Hmac
hmac_new c a key = do
  block ← block_size c a
  short ← if ltb block (length key) then digest c a key else ok key
  inner ← new c a
  ok (keyed a inner (pad_key block short))

unfoldable pub hmac_update : Hmac → List ℕ → Hmac
hmac_update m b = record m { inner = update m.inner b }

-- `Hasher::new` is known to succeed there: the algorithm was checked at construction.
unfoldable pub hmac_finish : Crypto → Hmac → List ℕ
hmac_finish c m =
    finish c (record { hash_alg = m.hash_alg; absorbed = m.outer_key ++ finish c m.inner })

unfoldable pub hmac_update_all : Hmac → List (List ℕ) → Hmac
hmac_update_all m [] = m
hmac_update_all m (p ∷ ps) = hmac_update_all (hmac_update m p) ps

unfoldable pub hmac_parts : Crypto → ℕ → List ℕ → List (List ℕ) → TpmResult (List ℕ)
hmac_parts c a key parts = do mac ← hmac_new c a key; ok (hmac_finish c (hmac_update_all mac parts))

unfoldable pub hmac : Crypto → ℕ → List ℕ → List ℕ → TpmResult (List ℕ)
hmac c a key b = hmac_parts c a key (b ∷ [])

abbrev pub ends_in_zero : List ℕ → Bool
ends_in_zero [] = false
ends_in_zero (x ∷ []) = x == 0
ends_in_zero (x ∷ y ∷ ys) = ends_in_zero (y ∷ ys)

-- The rounds of KDFa while the output is short, at most `rounds` of them. A round adds a digest,
-- 20 octets at least, so that `out_len` rounds are enough.
unfoldable pub kdfa_rounds :
    Crypto → ℕ → List ℕ → List (List ℕ) → ℕ → ℕ → ℕ → List ℕ → TpmResult (List ℕ)
kdfa_rounds c a key parts out_len zero counter out = ok out
kdfa_rounds c a key parts out_len (suc rounds) counter out =
    let next = counter + 1 in
    let more = do
      block ← hmac_parts c a key (to_be_bytes 4 next ∷ parts)
      kdfa_rounds c a key parts out_len rounds next (out ++ block)
    in if ltb (length out) out_len then more else ok out

-- `*first &= (1u16 << (bits % 8)) as u8 - 1`
unfoldable pub mask_first : ℕ → List ℕ → List ℕ
mask_first bits [] = []
mask_first bits (b ∷ bs) = if bits % 8 == 0 then b ∷ bs else bit_and b (2 ^ (bits % 8) - 1) ∷ bs

-- What a round feeds in behind its counter.
abbrev pub kdfa_parts : List ℕ → List ℕ → List ℕ → ℕ → List (List ℕ)
kdfa_parts label context_u context_v bits =
    let terminator : List ℕ = if ends_in_zero label then [] else 0 ∷ [] in
    label ∷ terminator ∷ context_u ∷ context_v ∷ to_be_bytes 4 bits ∷ []

unfoldable pub kdfa : Crypto → ℕ → List ℕ → List ℕ → List ℕ → List ℕ → ℕ → TpmResult (List ℕ)
kdfa c a key label context_u context_v bits = do
  out_len ← out_len_of bits
  _ ← digest_size c a
  out ← kdfa_rounds c a key (kdfa_parts label context_u context_v bits) out_len out_len 0 []
  ok (mask_first bits (take out_len out))
