-- ===== src/Structures/Schemes.antt =====
-- TPMT_SYM_DEF, `SymDef` of src/tpm/structures/schemes.rs.
use swtrust.Base.{ℕ, Bool, not, ◌&&◌, ◌||◌, ◌==◌, if◌then◌else◌}
use swtrust.Constants.Alg
use swtrust.Constants.Rc
use swtrust.Marshal.Read.{Read, ◌>>=◌, ◌>>◌, pure, refuse_if, read_u16}
use swtrust.Marshal.Write.{Writer, write_u16}
use swtrust.Structures.Base.{digest_size, is_none}

pub record SymDef : Type 0 where
  pub algorithm : ℕ
  pub key_bits : ℕ
  pub mode : ℕ

abbrev pub SymDef_null : SymDef
SymDef_null = record { algorithm = Alg.null; key_bits = 0; mode = 0 }

unfoldable pub is_block_cipher : ℕ → Bool
is_block_cipher id = id == Alg.aes

unfoldable pub is_mode : ℕ → Bool
is_mode id = id == Alg.ctr || id == Alg.ofb || id == Alg.cbc || id == Alg.cfb || id == Alg.ecb

-- IMPLEMENTED_AES_KEY_BITS is 128, 192 and 256.
unfoldable pub is_key_size : ℕ → ℕ → Bool
is_key_size algorithm key_bits =
    algorithm == Alg.aes && (key_bits == 128 || key_bits == 192 || key_bits == 256)

abbrev xor_def : Bool → ℕ → Read SymDef
xor_def strict key_bits = do
  refuse_if (is_none (digest_size strict key_bits)) Rc.hash
  pure (record { algorithm = Alg.xor; key_bits = key_bits; mode = Alg.null })

abbrev cipher_def : ℕ → Read SymDef
cipher_def algorithm = do
  refuse_if (not (is_block_cipher algorithm)) Rc.symmetric
  key_bits ← read_u16
  refuse_if (not (is_key_size algorithm key_bits)) Rc.value
  mode ← read_u16
  refuse_if (not (is_mode mode)) Rc.mode
  pure (record { algorithm = algorithm; key_bits = key_bits; mode = mode })

abbrev sym_def_of : Bool → ℕ → Read SymDef
sym_def_of strict algorithm =
    if algorithm == Alg.null
    then pure SymDef_null
    else if algorithm == Alg.xor
    then (read_u16 >>= xor_def strict)
    else cipher_def algorithm

unfoldable pub unmarshal_sym_def : Bool → Read SymDef
unmarshal_sym_def strict = do algorithm ← read_u16; sym_def_of strict algorithm

unfoldable pub unmarshal_sym_def_object : Bool → Read SymDef
unmarshal_sym_def_object strict = do
  def ← unmarshal_sym_def strict
  refuse_if (def.algorithm == Alg.xor) Rc.symmetric
  pure def

unfoldable pub sym_def_marshal : SymDef → Writer → Writer
sym_def_marshal def w =
    let head = write_u16 def.algorithm w in
    if def.algorithm == Alg.null
    then head
    else let sized = write_u16 def.key_bits head in
      if def.algorithm == Alg.xor then sized else write_u16 def.mode sized
