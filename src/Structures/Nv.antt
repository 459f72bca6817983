-- ===== src/Structures/Nv.antt =====
-- The public area of an NV Index and the PIN counters, src/tpm/structures/nv.rs.
use swtrust.Base.{ℕ, Bool, List, ltb}
use swtrust.Constants.Rc
use swtrust.Constants.Config
use swtrust.Marshal.Read.{Read, ◌>>=◌, ◌>>◌, pure, refuse_if, read_u16, read_u32}
use swtrust.Marshal.Write.{Writer, write_u16, write_u32}
use swtrust.Structures.Base.{digest_size, is_none, tpm2b_marshal, tpm2b_unmarshal}
use swtrust.Structures.Attributes.{attributes_marshal, attributes_unmarshal}

pub record NvPublic : Type 0 where
  pub nv_index : ℕ
  pub name_alg : ℕ
  pub attributes : ℕ
  pub auth_policy : List ℕ
  pub data_size : ℕ

unfoldable pub nv_public_marshal : NvPublic → Writer → Writer
nv_public_marshal p w = write_u16 p.data_size (
    tpm2b_marshal p.auth_policy
      (attributes_marshal p.attributes (write_u16 p.name_alg (write_u32 p.nv_index w))))

-- A TPM2B_DIGEST holds at most the largest digest.
unfoldable pub nv_public_unmarshal : Bool → Read NvPublic
nv_public_unmarshal strict = do
  nv_index ← read_u32
  name_alg ← read_u16
  refuse_if (is_none (digest_size strict name_alg)) Rc.hash
  attributes ← attributes_unmarshal
  auth_policy ← tpm2b_unmarshal Config.max_digest_size
  data_size ← read_u16
  refuse_if (ltb Config.max_nv_index_size data_size) Rc.size
  pure (record {
    nv_index = nv_index;
    name_alg = name_alg;
    attributes = attributes;
    auth_policy = auth_policy;
    data_size = data_size;
  })

pub record NvPinCounterParameters : Type 0 where
  pub pin_count : ℕ
  pub pin_limit : ℕ

unfoldable pub pin_marshal : NvPinCounterParameters → Writer → Writer
pin_marshal p w = write_u32 p.pin_limit (write_u32 p.pin_count w)

unfoldable pub pin_unmarshal : Read NvPinCounterParameters
pin_unmarshal = do
  pin_count ← read_u32
  pin_limit ← read_u32
  pure (record { pin_count = pin_count; pin_limit = pin_limit })
