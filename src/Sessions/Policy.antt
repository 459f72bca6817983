-- ===== src/Sessions/Policy.antt =====
-- `PolicyState` of src/tpm/core/session.rs: what a policy session accumulates, and how a saved context
-- carries it.
use swtrust.Base.{ℕ, Bool, true, false, not, Option, none, some, List, [], ◌==◌, if◌then◌else◌}
use swtrust.Marshal.Read.{Read, ◌>>=◌, pure, read, read_u8, read_u16, read_u32, read_u64}
use swtrust.Marshal.Write.{Writer, sized16, write_u8, write_u32, write_u64}

pub record PolicyState : Type 0 where
  pub digest : List ℕ
  pub command_code : Option ℕ
  pub cp_hash : Option (List ℕ)
  pub name_hash : Option (List ℕ)
  pub locality : Option ℕ
  pub pcr_update_counter : Option ℕ
  pub auth_value_needed : Bool
  pub password_needed : Bool
  pub nv_written : Option Bool
  pub template_hash : Option (List ℕ)
  pub parameters_hash : Option (List ℕ)
  pub physical_presence_required : Bool
  pub secure_channel_required : Bool
  pub secure_channel_key_hash : Option (List ℕ)
  pub expiration : Option ℕ
  pub timeout_nonce : List ℕ

-- `PolicyState { digest, ..PolicyState::default() }`
unfoldable pub with_digest : List ℕ → PolicyState
with_digest digest = record {
  digest = digest;
  command_code = none;
  cp_hash = none;
  name_hash = none;
  locality = none;
  pcr_update_counter = none;
  auth_value_needed = false;
  password_needed = false;
  nv_written = none;
  template_hash = none;
  parameters_hash = none;
  physical_presence_required = false;
  secure_channel_required = false;
  secure_channel_key_hash = none;
  expiration = none;
  timeout_nonce = [];
}

-- `u8::from`
abbrev pub flag_octet : Bool → ℕ
flag_octet true = 1
flag_octet false = 0

-- `Some` is an octet 1 and the value, `None` an octet 0.
abbrev pub write_optional {ℓ} : {A : Type ℓ} → (A → Writer → Writer) → Option A → Writer → Writer
write_optional write none w = write_u8 0 w
write_optional write (some x) w = write x (write_u8 1 w)

-- One statement after another.
infixr 5 ◌then_write◌
unfoldable pub ◌then_write◌ : (Writer → Writer) → (Writer → Writer) → Writer → Writer
◌then_write◌ f g w = g (f w)

unfoldable pub marshal : PolicyState → Writer → Writer
marshal s =
    sized16 s.digest
    then_write write_optional write_u32 s.command_code
    then_write write_optional sized16 s.cp_hash
    then_write write_optional sized16 s.name_hash
    then_write write_optional write_u8 s.locality
    then_write write_optional write_u32 s.pcr_update_counter
    then_write write_u8 (flag_octet s.auth_value_needed)
    then_write write_u8 (flag_octet s.password_needed)
    then_write write_optional (λ v. write_u8 (flag_octet v)) s.nv_written
    then_write write_optional sized16 s.template_hash
    then_write write_optional sized16 s.parameters_hash
    then_write write_u8 (flag_octet s.physical_presence_required)
    then_write write_u8 (flag_octet s.secure_channel_required)
    then_write write_optional sized16 s.secure_channel_key_hash
    then_write write_optional write_u64 s.expiration
    then_write sized16 s.timeout_nonce

unfoldable pub read_bytes : Read (List ℕ)
read_bytes = do n ← read_u16; read n

-- `if r.u8()? == 0 { None } else { Some(...) }`
abbrev pub some_of {ℓ} : {A : Type ℓ} → Read A → Read (Option A)
some_of value = do x ← value; pure (some x)

abbrev pub none_if_zero {ℓ} : {A : Type ℓ} → Read A → ℕ → Read (Option A)
none_if_zero value present = if present == 0 then pure none else some_of value

unfoldable pub read_optional {ℓ} : {A : Type ℓ} → Read A → Read (Option A)
read_optional value = do present ← read_u8; none_if_zero value present

-- `r.u8()? != 0`
unfoldable pub read_flag : Read Bool
read_flag = do v ← read_u8; pure (not (v == 0))

unfoldable pub unmarshal : Read PolicyState
unmarshal = do
  digest ← read_bytes
  command_code ← read_optional read_u32
  cp_hash ← read_optional read_bytes
  name_hash ← read_optional read_bytes
  locality ← read_optional read_u8
  pcr_update_counter ← read_optional read_u32
  auth_value_needed ← read_flag
  password_needed ← read_flag
  nv_written ← read_optional read_flag
  template_hash ← read_optional read_bytes
  parameters_hash ← read_optional read_bytes
  physical_presence_required ← read_flag
  secure_channel_required ← read_flag
  secure_channel_key_hash ← read_optional read_bytes
  expiration ← read_optional read_u64
  timeout_nonce ← read_bytes
  pure (record {
    digest = digest;
    command_code = command_code;
    cp_hash = cp_hash;
    name_hash = name_hash;
    locality = locality;
    pcr_update_counter = pcr_update_counter;
    auth_value_needed = auth_value_needed;
    password_needed = password_needed;
    nv_written = nv_written;
    template_hash = template_hash;
    parameters_hash = parameters_hash;
    physical_presence_required = physical_presence_required;
    secure_channel_required = secure_channel_required;
    secure_channel_key_hash = secure_channel_key_hash;
    expiration = expiration;
    timeout_nonce = timeout_nonce;
  })
