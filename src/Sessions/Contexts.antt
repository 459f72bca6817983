-- ===== src/Sessions/Contexts.antt =====
-- A policy that a saved context carries is rebuilt whole. src/tpm/core/session.rs.
use swtrust.Base.{
  ℕ, ◌^◌, ◌<◌, ◌≡◌, Bool, true, false, not, Option, none, some, List, [], ◌∷◌, ◌++◌, ◌==◌, length,
}
use swtrust.Error.{ok}
use swtrust.Marshal.Bytes.{to_be_bytes}
use swtrust.Marshal.Read.{
  Read, ◌>>=◌, pure, read, read_u8, read_u16, read_u32, read_u64, from_bytes,
}
use swtrust.Marshal.Read.Laws.{
  Reads, Reads->>=, Reads-pure, Reads-fmap, Reads-read, Reads-read_u8, Reads-read_u16,
  Reads-read_u32, Reads-read_u64,
}
use swtrust.Marshal.Write.{Writer, to_bytes, write_u8, write_u32, write_u64, sized16}
use swtrust.Marshal.Write.Laws.{
  Writes, Writes_then, Writes-write_u8, Writes-write_u32, Writes-write_u64, Writes-sized16,
}
use swtrust.Marshal.RoundTrip.{round_trip}
use swtrust.Sessions.Policy.{
  PolicyState, flag_octet, write_optional, ◌then_write◌, marshal, read_bytes, none_if_zero,
  read_optional, read_flag, unmarshal,
}

-- What `write` appends, `m` reads back as `x`.
abbrev Carries {ℓ} : {A : Type ℓ} → (Writer → Writer) → Read A → A → Type ℓ
Carries write m x = (bs : List ℕ) × Writes write bs × Reads m bs x

-- A field, and the fields after it.
Carries-then {ℓ κ} :
    {A : Type ℓ} {B : Type κ} (f g : Writer → Writer) (m : Read A) (k : A → Read B) (x : A) (y : B)
    → Carries f m x
    → Carries g (k x) y
    → Carries (f then_write g) (m >>= k) y
unfolding ◌then_write◌
Carries-then f g m k x y (bs, w, r) (cs, v, q) =
    (bs ++ cs, Writes_then f g bs cs w v, Reads->>= m k bs cs x y r q)

Carries-last {ℓ κ} :
    {A : Type ℓ} {B : Type κ} (f : Writer → Writer) (m : Read A) (k : A → B) (x : A)
    → Carries f m x
    → Carries f (m >>= λ a. pure (k a)) (k x)
Carries-last f m k x (bs, w, r) = (bs, w, Reads-fmap m k bs x r)

Carries-bytes : (b : List ℕ) → length b < 2 ^ 16 → Carries (sized16 b) read_bytes b
unfolding read_bytes
Carries-bytes b h = (
  to_be_bytes 2 (length b) ++ b,
  Writes-sized16 b h,
  Reads->>= read_u16 (λ n. read n) (to_be_bytes 2 (length b)) b (length b) b
      (Reads-read_u16 (length b) h) (Reads-read b),
)

Carries-flag : (v : Bool) → Carries (write_u8 (flag_octet v)) read_flag v
unfolding read_flag
Carries-flag true =
    (1 ∷ [], Writes-write_u8 1, Reads-fmap read_u8 (λ n. not (n == 0)) (1 ∷ []) 1 (Reads-read_u8 1))
Carries-flag false =
    (0 ∷ [], Writes-write_u8 0, Reads-fmap read_u8 (λ n. not (n == 0)) (0 ∷ []) 0 (Reads-read_u8 0))

-- Where there is a value, it satisfies `P`.
abbrev pub IfSome {ℓ κ} : {A : Type ℓ} → (A → Type κ) → Option A → Type κ
IfSome P none = Unit
IfSome P (some x) = P x

Carries-optional {ℓ κ} :
    {A : Type ℓ} (P : A → Type κ) (write : A → Writer → Writer) (value : Read A) (o : Option A)
    → ((x : A) → P x → Carries (write x) value x)
    → IfSome P o
    → Carries (write_optional write o) (read_optional value) o
unfolding read_optional
Carries-optional P write value none carries h = (
  0 ∷ [],
  Writes-write_u8 0,
  Reads->>= read_u8 (none_if_zero value) (0 ∷ []) [] 0 none (Reads-read_u8 0) (Reads-pure none),
)
Carries-optional P write value (some x) carries h =
    let (bs, w, r) = carries x h in
    (
      (1 ∷ []) ++ bs,
      Writes_then (write_u8 1) (write x) (1 ∷ []) bs (Writes-write_u8 1) w,
      Reads->>= read_u8 (none_if_zero value) (1 ∷ []) bs 1 (some x) (Reads-read_u8 1)
          (Reads-fmap value (λ a. some a) bs x r),
    )

abbrev pub IsShort : List ℕ → Type 0
IsShort b = length b < 2 ^ 16

-- The values have the widths of their Rust types, and no list is longer than a UINT16 can measure.
pub record IsStored (s : PolicyState) : Type 0 where
  pub digest : IsShort s.digest
  pub command_code : IfSome (λ c. c < 2 ^ 32) s.command_code
  pub cp_hash : IfSome IsShort s.cp_hash
  pub name_hash : IfSome IsShort s.name_hash
  pub pcr_update_counter : IfSome (λ c. c < 2 ^ 32) s.pcr_update_counter
  pub template_hash : IfSome IsShort s.template_hash
  pub parameters_hash : IfSome IsShort s.parameters_hash
  pub secure_channel_key_hash : IfSome IsShort s.secure_channel_key_hash
  pub expiration : IfSome (λ t. t < 2 ^ 64) s.expiration
  pub timeout_nonce : IsShort s.timeout_nonce

Carries-word :
    (o : Option ℕ)
    → IfSome (λ c. c < 2 ^ 32) o
    → Carries (write_optional write_u32 o) (read_optional read_u32) o
Carries-word o =
    Carries-optional (λ c. c < 2 ^ 32) write_u32 read_u32 o
      (λ v h. (to_be_bytes 4 v, Writes-write_u32 v, Reads-read_u32 v h))

Carries-hash :
    (o : Option (List ℕ))
    → IfSome IsShort o
    → Carries (write_optional sized16 o) (read_optional read_bytes) o
Carries-hash o = Carries-optional IsShort sized16 read_bytes o Carries-bytes

Carries-octet : (o : Option ℕ) → Carries (write_optional write_u8 o) (read_optional read_u8) o
Carries-octet none =
    Carries-optional (λ _. Unit {0}) write_u8 read_u8 none
      (λ v _. (v ∷ [], Writes-write_u8 v, Reads-read_u8 v)) tt
Carries-octet (some x) =
    Carries-optional (λ _. Unit {0}) write_u8 read_u8 (some x)
      (λ v _. (v ∷ [], Writes-write_u8 v, Reads-read_u8 v)) tt

Carries-long :
    (o : Option ℕ)
    → IfSome (λ c. c < 2 ^ 64) o
    → Carries (write_optional write_u64 o) (read_optional read_u64) o
Carries-long o =
    Carries-optional (λ c. c < 2 ^ 64) write_u64 read_u64 o
      (λ v h. (to_be_bytes 8 v, Writes-write_u64 v, Reads-read_u64 v h))

Carries-bool :
    (o : Option Bool)
    → Carries (write_optional (λ v. write_u8 (flag_octet v)) o) (read_optional read_flag) o
Carries-bool none =
    Carries-optional (λ _. Unit {0}) (λ v. write_u8 (flag_octet v)) read_flag none
      (λ v _. Carries-flag v) tt
Carries-bool (some x) =
    Carries-optional (λ _. Unit {0}) (λ v. write_u8 (flag_octet v)) read_flag (some x)
      (λ v _. Carries-flag v) tt

Carries-marshal : (s : PolicyState) → IsStored s → Carries (marshal s) unmarshal s
unfolding marshal unmarshal
Carries-marshal s h = Carries-then _ _ _ _ s.digest s (Carries-bytes s.digest h.digest) (
    Carries-then _ _ _ _ s.command_code s (Carries-word s.command_code h.command_code) (
      Carries-then _ _ _ _ s.cp_hash s (Carries-hash s.cp_hash h.cp_hash) (
        Carries-then _ _ _ _ s.name_hash s (Carries-hash s.name_hash h.name_hash) (
          Carries-then _ _ _ _ s.locality s (Carries-octet s.locality) (
            Carries-then _ _ _ _ s.pcr_update_counter s
              (Carries-word s.pcr_update_counter h.pcr_update_counter)
              (Carries-then _ _ _ _ s.auth_value_needed s (Carries-flag s.auth_value_needed) (
                Carries-then _ _ _ _ s.password_needed s (Carries-flag s.password_needed) (
                  Carries-then _ _ _ _ s.nv_written s (Carries-bool s.nv_written) (
                    Carries-then _ _ _ _ s.template_hash s
                      (Carries-hash s.template_hash h.template_hash)
                      (Carries-then _ _ _ _ s.parameters_hash s
                        (Carries-hash s.parameters_hash h.parameters_hash)
                        (Carries-then _ _ _ _ s.physical_presence_required s
                          (Carries-flag s.physical_presence_required)
                          (Carries-then _ _ _ _ s.secure_channel_required s
                            (Carries-flag s.secure_channel_required)
                            (Carries-then _ _ _ _ s.secure_channel_key_hash s
                              (Carries-hash s.secure_channel_key_hash h.secure_channel_key_hash)
                              (Carries-then _ _ _ _ s.expiration s
                                (Carries-long s.expiration h.expiration)
                                (Carries-last (sized16 s.timeout_nonce) read_bytes
                                  (λ n. record s { timeout_nonce = n }) s.timeout_nonce
                                  (Carries-bytes s.timeout_nonce h.timeout_nonce))))))))))))))))

-- Every assertion that a policy session has recorded comes back: the state that `unmarshal` rebuilds
-- from what `marshal` wrote is the state itself, where every value has the width of its type and no
-- octet string is longer than a UINT16 measures.
pub policy_round_trip :
    (s : PolicyState) → IsStored s → from_bytes unmarshal (to_bytes (marshal s)) ≡ ok s
policy_round_trip s h =
    let (bs, w, r) = Carries-marshal s h in round_trip (marshal s) unmarshal bs s w r
