-- ===== src/Sessions/Session.antt =====
-- `Session` of src/tpm/core/session.rs, and the functions beside it that compute keys, digests and
-- HMACs.
use swtrust.Base.{
  ℕ, zero, suc, ◌+◌, ◌*◌, ◌/◌, Bool, true, false, not, ◌&&◌, ◌||◌, List, [], ◌∷◌, ◌++◌, ◌==◌,
  if◌then◌else◌, length, get_or, take, drop, replicate,
}
use swtrust.Constants.Alg
use swtrust.Constants.Handles
use swtrust.Constants.Se
use swtrust.Error.{TpmResult, ok, ◌>>=◌, is_ok}
use swtrust.Marshal.Bytes.{to_be_bytes}
use swtrust.Crypto.Hash.{Crypto, algorithm, digest_size, digest_parts, update, update_all, finish}
use swtrust.Crypto.Hash
use swtrust.Crypto.Hmac.{hmac_parts, kdfa}
use swtrust.Protect.{constant_time_eq}
use swtrust.Structures.Schemes.{SymDef}
use swtrust.Sessions.Policy.{PolicyState, with_digest}

pub record AuditState : Type 0 where
  pub is_audit : Bool
  pub digest : List ℕ

-- A Zero Digest stands for an old digest of another size.
unfoldable pub extend_audit : Crypto → ℕ → List ℕ → List ℕ → List ℕ → TpmResult (List ℕ)
extend_audit c hash_alg digest cp_hash rp_hash = do
  size ← digest_size c hash_alg
  let old = if length digest == size then digest else replicate size 0
  digest_parts c hash_alg (old ∷ cp_hash ∷ rp_hash ∷ [])

pub record Session : Type 0 where
  pub handle : ℕ
  pub session_type : ℕ
  pub auth_hash : ℕ
  pub nonce_tpm : List ℕ
  pub nonce_caller : List ℕ
  pub session_key : List ℕ
  pub bind : ℕ
  pub bind_name : List ℕ
  pub bind_uses_lockout : Bool
  pub start_time : ℕ
  pub time_epoch : ℕ
  pub symmetric : SymDef
  pub policy : PolicyState
  pub audit : AuditState
  pub attributes : ℕ

unfoldable pub new :
    Crypto → ℕ → ℕ → ℕ → List ℕ → List ℕ → List ℕ → ℕ → List ℕ → SymDef → TpmResult Session
unfolding with_digest
new c handle session_type auth_hash nonce_tpm nonce_caller session_key bind bind_name symmetric = do
  digest_len ← digest_size c auth_hash
  ok (record {
    handle = handle;
    session_type = session_type;
    auth_hash = auth_hash;
    nonce_tpm = nonce_tpm;
    nonce_caller = nonce_caller;
    session_key = session_key;
    bind = bind;
    bind_name = bind_name;
    bind_uses_lockout = false;
    start_time = 0;
    time_epoch = 0;
    symmetric = symmetric;
    policy = with_digest (replicate digest_len 0);
    audit = record { is_audit = false; digest = [] };
    attributes = 0;
  })

unfoldable pub is_policy : Session → Bool
is_policy s = s.session_type == Se.policy || s.session_type == Se.trial

unfoldable pub is_trial : Session → Bool
is_trial s = s.session_type == Se.trial

unfoldable pub is_hmac : Session → Bool
is_hmac s = s.session_type == Se.hmac

-- The loop of `trim_auth`: where the octets up to `end` end once their trailing zeros are removed.
unfoldable pub trimmed_end : List ℕ → ℕ → ℕ
trimmed_end auth zero = zero
trimmed_end auth (suc end) =
    let shorter = trimmed_end auth end in if get_or auth end 0 == 0 then shorter else suc end

unfoldable pub trim_auth : List ℕ → List ℕ
unfolding trimmed_end
trim_auth auth = take (trimmed_end auth (length auth)) auth

unfoldable pub bind_id : List ℕ → List ℕ → List ℕ
bind_id name auth_value = name ++ trim_auth auth_value

abbrev pub is_empty : List ℕ → Bool
is_empty [] = true
is_empty (x ∷ xs) = false

-- `==` of two slices.
abbrev pub eq_octets : List ℕ → List ℕ → Bool
eq_octets [] [] = true
eq_octets [] (y ∷ ys) = false
eq_octets (x ∷ xs) [] = false
eq_octets (x ∷ xs) (y ∷ ys) = x == y && eq_octets xs ys

unfoldable pub is_bound_to : Session → List ℕ → List ℕ → Bool
is_bound_to s name auth_value =
    not (s.bind == Handles.rh_null)
    && (not (is_empty s.bind_name) && eq_octets s.bind_name (bind_id name auth_value))

-- Whether `hmac_key` appends the authorization value.
unfoldable pub wants_auth : Session → List ℕ → List ℕ → Bool
wants_auth s entity_name auth_value =
    if is_policy s then s.policy.auth_value_needed else not (is_bound_to s entity_name auth_value)

unfoldable pub hmac_key : Session → List ℕ → List ℕ → List ℕ
hmac_key s entity_name auth_value =
    if wants_auth s entity_name auth_value
    then s.session_key ++ trim_auth auth_value
    else s.session_key

unfoldable pub session_value : Session → List ℕ → List ℕ
session_value s auth_value = s.session_key ++ trim_auth auth_value

unfoldable pub restart_policy : Crypto → Session → TpmResult Session
restart_policy c s = do
  digest_len ← digest_size c s.auth_hash
  ok (record s { policy = with_digest (replicate digest_len 0) })

-- `self.policy.digest = digest`
unfoldable pub set_policy_digest : Session → List ℕ → Session
set_policy_digest s digest = record s { policy = record (s.policy) { digest = digest } }

unfoldable pub extend_policy : Crypto → Session → ℕ → List ℕ → TpmResult Session
extend_policy c s command_code octets = do
  digest ← digest_parts c s.auth_hash (s.policy.digest ∷ to_be_bytes 4 command_code ∷ octets ∷ [])
  ok (set_policy_digest s digest)

unfoldable pub auth_hmac_accepted : List ℕ → List ℕ → List ℕ → Bool
auth_hmac_accepted key expected supplied =
    if is_empty key && is_empty supplied then true else constant_time_eq expected supplied

-- The label "ATH".
abbrev pub label_session_key : List ℕ
label_session_key = 65 ∷ 84 ∷ 72 ∷ []

-- The label "CFB".
abbrev pub label_cfb : List ℕ
label_cfb = 67 ∷ 70 ∷ 66 ∷ []

-- `(digest_size * 8) as u32`: a digest has 64 octets at most.
unfoldable pub derive_session_key :
    Crypto → ℕ → Bool → List ℕ → List ℕ → List ℕ → List ℕ → TpmResult (List ℕ)
derive_session_key c auth_hash plain bind_auth salt nonce_tpm nonce_caller =
    let derived = do
      size ← digest_size c auth_hash
      kdfa c auth_hash (trim_auth bind_auth ++ salt) label_session_key nonce_tpm nonce_caller
          (size * 8)
    in if plain then ok [] else derived

unfoldable pub cp_hash : Crypto → ℕ → ℕ → List (List ℕ) → List ℕ → TpmResult (List ℕ)
cp_hash c hash_alg command_code names parameters = do
  h ← Hash.new c hash_alg
  ok (finish c (update (update_all (update h (to_be_bytes 4 command_code)) names) parameters))

unfoldable pub rp_hash : Crypto → ℕ → ℕ → ℕ → List ℕ → TpmResult (List ℕ)
rp_hash c hash_alg response_code command_code parameters =
    digest_parts c hash_alg
      (to_be_bytes 4 response_code ∷ to_be_bytes 4 command_code ∷ parameters ∷ [])

unfoldable pub auth_hmac_with_nonces :
    Crypto → ℕ → List ℕ → List ℕ → List ℕ → List ℕ → List ℕ → List ℕ → ℕ → TpmResult (List ℕ)
auth_hmac_with_nonces c auth_hash hmac_key p_hash newer older decrypt encrypt attributes =
    hmac_parts c auth_hash hmac_key
      (p_hash ∷ newer ∷ older ∷ decrypt ∷ encrypt ∷ (attributes ∷ []) ∷ [])

unfoldable pub auth_hmac : Crypto → ℕ → List ℕ → List ℕ → List ℕ → List ℕ → ℕ → TpmResult (List ℕ)
auth_hmac c auth_hash hmac_key p_hash newer older attributes =
    auth_hmac_with_nonces c auth_hash hmac_key p_hash newer older [] [] attributes

-- The key and the IV. `key_bits` is a `u16` and a block has a few octets, so that no `u32` overflows;
-- `out[..key_bytes]` is there, since the derivation gives as many octets as its bits need.
unfoldable pub parameter_encryption_key :
    Crypto → ℕ → List ℕ → List ℕ → List ℕ → List ℕ → ℕ → ℕ → TpmResult (List ℕ × List ℕ)
parameter_encryption_key c auth_hash session_key extra_key newer older key_bits iv_bytes = do
  out ←
      kdfa c auth_hash (session_key ++ trim_auth extra_key) label_cfb newer older
        (key_bits + iv_bytes * 8)
  ok (take (key_bits / 8) out, drop (key_bits / 8) out)

unfoldable pub is_session_type : ℕ → Bool
is_session_type t = t == Se.hmac || t == Se.policy || t == Se.trial

unfoldable pub empty_policy : Crypto → ℕ → TpmResult (List ℕ)
empty_policy c auth_hash = do size ← digest_size c auth_hash; ok (replicate size 0)

-- `hash::is_supported`
unfoldable pub is_supported : Crypto → ℕ → Bool
is_supported c hash_alg = is_ok (algorithm c hash_alg)

unfoldable pub is_valid_auth_hash : Crypto → ℕ → Bool
is_valid_auth_hash c alg_id = not (alg_id == Alg.null) && is_supported c alg_id
