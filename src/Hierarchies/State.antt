-- ===== src/Hierarchies/State.antt =====
-- `Hierarchy` and `Hierarchies` of src/tpm/core/hierarchy.rs: what they hold, and what is read.
use swtrust.Base.{
  ℕ, zero, suc, ◌+◌, ◌-◌, ◌*◌, Bool, true, false, not, ◌&&◌, ◌||◌, Option, none, some, List, [],
  ◌∷◌, ◌++◌, ◌==◌, leb, if◌then◌else◌,
}
use swtrust.Constants.Rc
use swtrust.Constants.Alg
use swtrust.Constants.Config
use swtrust.Constants.Handles
use swtrust.Error.{TpmResult, ok, err, ◌>>=◌}
use swtrust.Crypto.Hash.{Crypto, digest}
use swtrust.Crypto.Hmac.{kdfa}
use swtrust.Structures.Base.{TpmtHa}

pub record Hierarchy : Type 0 where
  pub seed : List ℕ
  pub proof : List ℕ
  pub auth : List ℕ
  pub policy : TpmtHa
  pub enabled : Bool

abbrev is_nil : List ℕ → Bool
is_nil [] = true
is_nil (x ∷ xs) = false

unfoldable pub has_auth : Hierarchy → Bool
has_auth h = not (is_nil h.auth)

unfoldable pub has_policy : Hierarchy → Bool
has_policy h = not (h.policy.hash_alg == Alg.null) && not (is_nil h.policy.digest)

pub record Hierarchies : Type 0 where
  pub platform : Hierarchy
  pub owner : Hierarchy
  pub endorsement : Hierarchy
  pub null : Hierarchy
  pub platform_nv_enabled : Bool
  pub bootloader_secret : List ℕ
  pub firmware_code : List ℕ

-- `(first..=first + 0xFFFF).contains(&handle)`
abbrev pub in_range : ℕ → ℕ → Bool
in_range first handle = leb first handle && leb handle (first + 0xffff)

unfoldable pub base_of : ℕ → Option ℕ
base_of handle =
    if handle == Handles.fw_owner
    then some Handles.rh_owner
    else if handle == Handles.fw_endorsement
    then some Handles.rh_endorsement
    else if handle == Handles.fw_platform
    then some Handles.rh_platform
    else if handle == Handles.fw_null
    then some Handles.rh_null
    else if in_range Handles.svn_owner_base handle
    then some Handles.rh_owner
    else if in_range Handles.svn_endorsement_base handle
    then some Handles.rh_endorsement
    else if in_range Handles.svn_platform_base handle
    then some Handles.rh_platform
    else if in_range Handles.svn_null_base handle
    then some Handles.rh_null
    else none

abbrev svn_from : List ℕ → ℕ → Option ℕ
svn_from [] handle = none
svn_from (first ∷ rest) handle =
    if in_range first handle then some (handle - first) else svn_from rest handle

unfoldable pub svn_of : ℕ → Option ℕ
svn_of handle =
    svn_from
      (Handles.svn_owner_base ∷ Handles.svn_endorsement_base ∷ Handles.svn_platform_base
        ∷ Handles.svn_null_base ∷ [])
      handle

abbrev pub is_given : Option ℕ → Bool
is_given none = false
is_given (some h) = true

unfoldable pub is_limited : ℕ → Bool
is_limited handle = is_given (base_of handle)

abbrev reached : Option ℕ → Bool
reached none = true
reached (some svn) = leb svn Config.firmware_svn

unfoldable pub limited_secret_available : ℕ → Bool
limited_secret_available handle = reached (svn_of handle)

unfoldable pub get : ℕ → Hierarchies → TpmResult Hierarchy
get handle hs =
    if handle == Handles.rh_platform
    then ok hs.platform
    else if handle == Handles.rh_owner
    then ok hs.owner
    else if handle == Handles.rh_endorsement
    then ok hs.endorsement
    else if handle == Handles.rh_null
    then ok hs.null
    else err Rc.value

-- The labels, as the octets of their letters.
abbrev pub svn_secret : List ℕ
svn_secret = 83 ∷ 86 ∷ 78 ∷ 95 ∷ 83 ∷ 69 ∷ 67 ∷ 82 ∷ 69 ∷ 84 ∷ []

abbrev pub fw_secret : List ℕ
fw_secret = 70 ∷ 87 ∷ 95 ∷ 83 ∷ 69 ∷ 67 ∷ 82 ∷ 69 ∷ 84 ∷ []

abbrev pub h_svn_secret : List ℕ
h_svn_secret = 72 ∷ 95 ∷ svn_secret

abbrev pub h_fw_secret : List ℕ
h_fw_secret = 72 ∷ 95 ∷ fw_secret

abbrev pub h_seed_secret : List ℕ
h_seed_secret = 72 ∷ 95 ∷ 83 ∷ 69 ∷ 69 ∷ 68 ∷ 95 ∷ 83 ∷ 69 ∷ 67 ∷ 82 ∷ 69 ∷ 84 ∷ []

abbrev pub h_proof_secret : List ℕ
h_proof_secret = 72 ∷ 95 ∷ 80 ∷ 82 ∷ 79 ∷ 79 ∷ 70 ∷ 95 ∷ 83 ∷ 69 ∷ 67 ∷ 82 ∷ 69 ∷ 84 ∷ []

abbrev secret_bits : ℕ
secret_bits = Config.primary_seed_size * 8

-- The secret is hashed down once for each version from `svn` to the maximum: `times` rounds.
unfoldable pub hash_down : Crypto → ℕ → List ℕ → TpmResult (List ℕ)
hash_down c zero secret = ok secret
hash_down c (suc times) secret = do
  next ← digest c Config.context_integrity_hash_alg secret
  hash_down c times next

abbrev pub secret_for : Crypto → Hierarchies → Option ℕ → TpmResult (List ℕ × List ℕ)
secret_for c hs (some svn) = do
  secret ←
      kdfa c Config.context_integrity_hash_alg hs.bootloader_secret svn_secret [] [] secret_bits
  down ← hash_down c (Config.firmware_max_svn + 1 - svn) secret
  ok (down, h_svn_secret)
secret_for c hs none = do
  secret ←
      kdfa c Config.context_integrity_hash_alg hs.bootloader_secret fw_secret hs.firmware_code []
        secret_bits
  ok (secret, h_fw_secret)

unfoldable pub additional_secret : Crypto → ℕ → Hierarchies → TpmResult (List ℕ × List ℕ)
additional_secret c handle hs = secret_for c hs (svn_of handle)

-- The derivation for a limited hierarchy, over its base.
abbrev pub derive_limited :
    Crypto → ℕ → List ℕ → (Hierarchy → List ℕ) → Hierarchies → Option ℕ → TpmResult (List ℕ)
derive_limited c handle label pick hs none = err Rc.value
derive_limited c handle label pick hs (some base) =
    let derived = do
      (additional, additional_label) ← additional_secret c handle hs
      h ← get base hs
      kdfa c Config.context_integrity_hash_alg (pick h) label additional
          (additional_label ++ 0 ∷ []) secret_bits
    in if not (limited_secret_available handle) then err Rc.svn_limited else derived

-- `if let Ok(h) = self.get(handle)`
abbrev pub or_limited :
    Crypto
    → ℕ
    → List ℕ
    → (Hierarchy → List ℕ)
    → Hierarchies
    → TpmResult Hierarchy
    → TpmResult (List ℕ)
or_limited c handle label pick hs (ok h) = ok (pick h)
or_limited c handle label pick hs (err e) = derive_limited c handle label pick hs (base_of handle)

unfoldable pub derive :
    Crypto → ℕ → List ℕ → (Hierarchy → List ℕ) → Hierarchies → TpmResult (List ℕ)
derive c handle label pick hs = or_limited c handle label pick hs (get handle hs)

unfoldable pub seed_of : Crypto → ℕ → Hierarchies → TpmResult (List ℕ)
seed_of c handle hs = derive c handle h_seed_secret (λ h. h.seed) hs

unfoldable pub proof_of : Crypto → ℕ → Hierarchies → TpmResult (List ℕ)
proof_of c handle hs = derive c handle h_proof_secret (λ h. h.proof) hs

unfoldable pub is_hierarchy : ℕ → Bool
is_hierarchy handle =
    (handle == Handles.rh_platform)
    || (handle == Handles.rh_owner)
    || (handle == Handles.rh_endorsement)
    || (handle == Handles.rh_null)

unfoldable pub is_hierarchy_selector : ℕ → Bool
unfolding is_hierarchy
is_hierarchy_selector handle =
    is_hierarchy handle
    || (handle == Handles.fw_owner)
    || (handle == Handles.fw_platform)
    || (handle == Handles.fw_endorsement)
    || (handle == Handles.fw_null)
    || in_range Handles.svn_owner_base handle
    || in_range Handles.svn_platform_base handle
    || in_range Handles.svn_endorsement_base handle
    || in_range Handles.svn_null_base handle

-- `is_enabled` at a hierarchy that is no limited one.
abbrev pub base_enabled : ℕ → Hierarchies → Bool
base_enabled handle hs =
    if handle == Handles.rh_null
    then true
    else if handle == Handles.rh_platform
    then hs.platform.enabled
    else if handle == Handles.rh_owner
    then hs.owner.enabled
    else if handle == Handles.rh_endorsement
    then hs.endorsement.enabled
    else false

abbrev limited_enabled : Option ℕ → Hierarchies → Bool
limited_enabled none hs = false
limited_enabled (some base) hs = base_enabled base hs

-- The call on the base ends there, since a base is no limited hierarchy.
unfoldable pub is_enabled : ℕ → Hierarchies → Bool
unfolding is_hierarchy
is_enabled handle hs =
    if is_hierarchy handle then base_enabled handle hs else limited_enabled (base_of handle) hs
