-- ===== src/Commands/Policy/Steps.antt =====
-- What the policy commands of src/tpm/commands/policy.rs do to a policy session: a step returns its
-- result and the session that it leaves, also where it fails.
use swtrust.Base.{
  ℕ, Bool, true, false, not, ◌&&◌, ◌||◌, Option, none, some, List, [], ◌∷◌, ◌++◌, ◌==◌,
  if◌then◌else◌, length, replicate, bit_and,
}
use swtrust.Constants.Rc
use swtrust.Constants.Cc
use swtrust.Constants.Handles
use swtrust.Error.{TpmRc, TpmResult, ok, err, with_parameter}
use swtrust.Error
use swtrust.Marshal.Bytes.{to_be_bytes}
use swtrust.Crypto.Hash.{Crypto, digest_size}
use swtrust.Sessions.Policy.{PolicyState}
use swtrust.Sessions.Session.{Session, is_trial, eq_octets, is_empty, extend_policy}

-- A function of `&mut Session`.
abbrev pub Step {ℓ} : Type ℓ → Type ℓ
Step A = Session → TpmResult A × Session

abbrev pub continue {ℓ κ} :
    {A : Type ℓ} {B : Type κ} → TpmResult A × Session → (A → Step B) → TpmResult B × Session
continue (ok x, s) f = f x s
continue (err e, s) f = (err e, s)

infixl 5 ◌>>=◌ ◌>>◌
abbrev pub ◌>>=◌ {ℓ κ} : {A : Type ℓ} {B : Type κ} → Step A → (A → Step B) → Step B
◌>>=◌ m f s = continue (m s) f

abbrev pub ◌>>◌ {ℓ} : {B : Type ℓ} → Step (Unit {0}) → Step B → Step B
m >> k = m >>= λ _. k

-- `f(s)?` for an `f` that only reads, and `if bad(s) { return Err(e) }`.
abbrev pub reads {ℓ} : {A : Type ℓ} → (Session → TpmResult A) → Step A
reads f s = (f s, s)

abbrev pub refuse_if : (Session → Bool) → TpmRc → Step (Unit {0})
refuse_if bad e s = (Error.refuse_if (bad s) e, s)

-- An assignment to fields of `s.policy`.
abbrev pub assign : (PolicyState → PolicyState) → Step (Unit {0})
assign f s = (ok tt, record s { policy = f s.policy })

abbrev pub stored : TpmResult Session → Step (Unit {0})
stored (ok s') s = (ok tt, s')
stored (err e) s = (err e, s)

-- `s.extend_policy(command_code, data)?`
unfoldable pub extend : Crypto → ℕ → List ℕ → Step (Unit {0})
extend c command_code octets s = stored (extend_policy c s command_code octets) s

-- `s.policy.digest = vec![0u8; hash::digest_size(s.auth_hash)?]`
unfoldable pub restart_digest : Crypto → Step (Unit {0})
restart_digest c = do
  size ← reads (λ s. digest_size c s.auth_hash)
  assign (λ p. record p { digest = replicate size 0 })

abbrev pub sized_as : TpmResult ℕ → ℕ → ℕ → TpmResult (Unit {0})
sized_as (err e) size parameter = err e
sized_as (ok wanted) size parameter =
    Error.refuse_if (not (size == wanted)) (with_parameter Rc.size parameter)

unfoldable pub check_digest_size : Crypto → Session → List ℕ → ℕ → TpmResult (Unit {0})
check_digest_size c s digest parameter =
    if is_trial s then ok tt else sized_as (digest_size c s.auth_hash) (length digest) parameter

abbrev pub is_some {ℓ} : {A : Type ℓ} → Option A → Bool
is_some none = false
is_some (some x) = true

unfoldable pub shared_cp_hash_taken : Session → Bool
shared_cp_hash_taken s =
    if is_trial s
    then false
    else not (s.bind == Handles.rh_null)
      || is_some s.policy.cp_hash
      || is_some s.policy.name_hash
      || is_some s.policy.parameters_hash
      || is_some s.policy.template_hash

-- `self.as_deref() == Some(octets)`
abbrev pub is_value : Option (List ℕ) → List ℕ → Bool
is_value none octets = false
is_value (some v) octets = eq_octets v octets

abbrev pub any_branch : List (List ℕ) → List ℕ → Bool
any_branch [] digest = false
any_branch (d ∷ ds) digest = eq_octets d digest || any_branch ds digest

abbrev pub concat : List (List ℕ) → List ℕ
concat [] = []
concat (d ∷ ds) = d ++ concat ds

unfoldable pub policy_or : Crypto → List (List ℕ) → Step (Unit {0})
unfolding restart_digest extend
policy_or c digests = do
  refuse_if (λ s. not (is_trial s) && not (any_branch digests s.policy.digest))
      (with_parameter Rc.value 1)
  restart_digest c
  extend c Cc.policy_or (concat digests)

-- What the counter recorded allows at `counter`.
abbrev pub recorded : Option ℕ → ℕ → Step (Unit {0})
recorded none counter = assign (λ p. record p { pcr_update_counter = some counter })
recorded (some old) counter = refuse_if (λ s. not (old == counter)) Rc.pcr_changed

abbrev pub record_counter : ℕ → Step (Unit {0})
record_counter counter s =
    if is_trial s then (ok tt, s) else recorded s.policy.pcr_update_counter counter s

-- The octets that the digest covers: a trial session takes the selection as it came, and the digest
-- that the caller claims.
abbrev pub pcr_octets : Bool → List ℕ → List ℕ → List ℕ → List ℕ → List ℕ
pcr_octets trial given filtered expected digest =
    (if trial then given else filtered)
    ++ (if trial && not (is_empty expected) then expected else digest)

-- `given` and `filtered` are the two selections marshalled, and `digest` is over the registers of the
-- filtered one.
unfoldable pub policy_pcr : Crypto → List ℕ → List ℕ → List ℕ → List ℕ → ℕ → Step (Unit {0})
unfolding extend
policy_pcr c expected given filtered digest counter = do
  refuse_if (λ s. not (is_trial s) && (not (is_empty expected) && not (eq_octets expected digest)))
      (with_parameter Rc.value 1)
  record_counter counter
  octets ← reads (λ s. ok (pcr_octets (is_trial s) given filtered expected digest))
  extend c Cc.policy_pcr octets

-- A second locality narrows the first.
abbrev pub narrowed : Option ℕ → ℕ → ℕ
narrowed none locality = locality
narrowed (some existing) locality = bit_and existing locality

unfoldable pub policy_locality : Crypto → ℕ → Step (Unit {0})
unfolding extend
policy_locality c locality = do
  refuse_if (λ s. locality == 0 && not (is_trial s)) (with_parameter Rc.range 1)
  combined ← reads (λ s. ok (narrowed s.policy.locality locality))
  refuse_if (λ s. is_some s.policy.locality && (combined == 0 && not (is_trial s)))
      (with_parameter Rc.range 1)
  extend c Cc.policy_locality (locality ∷ [])
  assign (λ p. record p { locality = some combined })

abbrev pub differs : Option ℕ → ℕ → Bool
differs none code = false
differs (some existing) code = not (existing == code)

-- `implemented` is `table::lookup(code).is_some()`.
unfoldable pub policy_command_code : Crypto → Bool → ℕ → Step (Unit {0})
unfolding extend
policy_command_code c implemented code = do
  refuse_if (λ s. not (is_trial s) && not implemented) (with_parameter Rc.value 1)
  refuse_if (λ s. not (is_trial s) && differs s.policy.command_code code)
      (with_parameter Rc.value 1)
  extend c Cc.policy_command_code (to_be_bytes 4 code)
  assign (λ p. record p { command_code = some code })
