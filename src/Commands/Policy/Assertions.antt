-- ===== src/Commands/Policy/Assertions.antt =====
-- More steps of the policy commands of src/tpm/commands/policy.rs: the assertions that share one slot,
-- and those that set a flag.
use swtrust.Base.{
  ℕ, Bool, true, false, not, ◌&&◌, Option, none, some, List, [], ◌∷◌, ◌++◌, if◌then◌else◌,
}
use swtrust.Constants.Rc
use swtrust.Constants.Cc
use swtrust.Error.{TpmRc, TpmResult, ok, err, with_parameter}
use swtrust.Error
use swtrust.Crypto.Hash.{Crypto, digest_parts}
use swtrust.Sessions.Policy.{flag_octet}
use swtrust.Sessions.Session.{Session, is_trial, eq_octets}
use swtrust.Commands.Policy.Steps.{
  Step, ◌>>=◌, ◌>>◌, reads, refuse_if, assign, extend, check_digest_size, shared_cp_hash_taken,
  is_value,
}

unfoldable pub policy_physical_presence : Crypto → Step (Unit {0})
unfolding extend
policy_physical_presence c = do
  extend c Cc.policy_physical_presence []
  assign (λ p. record p { physical_presence_required = true })

unfoldable pub policy_auth_value : Crypto → Step (Unit {0})
unfolding extend
policy_auth_value c = do
  extend c Cc.policy_auth_value []
  assign (λ p. record p { auth_value_needed = true; password_needed = false })

-- The digest is that of `policy_auth_value`.
unfoldable pub policy_password : Crypto → Step (Unit {0})
unfolding extend
policy_password c = do
  extend c Cc.policy_auth_value []
  assign (λ p. record p { password_needed = true; auth_value_needed = false })

abbrev pub other_than : Option Bool → Bool → Bool
other_than none written = false
other_than (some true) written = not written
other_than (some false) written = written

unfoldable pub policy_nv_written : Crypto → Bool → Step (Unit {0})
unfolding extend
policy_nv_written c written = do
  refuse_if (λ s. other_than s.policy.nv_written written && not (is_trial s))
      (with_parameter Rc.value 1)
  extend c Cc.policy_nv_written (flag_octet written ∷ [])
  assign (λ p. record p { nv_written = some written })

unfoldable pub policy_cp_hash : Crypto → List ℕ → Step (Unit {0})
unfolding extend check_digest_size shared_cp_hash_taken
policy_cp_hash c cp_hash_a = do
  reads (λ s. check_digest_size c s cp_hash_a 1)
  refuse_if (λ s. shared_cp_hash_taken s && not (is_value s.policy.cp_hash cp_hash_a)) Rc.cphash
  extend c Cc.policy_cp_hash cp_hash_a
  assign (λ p. record p { cp_hash = some cp_hash_a })

unfoldable pub policy_name_hash : Crypto → List ℕ → Step (Unit {0})
unfolding extend check_digest_size shared_cp_hash_taken
policy_name_hash c name_hash = do
  reads (λ s. check_digest_size c s name_hash 1)
  refuse_if shared_cp_hash_taken Rc.cphash
  extend c Cc.policy_name_hash name_hash
  assign (λ p. record p { name_hash = some name_hash })

-- The guard of the template: another template is VALUE, another assertion in the slot CPHASH.
abbrev pub template_slot : Option (List ℕ) → List ℕ → Session → TpmResult (Unit {0})
template_slot none template_hash s = Error.refuse_if (shared_cp_hash_taken s) Rc.cphash
template_slot (some existing) template_hash s =
    Error.refuse_if (not (eq_octets existing template_hash) && not (is_trial s))
      (with_parameter Rc.value 1)

unfoldable pub policy_template : Crypto → List ℕ → Step (Unit {0})
unfolding extend check_digest_size shared_cp_hash_taken
policy_template c template_hash = do
  reads (λ s. check_digest_size c s template_hash 1)
  reads (λ s. template_slot s.policy.template_hash template_hash s)
  extend c Cc.policy_template template_hash
  assign (λ p. record p { template_hash = some template_hash })

unfoldable pub policy_parameters : Crypto → List ℕ → Step (Unit {0})
unfolding extend check_digest_size shared_cp_hash_taken
policy_parameters c p_hash = do
  reads (λ s. check_digest_size c s p_hash 1)
  refuse_if shared_cp_hash_taken Rc.cphash
  extend c Cc.policy_parameters p_hash
  assign (λ p. record p { parameters_hash = some p_hash })

abbrev pub duplication_octets : Bool → List ℕ → List ℕ → List ℕ
duplication_octets include_object object_name new_parent_name =
    (if include_object then object_name else [])
    ++ new_parent_name
    ++ flag_octet include_object ∷ []

unfoldable pub policy_duplication_select : Crypto → List ℕ → List ℕ → Bool → Step (Unit {0})
unfolding extend shared_cp_hash_taken
policy_duplication_select c object_name new_parent_name include_object = do
  both ← reads (λ s. digest_parts c s.auth_hash (object_name ∷ new_parent_name ∷ []))
  refuse_if shared_cp_hash_taken Rc.cphash
  extend c Cc.policy_duplication_select
      (duplication_octets include_object object_name new_parent_name)
  assign (λ p. record p { name_hash = some both; command_code = some Cc.duplicate })
