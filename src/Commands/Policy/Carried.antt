-- ===== src/Commands/Policy/Carried.antt =====
-- The handlers of src/tpm/commands/policy.rs against the plans of their assertions.
use swtrust.Base.{
  ℕ, ◌≡◌, refl, ap, ◌∙◌, Bool, true, false, not, ◌&&◌, List, [], ◌∷◌, arith, replicate,
}
use swtrust.Constants.Cc
use swtrust.Constants.Rc
use swtrust.Error.{TpmRc, TpmResult, ok, err, >>=-of-ok, with_parameter}
use swtrust.Error
use swtrust.Marshal.Bytes.{to_be_bytes}
use swtrust.Crypto.Hash.{Crypto, IsSupported, output_len}
use swtrust.Sessions.Session.{Session, extend_policy, is_trial, set_policy_digest}
use swtrust.Commands.Policy.Steps
use swtrust.Commands.Policy.Steps.{
  Step, continue, reads, refuse_if, assign, stored, extend, restart_digest, policy_or, recorded,
  record_counter, policy_pcr, policy_locality, policy_command_code, pcr_octets, narrowed,
  any_branch, concat, differs, is_some, is_value, check_digest_size, sized_as, shared_cp_hash_taken,
}
use swtrust.Commands.Policy.Assertions.{
  policy_physical_presence, policy_auth_value, policy_password, policy_nv_written, policy_cp_hash,
  policy_name_hash, policy_template, policy_parameters, policy_duplication_select,
}
use swtrust.Commands.Policy.Plans.{
  asserted, carried_out, plan, unless, Assertion, branches, pcr, locality, command_code,
  physical_presence, auth_value, password, nv_written, cp_hash, name_hash, template, parameters,
  duplication_select, digest_parts_ok, digest_size_ok,
}

-- Each handler, against what it asserts.
module _ (c : Crypto) (s : Session) (sup : IsSupported c s.auth_hash) where
  restart_lem : restart_digest c s ≡ (
    ok tt,
    record s { policy = record (s.policy) { digest = replicate (output_len s.auth_hash) 0 } },
  )
  unfolding restart_digest
  restart_lem =
      ap (λ r. continue (r, s) (λ size. assign (λ p. record p { digest = replicate size 0 })))
        (digest_size_ok c s.auth_hash sup)

  branches_unless :
      (digests : List (List ℕ)) (bad : Bool)
      → continue
          (Error.refuse_if bad (with_parameter Rc.value 1), s)
          (λ _. Steps.◌>>◌ (restart_digest c) (extend c Cc.policy_or (concat digests)))
        ≡ carried_out c s (
            unless bad (with_parameter Rc.value 1) (
              ok (record {
                base = replicate (output_len s.auth_hash) 0;
                code = Cc.policy_or;
                octets = concat digests;
                fields = s.policy;
              })))
  unfolding extend extend_policy set_policy_digest
  branches_unless digests true = refl
  branches_unless digests false =
      ap (λ r. continue r (λ _. extend c Cc.policy_or (concat digests))) restart_lem
      ∙ ground (
        arith,
        digest_parts_ok c s.auth_hash
            (replicate (output_len s.auth_hash) 0
              ∷ to_be_bytes 4 Cc.policy_or
              ∷ concat digests
              ∷ [])
            sup,
      )

  branches-plan :
      (digests : List (List ℕ))
      → asserted c (branches digests) s ≡ carried_out c s (plan c (branches digests) s)
  unfolding asserted plan policy_or
  branches-plan digests =
      branches_unless digests (not (is_trial s) && not (any_branch digests s.policy.digest))

  pcr-plan :
      (e g f d : List ℕ) (n : ℕ)
      → asserted c (pcr e g f d n) s ≡ carried_out c s (plan c (pcr e g f d n) s)
  unfolding asserted plan is_trial policy_pcr extend extend_policy set_policy_digest
  pcr-plan e g f d n = ground (
    arith,
    digest_parts_ok c s.auth_hash
        (s.policy.digest ∷ to_be_bytes 4 Cc.policy_pcr ∷ pcr_octets (is_trial s) g f e d ∷ []) sup,
  )

  locality-plan : (l : ℕ) → asserted c (locality l) s ≡ carried_out c s (plan c (locality l) s)
  unfolding asserted plan extend extend_policy set_policy_digest policy_locality
  locality-plan l = ground arith

  command_code-plan :
      (i : Bool) (code : ℕ)
      → asserted c (command_code i code) s ≡ carried_out c s (plan c (command_code i code) s)
  unfolding asserted plan extend extend_policy set_policy_digest policy_command_code
  command_code-plan i code = ground arith

  physical_presence-plan :
      asserted c physical_presence s ≡ carried_out c s (plan c physical_presence s)
  unfolding asserted plan extend extend_policy set_policy_digest policy_physical_presence
  physical_presence-plan = ground arith

  auth_value-plan : asserted c auth_value s ≡ carried_out c s (plan c auth_value s)
  unfolding asserted plan extend extend_policy set_policy_digest policy_auth_value
  auth_value-plan = ground arith

  password-plan : asserted c password s ≡ carried_out c s (plan c password s)
  unfolding asserted plan extend extend_policy set_policy_digest policy_password
  password-plan = ground arith

  nv_written-plan :
      (w : Bool) → asserted c (nv_written w) s ≡ carried_out c s (plan c (nv_written w) s)
  unfolding asserted plan extend extend_policy set_policy_digest policy_nv_written
  nv_written-plan w = ground arith

  cp_hash-plan : (h : List ℕ) → asserted c (cp_hash h) s ≡ carried_out c s (plan c (cp_hash h) s)
  unfolding asserted plan extend extend_policy set_policy_digest policy_cp_hash check_digest_size
  cp_hash-plan h = ground (arith, digest_size_ok c s.auth_hash sup)

  name_hash-plan :
      (h : List ℕ) → asserted c (name_hash h) s ≡ carried_out c s (plan c (name_hash h) s)
  unfolding asserted plan extend extend_policy set_policy_digest policy_name_hash check_digest_size
  name_hash-plan h = ground (arith, digest_size_ok c s.auth_hash sup)

  template-plan : (h : List ℕ) → asserted c (template h) s ≡ carried_out c s (plan c (template h) s)
  unfolding asserted plan extend extend_policy set_policy_digest policy_template check_digest_size
  template-plan h = ground (arith, digest_size_ok c s.auth_hash sup)

  parameters-plan :
      (h : List ℕ) → asserted c (parameters h) s ≡ carried_out c s (plan c (parameters h) s)
  unfolding asserted plan extend extend_policy set_policy_digest policy_parameters check_digest_size
  parameters-plan h = ground (arith, digest_size_ok c s.auth_hash sup)

  duplication_select-plan :
      (o p : List ℕ) (i : Bool)
      → asserted c (duplication_select o p i) s
        ≡ carried_out c s (plan c (duplication_select o p i) s)
  unfolding asserted plan extend extend_policy set_policy_digest policy_duplication_select
  duplication_select-plan o p i = ground arith

  -- Under an algorithm that is implemented, each of the thirteen handlers does what its plan says: it
  -- extends the digest with the command code and the octets of the plan and leaves the plan's fields, or
  -- it refuses with the plan's code and leaves the session as it was.
  pub asserted-plan : (a : Assertion) → asserted c a s ≡ carried_out c s (plan c a s)
  asserted-plan (branches digests) = branches-plan digests
  asserted-plan (pcr e g f d n) = pcr-plan e g f d n
  asserted-plan (locality l) = locality-plan l
  asserted-plan (command_code i code) = command_code-plan i code
  asserted-plan physical_presence = physical_presence-plan
  asserted-plan auth_value = auth_value-plan
  asserted-plan password = password-plan
  asserted-plan (nv_written w) = nv_written-plan w
  asserted-plan (cp_hash h) = cp_hash-plan h
  asserted-plan (name_hash h) = name_hash-plan h
  asserted-plan (template h) = template-plan h
  asserted-plan (parameters h) = parameters-plan h
  asserted-plan (duplication_select o p i) = duplication_select-plan o p i
