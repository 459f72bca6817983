-- ===== src/Commands/Policy/Plans.antt =====
-- What each policy command asserts, apart from how its handler goes about it: what refuses it, and the
-- digest and the fields that it leaves. src/tpm/commands/policy.rs.
use swtrust.Base.{
  ℕ, ◌≡◌, Bool, true, false, not, ◌&&◌, ◌||◌, Option, none, some, List, [], ◌∷◌, ◌==◌,
  if◌then◌else◌, replicate, length,
}
use swtrust.Constants.Cc
use swtrust.Constants.Rc
use swtrust.Error.{TpmRc, TpmResult, ok, err, >>=-of-ok, with_parameter}
use swtrust.Marshal.Bytes.{to_be_bytes}
use swtrust.Crypto.Hash.{Crypto, IsSupported, digest_size, digest_parts, output_len}
use swtrust.Crypto.Hash
use swtrust.Sessions.Policy.{PolicyState, flag_octet}
use swtrust.Sessions.Session.{Session, is_trial, eq_octets, is_empty}
use swtrust.Commands.Policy.Steps.{
  Step, policy_or, policy_pcr, policy_locality, policy_command_code, pcr_octets, narrowed,
  any_branch, concat, differs, is_value, shared_cp_hash_taken,
}
use swtrust.Commands.Policy.Assertions.{
  policy_physical_presence, policy_auth_value, policy_password, policy_nv_written, policy_cp_hash,
  policy_name_hash, policy_template, policy_parameters, policy_duplication_select, other_than,
  template_slot, duplication_octets,
}

-- The policy commands that change nothing but a policy session, with what their handlers hand to them.
pub data Assertion : Type 0 where
  branches : List (List ℕ) → Assertion
  pcr : List ℕ → List ℕ → List ℕ → List ℕ → ℕ → Assertion
  locality : ℕ → Assertion
  command_code : Bool → ℕ → Assertion
  physical_presence : Assertion
  auth_value : Assertion
  password : Assertion
  nv_written : Bool → Assertion
  cp_hash : List ℕ → Assertion
  name_hash : List ℕ → Assertion
  template : List ℕ → Assertion
  parameters : List ℕ → Assertion
  duplication_select : List ℕ → List ℕ → Bool → Assertion

unfoldable pub asserted : Crypto → Assertion → Step (Unit {0})
asserted c (branches digests) = policy_or c digests
asserted c (pcr expected given filtered digest counter) =
    policy_pcr c expected given filtered digest counter
asserted c (locality l) = policy_locality c l
asserted c (command_code implemented code) = policy_command_code c implemented code
asserted c physical_presence = policy_physical_presence c
asserted c auth_value = policy_auth_value c
asserted c password = policy_password c
asserted c (nv_written written) = policy_nv_written c written
asserted c (cp_hash h) = policy_cp_hash c h
asserted c (name_hash h) = policy_name_hash c h
asserted c (template h) = policy_template c h
asserted c (parameters h) = policy_parameters c h
asserted c (duplication_select object parent include) =
    policy_duplication_select c object parent include

pub digest_parts_ok :
    (c : Crypto) (a : ℕ) (parts : List (List ℕ))
    → IsSupported c a
    → (d : List ℕ) × (digest_parts c a parts ≡ ok d)
unfolding digest_parts Hash.new
digest_parts_ok c a parts h = (_, >>=-of-ok _ (>>=-of-ok _ h))

pub digest_size_ok : (c : Crypto) (a : ℕ) → IsSupported c a → digest_size c a ≡ ok (output_len a)
unfolding digest_size
digest_size_ok c a h = >>=-of-ok _ h

-- The digest that an assertion extends, what it extends it with, and the fields that it leaves beside
-- the digest.
pub record Plan : Type 0 where
  pub base : List ℕ
  pub code : ℕ
  pub octets : List ℕ
  pub fields : PolicyState

-- Where the assertion is not refused, the digest is extended; where it is, nothing changes.
abbrev pub settle : Session → PolicyState → TpmResult (List ℕ) → TpmResult (Unit {0}) × Session
settle s fields (ok d) = (ok tt, record s { policy = record fields { digest = d } })
settle s fields (err e) = (err e, s)

abbrev pub carried_out : Crypto → Session → TpmResult Plan → TpmResult (Unit {0}) × Session
carried_out c s (err e) = (err e, s)
carried_out c s (ok p) =
    settle s p.fields (digest_parts c s.auth_hash (p.base ∷ to_be_bytes 4 p.code ∷ p.octets ∷ []))

-- A plan that keeps the digest so far, unless a guard refuses.
abbrev pub plain_plan : Session → ℕ → List ℕ → PolicyState → Plan
plain_plan s code octets fields = record {
  base = s.policy.digest;
  code = code;
  octets = octets;
  fields = fields;
}

abbrev pub unless : Bool → TpmRc → TpmResult Plan → TpmResult Plan
unless bad e p = if bad then err e else p

-- What a session that is no trial is refused for.
abbrev pub bound : Session → Bool → Bool
bound s bad = not (is_trial s) && bad

abbrev pub wrong_size : Session → List ℕ → Bool
wrong_size s digest = bound s (not (length digest == output_len s.auth_hash))

abbrev pub same_branch : Session → List (List ℕ) → Bool
same_branch s digests = any_branch digests s.policy.digest

abbrev pub wrong_counter : Option ℕ → ℕ → Bool
wrong_counter none counter = false
wrong_counter (some old) counter = not (old == counter)

abbrev pub counter_field : Session → ℕ → PolicyState
counter_field s counter =
    if is_trial s then s.policy else record (s.policy) { pcr_update_counter = some counter }

abbrev pub no_locality : Session → ℕ → Bool
no_locality s l = l == 0 || narrowed s.policy.locality l == 0

unfoldable pub plan : Crypto → Assertion → Session → TpmResult Plan
plan c (branches digests) s =
    unless (bound s (not (same_branch s digests))) (with_parameter Rc.value 1) (
      ok (record {
        base = replicate (output_len s.auth_hash) 0;
        code = Cc.policy_or;
        octets = concat digests;
        fields = s.policy;
      }))
plan c (pcr expected given filtered digest counter) s =
    unless (bound s (not (is_empty expected) && not (eq_octets expected digest)))
      (with_parameter Rc.value 1)
      (unless (bound s (wrong_counter s.policy.pcr_update_counter counter)) Rc.pcr_changed (
        ok (
          plain_plan s Cc.policy_pcr (pcr_octets (is_trial s) given filtered expected digest)
            (counter_field s counter))))
plan c (locality l) s = unless (bound s (no_locality s l)) (with_parameter Rc.range 1) (
    ok (
      plain_plan s Cc.policy_locality (l ∷ [])
        (record (s.policy) { locality = some (narrowed s.policy.locality l) })))
plan c (command_code implemented code) s =
    unless (bound s (not implemented || differs s.policy.command_code code))
      (with_parameter Rc.value 1)
      (ok (
        plain_plan s Cc.policy_command_code (to_be_bytes 4 code)
          (record (s.policy) { command_code = some code })))
plan c physical_presence s = ok (
    plain_plan s Cc.policy_physical_presence []
      (record (s.policy) { physical_presence_required = true }))
plan c auth_value s = ok (
    plain_plan s Cc.policy_auth_value []
      (record (s.policy) { auth_value_needed = true; password_needed = false }))
plan c password s = ok (
    plain_plan s Cc.policy_auth_value []
      (record (s.policy) { auth_value_needed = false; password_needed = true }))
plan c (nv_written written) s =
    unless (bound s (other_than s.policy.nv_written written)) (with_parameter Rc.value 1) (
      ok (
        plain_plan s Cc.policy_nv_written (flag_octet written ∷ [])
          (record (s.policy) { nv_written = some written })))
plan c (cp_hash h) s = unless (wrong_size s h) (with_parameter Rc.size 1) (
    unless (shared_cp_hash_taken s && not (is_value s.policy.cp_hash h)) Rc.cphash
      (ok (plain_plan s Cc.policy_cp_hash h (record (s.policy) { cp_hash = some h }))))
plan c (name_hash h) s = unless (wrong_size s h) (with_parameter Rc.size 1) (
    unless (shared_cp_hash_taken s) Rc.cphash
      (ok (plain_plan s Cc.policy_name_hash h (record (s.policy) { name_hash = some h }))))
plan c (template h) s =
    unless (wrong_size s h) (with_parameter Rc.size 1)
      (elim (template_slot s.policy.template_hash h s) [
        | err e ↦ err e
        | ok _ ↦
            ok (plain_plan s Cc.policy_template h (record (s.policy) { template_hash = some h }))
      ])
plan c (parameters h) s = unless (wrong_size s h) (with_parameter Rc.size 1) (
    unless (shared_cp_hash_taken s) Rc.cphash
      (ok (plain_plan s Cc.policy_parameters h (record (s.policy) { parameters_hash = some h }))))
plan c (duplication_select object parent include) s =
    elim (digest_parts c s.auth_hash (object ∷ parent ∷ [])) [
      | err e ↦ err e
      | ok both ↦ unless (shared_cp_hash_taken s) Rc.cphash (
          ok (
            plain_plan s Cc.policy_duplication_select (duplication_octets include object parent)
              (record (s.policy) { name_hash = some both; command_code = some Cc.duplicate })))
    ]
