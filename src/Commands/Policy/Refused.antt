-- ===== src/Commands/Policy/Refused.antt =====
-- Which assertions are refused, and what a refusal leaves. src/tpm/commands/policy.rs.
use swtrust.Base.{ℕ, ◌≡◌, refl, sym, ap, ◌∙◌, true, List, [], ◌∷◌, arith}
use swtrust.Error.{TpmRc, TpmResult, ok, err, is_ok}
use swtrust.Marshal.Bytes.{to_be_bytes}
use swtrust.Crypto.Hash.{Crypto, IsSupported, digest_parts}
use swtrust.Sessions.Policy.{PolicyState}
use swtrust.Sessions.Session.{Session, is_trial}
use swtrust.Commands.Policy.Steps.{shared_cp_hash_taken}
use swtrust.Commands.Policy.Plans.{
  asserted, Plan, settle, carried_out, plan, Assertion, branches, pcr, locality, command_code,
  physical_presence, auth_value, password, nv_written, cp_hash, name_hash, template, parameters,
  duplication_select, digest_parts_ok,
}
use swtrust.Commands.Policy.Carried.{asserted-plan}

-- Where an assertion is refused, under an algorithm that is implemented, the session is as it was: no
-- handler leaves a part of its work behind.
pub refused_untouched :
    (c : Crypto) (s : Session) (a : Assertion) {e : TpmRc}
    → IsSupported c s.auth_hash
    → (asserted c a s).0 ≡ err e
    → (asserted c a s).1 ≡ s
refused_untouched c s a sup h =
    ap (λ r. r.1) (asserted-plan c s sup a)
    ∙ from_plan (plan c a s) (sym (ap (λ r. r.0) (asserted-plan c s sup a)) ∙ h)
  where
    from_settle :
        (f : PolicyState) (r : TpmResult (List ℕ)) {e : TpmRc}
        → (settle s f r).0 ≡ err e
        → (settle s f r).1 ≡ s
    from_settle f (ok d) h = cc
    from_settle f (err e) h = refl

    from_plan :
        (r : TpmResult Plan) {e : TpmRc} → (carried_out c s r).0 ≡ err e → (carried_out c s r).1 ≡ s
    from_plan (err e) h = refl
    from_plan (ok p) h =
        from_settle p.fields
          (digest_parts c s.auth_hash (p.base ∷ to_be_bytes 4 p.code ∷ p.octets ∷ [])) h

trial_plan :
    (c : Crypto) (s : Session) (sup : IsSupported c s.auth_hash)
    → is_trial s ≡ true
    → (a : Assertion) → is_ok (plan c a s) ≡ true
unfolding plan shared_cp_hash_taken
trial_plan c s sup t (branches digests) = ground arith
trial_plan c s sup t (pcr e g f d n) = ground arith
trial_plan c s sup t (locality l) = ground arith
trial_plan c s sup t (command_code i code) = ground arith
trial_plan c s sup t physical_presence = refl
trial_plan c s sup t auth_value = refl
trial_plan c s sup t password = refl
trial_plan c s sup t (nv_written w) = ground arith
trial_plan c s sup t (cp_hash h) = ground arith
trial_plan c s sup t (name_hash h) = ground arith
trial_plan c s sup t (template h) = ground arith
trial_plan c s sup t (parameters h) = ground arith
trial_plan c s sup t (duplication_select o p i) =
    ground (arith, digest_parts_ok c s.auth_hash (o ∷ p ∷ []) sup)

carried_out-ok :
    (c : Crypto) (s : Session) (p : TpmResult Plan)
    → IsSupported c s.auth_hash
    → is_ok p ≡ true
    → (carried_out c s p).0 ≡ ok tt
carried_out-ok c s (err e) sup h = ground arith
carried_out-ok c s (ok p) sup h =
    ground
      (arith, digest_parts_ok c s.auth_hash (p.base ∷ to_be_bytes 4 p.code ∷ p.octets ∷ []) sup)

-- A trial session accepts every assertion, under an algorithm that is implemented: no guard of a handler
-- refuses it.
pub trial_accepts :
    (c : Crypto) (s : Session) (a : Assertion)
    → IsSupported c s.auth_hash
    → is_trial s ≡ true
    → (asserted c a s).0 ≡ ok tt
trial_accepts c s a sup t =
    ap (λ r. r.0) (asserted-plan c s sup a)
    ∙ carried_out-ok c s (plan c a s) sup (trial_plan c s sup t a)
