-- ===== src/Commands/Policy/Restrictions.antt =====
-- What any sequence of assertions of src/tpm/commands/policy.rs leaves of the restrictions.
use swtrust.Base.{
  ℕ, ◌≡◌, inl, inr, sym, ap, ◌∙◌, subst, false, Option, none, some, List, [], ◌∷◌, ◌==◌, arith,
}
use swtrust.Constants.Se
use swtrust.Error.{TpmResult, ok, err}
use swtrust.Crypto.Hash.{Crypto, IsSupported, digest_parts}
use swtrust.Marshal.Bytes.{to_be_bytes}
use swtrust.Sessions.Policy.{PolicyState}
use swtrust.Sessions.Session.{Session, is_trial}
use swtrust.Commands.Policy.Steps.{Step, continue}
use swtrust.Commands.Policy.Plans.{asserted, Plan, settle, carried_out, plan, Assertion}
use swtrust.Commands.Policy.Carried.{asserted-plan}
use swtrust.Commands.Policy.Trials.{assert_all, keeps_kind}
use swtrust.Commands.Policy.Restricted.{Stays, Narrows, Restricts, IsExclusive, Restricts-refl}
use swtrust.Commands.Policy.Guarded.{Fine, plan-Fine}

continued :
    (s : Session) (r : TpmResult (Unit {0}) × Session) (k : Step (Unit {0}))
    → Restricts s.policy r.1.policy
    → IsExclusive r.1
    → Restricts s.policy (k r.1).1.policy
    → IsExclusive (k r.1).1
    → Restricts s.policy (continue r (λ _. k)).1.policy × IsExclusive (continue r (λ _. k)).1
continued s (ok _, t) k here x there y = (there, y)
continued s (err e, t) k here x there y = (here, x)

-- An assertion that is refused changes nothing, and one that is not keeps the rest of the session.
carried-Fine :
    (c : Crypto) (s : Session) (r : TpmResult Plan)
    → IsExclusive s
    → Fine s r
    → Restricts s.policy (carried_out c s r).1.policy × IsExclusive (carried_out c s r).1
carried-Fine c s (err e) x f = (Restricts-refl s.policy, x)
carried-Fine c s (ok p) x f =
    settled (digest_parts c s.auth_hash (p.base ∷ to_be_bytes 4 p.code ∷ p.octets ∷ []))
  where
    settled :
        (d : TpmResult (List ℕ))
        → Restricts s.policy (settle s p.fields d).1.policy × IsExclusive (settle s p.fields d).1
    settled (err e) = (Restricts-refl s.policy, x)
    settled (ok d) = (
      record {
        cp_hash = f.0.cp_hash;
        name_hash = f.0.name_hash;
        template_hash = f.0.template_hash;
        parameters_hash = f.0.parameters_hash;
        pcr_update_counter = f.0.pcr_update_counter;
        nv_written = f.0.nv_written;
        command_code = f.0.command_code;
        locality = f.0.locality;
        presence = f.0.presence;
        proof = f.0.proof;
      },
      record { slot = f.1.slot; proof = f.1.proof },
    )

Stays-trans {ℓ} : {A : Type ℓ} {x y z : Option A} → Stays x y → Stays y z → Stays x z
Stays-trans (inl e) h = inl e
Stays-trans (inr e) (inl f) = inl (sym e ∙ f)
Stays-trans (inr e) (inr f) = inr (f ∙ e)

Narrows-trans : (a b d : Option ℕ) → Narrows a b → Narrows b d → Narrows a d
Narrows-trans none b d h k = tt
Narrows-trans (some l) none d h k = absurd h
Narrows-trans (some l) (some m) none h k = absurd k
Narrows-trans (some l) (some m) (some n) h k =
    (λ i. ground (arith, h.0 i, k.0 i), ground (arith, h.1, k.1))

Restricts-trans : (p q r : PolicyState) → Restricts p q → Restricts q r → Restricts p r
Restricts-trans p q r h k = record {
  cp_hash = Stays-trans h.cp_hash k.cp_hash;
  name_hash = Stays-trans h.name_hash k.name_hash;
  template_hash = Stays-trans h.template_hash k.template_hash;
  parameters_hash = Stays-trans h.parameters_hash k.parameters_hash;
  pcr_update_counter = Stays-trans h.pcr_update_counter k.pcr_update_counter;
  nv_written = Stays-trans h.nv_written k.nv_written;
  command_code = ground (arith, h.command_code, k.command_code);
  locality = Narrows-trans p.locality q.locality r.locality h.locality k.locality;
  presence = ground (arith, h.presence, k.presence);
  proof = ground (arith, h.proof, k.proof);
}

asserted-Fine :
    (c : Crypto) (s : Session) (a : Assertion)
    → IsSupported c s.auth_hash
    → is_trial s ≡ false
    → IsExclusive s
    → (Restricts s.policy (asserted c a s).1.policy × IsExclusive (asserted c a s).1)
      × (((asserted c a s).1.session_type ≡ s.session_type)
          × ((asserted c a s).1.auth_hash ≡ s.auth_hash))
asserted-Fine c s a sup real x =
    subst
      (λ (r : TpmResult (Unit {0}) × Session).
        (Restricts s.policy r.1.policy × IsExclusive r.1)
        × ((r.1.session_type ≡ s.session_type) × (r.1.auth_hash ≡ s.auth_hash)))
      (sym (asserted-plan c s sup a))
      (carried-Fine c s (plan c a s) x (plan-Fine c s real x a), keeps_kind c s (plan c a s))

-- In a session that is no trial, under an algorithm that is implemented and with at most one use made
-- of the shared slot and not both an authorization value and a password asked for, no sequence of the
-- thirteen assertions, whether it is accepted or stops at a refusal, lifts a restriction: a cpHash, a
-- nameHash, a template, a parameter hash, a PCR update counter and a value of NV written that were
-- recorded stay as they are; a command code stays or becomes that of TPM2_Duplicate; the localities
-- only narrow, and some is left; physical presence stays required, and so does one of an
-- authorization value and a password. Still at most one of the bound entity and the four hashes has
-- the slot, and not both of the two proofs are asked for.
pub restrictions_stay :
    (c : Crypto) (s : Session) (assertions : List Assertion)
    → IsSupported c s.auth_hash
    → is_trial s ≡ false
    → IsExclusive s
    → Restricts s.policy (assert_all c assertions s).1.policy
      × IsExclusive (assert_all c assertions s).1
unfolding is_trial
restrictions_stay c s [] sup real x = (Restricts-refl s.policy, x)
restrictions_stay c s (a ∷ more) sup real x =
    let ((kept, exclusive), (kind, hash)) = asserted-Fine c s a sup real x in
    let s' = (asserted c a s).1 in
    let (keeps, excludes) =
      restrictions_stay c s' more (subst (IsSupported c) (sym hash) sup)
        (ap (λ k. k == Se.trial) kind ∙ real) exclusive in
    continued s (asserted c a s) (assert_all c more) kept exclusive
      (Restricts-trans s.policy s'.policy _ kept keeps) excludes
