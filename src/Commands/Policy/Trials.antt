-- ===== src/Commands/Policy/Trials.antt =====
-- What a trial session makes of the assertions of src/tpm/commands/policy.rs.
use swtrust.Base.{
  ℕ, ◌≡◌, refl, sym, ap, ◌∙◌, subst, true, false, ◌⊎◌, List, [], ◌∷◌, arith, inl, inr,
}
use swtrust.Error.{TpmResult, ok, err, is_ok}
use swtrust.Crypto.Hash.{Crypto, IsSupported}
use swtrust.Sessions.Session.{Session, is_trial, eq_octets}
use swtrust.Commands.Policy.Steps.{Step, continue, shared_cp_hash_taken}
use swtrust.Commands.Policy.Plans.{
  asserted, Plan, carried_out, plan, Assertion, branches, pcr, locality, command_code,
  physical_presence, auth_value, password, nv_written, cp_hash, name_hash, template, parameters,
  duplication_select, digest_parts_ok,
}
use swtrust.Commands.Policy.Carried.{asserted-plan}
use swtrust.Commands.Policy.Refused.{trial_accepts}

-- Whether the two selections of an assertion of registers, as it came and as it is implemented, agree.
abbrev pub IsWhole : Assertion → Type 0
IsWhole (pcr e given filtered d n) = given ≡ filtered
IsWhole _ = Unit

pub equal_octets : (a b : List ℕ) → (eq_octets a b ≡ false) ⊎ (a ≡ b)
equal_octets [] [] = inr refl
equal_octets [] (y ∷ ys) = inl refl
equal_octets (x ∷ xs) [] = inl refl
equal_octets (x ∷ xs) (y ∷ ys) = ground (arith, equal_octets xs ys)

module _ (c : Crypto) (s t : Session) (sup : IsSupported c s.auth_hash) (trial : is_trial t ≡ true)
    (real : is_trial s ≡ false) (hash : t.auth_hash ≡ s.auth_hash)
    (same : t.policy.digest ≡ s.policy.digest) where
  digests_agree :
      (a : Assertion)
      → IsWhole a
      → is_ok (carried_out c s (plan c a s)).0 ≡ true
      → (carried_out c t (plan c a t)).1.policy.digest
        ≡ (carried_out c s (plan c a s)).1.policy.digest
  unfolding plan shared_cp_hash_taken
  digests_agree (branches digests) w accepted = ground arith
  digests_agree (pcr e g f d n) w accepted = ground (arith, equal_octets e d)
  digests_agree (locality l) w accepted = ground arith
  digests_agree (command_code i code) w accepted = ground arith
  digests_agree physical_presence w accepted = ground arith
  digests_agree auth_value w accepted = ground arith
  digests_agree password w accepted = ground arith
  digests_agree (nv_written b) w accepted = ground arith
  digests_agree (cp_hash h) w accepted = ground arith
  digests_agree (name_hash h) w accepted = ground arith
  digests_agree (template h) w accepted = ground arith
  digests_agree (parameters h) w accepted = ground arith
  digests_agree (duplication_select o p i) w accepted =
      ground (arith, digest_parts_ok c s.auth_hash (o ∷ p ∷ []) sup)

-- Several assertions, one after the other, up to the first that is refused.
abbrev pub assert_all : Crypto → List Assertion → Step (Unit {0})
assert_all c [] s = (ok tt, s)
assert_all c (a ∷ more) s = continue (asserted c a s) (λ _. assert_all c more)

abbrev pub AllWhole : List Assertion → Type 0
AllWhole [] = Unit
AllWhole (a ∷ more) = IsWhole a × AllWhole more

pub keeps_kind :
    (c : Crypto) (s : Session) (p : TpmResult Plan)
    → ((carried_out c s p).1.session_type ≡ s.session_type)
      × ((carried_out c s p).1.auth_hash ≡ s.auth_hash)
keeps_kind c s (err e) = (refl, refl)
keeps_kind c s (ok p) = ground arith

abbrev Agree : TpmResult (Unit {0}) × Session → TpmResult (Unit {0}) × Session → Type 0
Agree x y = (is_ok x.0 ≡ true) × (x.1.policy.digest ≡ y.1.policy.digest)

continue-Agree :
    (x y : TpmResult (Unit {0}) × Session) (k : Step (Unit {0}))
    → is_ok x.0 ≡ true
    → (is_ok (k y.1).0 ≡ true → Agree (k x.1) (k y.1))
    → is_ok (continue y (λ _. k)).0 ≡ true
    → Agree (continue x (λ _. k)) (continue y (λ _. k))
continue-Agree (ok _, t) (ok _, s) k h ih both = ih both
continue-Agree (err e, t) y k h ih both = ground arith
continue-Agree (ok _, t) (err e, s) k h ih both = ground arith

-- What one assertion does to a session and to a trial of it.
record Trial (c : Crypto) (s t : Session) : Type 0 where
  supported : IsSupported c s.auth_hash
  trial : is_trial t ≡ true
  real : is_trial s ≡ false
  same_hash : t.auth_hash ≡ s.auth_hash
  same_digest : t.policy.digest ≡ s.policy.digest

asserted_both :
    (c : Crypto) (s t : Session) (a : Assertion)
    → Trial c s t
    → IsWhole a
    → is_ok (asserted c a s).0 ≡ true
    → Trial c (asserted c a s).1 (asserted c a t).1
unfolding is_trial
asserted_both c s t a h w accepted = record {
  supported = ground (arith, h.supported, kept_s);
  trial = ground (arith, h.trial, kept_t);
  real = ground (arith, h.real, kept_s);
  same_hash = ground (arith, h.same_hash, kept_s, kept_t);
  same_digest =
      ap left (asserted-plan c t supported_t a)
      ∙ digests_agree c s t h.supported h.trial h.real h.same_hash h.same_digest a w
          (sym (ap (λ r. is_ok r.0) (asserted-plan c s h.supported a)) ∙ accepted)
      ∙ sym (ap left (asserted-plan c s h.supported a));
}
  where
    left : TpmResult (Unit {0}) × Session → List ℕ
    left r = r.1.policy.digest

    supported_t : IsSupported c t.auth_hash
    supported_t = subst (λ a. IsSupported c a) (sym h.same_hash) h.supported

    kept :
        (s : Session)
        → IsSupported c s.auth_hash
        → ((asserted c a s).1.session_type ≡ s.session_type)
          × ((asserted c a s).1.auth_hash ≡ s.auth_hash)
    kept s sup =
        subst (λ r. (r.1.session_type ≡ s.session_type) × (r.1.auth_hash ≡ s.auth_hash))
          (sym (asserted-plan c s sup a)) (keeps_kind c s (plan c a s))

    kept_s :
        ((asserted c a s).1.session_type ≡ s.session_type)
        × ((asserted c a s).1.auth_hash ≡ s.auth_hash)
    kept_s = kept s h.supported

    kept_t :
        ((asserted c a t).1.session_type ≡ t.session_type)
        × ((asserted c a t).1.auth_hash ≡ t.auth_hash)
    kept_t = kept t supported_t

continue_first :
    (y : TpmResult (Unit {0}) × Session) (k : Step (Unit {0}))
    → is_ok (continue y (λ _. k)).0 ≡ true
    → is_ok y.0 ≡ true
continue_first (ok _, s) k h = refl
continue_first (err e, s) k h = ground arith

all_both :
    (c : Crypto) (s t : Session) (assertions : List Assertion)
    → Trial c s t
    → AllWhole assertions
    → is_ok (assert_all c assertions s).0 ≡ true
    → Agree (assert_all c assertions t) (assert_all c assertions s)
all_both c s t [] h w accepted = (refl, h.same_digest)
all_both c s t (a ∷ more) h w accepted =
    continue-Agree (asserted c a t) (asserted c a s) (assert_all c more)
      (ap is_ok
        (trial_accepts c t a (subst (λ a. IsSupported c a) (sym h.same_hash) h.supported) h.trial))
      (all_both c (asserted c a s).1 (asserted c a t).1 more
        (asserted_both c s t a h w.0 (continue_first (asserted c a s) (assert_all c more) accepted))
        w.1)
      accepted

-- The digest that a trial session computes for a policy is the one that a policy session reaches: where
-- a session that is no trial accepts a list of assertions, a trial session of the same algorithm that
-- starts at the same digest accepts them too, and ends at the same digest. The algorithm is one that is
-- implemented, and every selection of registers is of implemented ones.
pub trial_computes :
    (c : Crypto) (s t : Session) (assertions : List Assertion)
    → IsSupported c s.auth_hash
    → is_trial s ≡ false
    → is_trial t ≡ true
    → t.auth_hash ≡ s.auth_hash
    → t.policy.digest ≡ s.policy.digest
    → AllWhole assertions
    → (assert_all c assertions s).0 ≡ ok tt
    → ((assert_all c assertions t).0 ≡ ok tt)
      × ((assert_all c assertions t).1.policy.digest ≡ (assert_all c assertions s).1.policy.digest)
trial_computes c s t assertions sup real trial hash digest whole accepted =
    (is_ok_tt (assert_all c assertions t).0 both.0, both.1)
  where
    is_ok_tt : (r : TpmResult (Unit {0})) → is_ok r ≡ true → r ≡ ok tt
    is_ok_tt (ok _) h = refl
    is_ok_tt (err e) h = ground arith

    both : Agree (assert_all c assertions t) (assert_all c assertions s)
    both =
        all_both c s t assertions
          (record {
            supported = sup;
            trial = trial;
            real = real;
            same_hash = hash;
            same_digest = digest;
          })
          whole (ap is_ok accepted)
