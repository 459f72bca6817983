-- ===== src/Commands/Policy/Guarded.antt =====
-- Each assertion of src/tpm/commands/policy.rs against the restrictions that the session carries.
use swtrust.Base.{
  ℕ, ◌≡◌, ◌⊎◌, inl, inr, refl, sym, ap, ◌∙◌, Bool, false, not, ◌&&◌, Option, none, some, List, [],
  ◌∷◌, arith, Bool-cases,
}
use swtrust.Constants.Cc
use swtrust.Constants.Rc
use swtrust.Error.{TpmResult, ok, err}
use swtrust.Crypto.Hash.{Crypto, digest_parts}
use swtrust.Sessions.Session.{Session, is_trial, eq_octets, is_empty}
use swtrust.Commands.Policy.Steps.{is_some, is_value, narrowed, shared_cp_hash_taken}
use swtrust.Commands.Policy.Plans.{
  Plan, unless, plain_plan, wrong_size, wrong_counter, no_locality, plan, Assertion, branches, pcr,
  locality, command_code, physical_presence, auth_value, password, nv_written, cp_hash, name_hash,
  template, parameters, duplication_select,
}
use swtrust.Commands.Policy.Assertions.{template_slot, duplication_octets}
use swtrust.Commands.Policy.Trials.{equal_octets}
use swtrust.Commands.Policy.Restricted.{
  Stays, Narrows, Restricts, one_if, held, IsExclusive, with_policy, Narrows-refl, Restricts-refl,
  is_value-some, counter-Stays, narrowed-Narrows,
}

-- What an assertion that is not refused leaves.
abbrev pub Fine : Session → TpmResult Plan → Type 0
Fine s (err e) = Unit {0}
Fine s (ok p) = Restricts s.policy p.fields × IsExclusive (with_policy s p.fields)

module _ (c : Crypto) (s : Session) (real : is_trial s ≡ false) (x : IsExclusive s) where
  same : Restricts s.policy s.policy
  same = Restricts-refl s.policy

  -- Where the slot is free nothing shares it.
  free :
      shared_cp_hash_taken s ≡ false
      → (s.policy.cp_hash ≡ none)
        × (s.policy.name_hash ≡ none)
        × (s.policy.template_hash ≡ none)
        × (s.policy.parameters_hash ≡ none)
        × (held s ≡ 0)
  unfolding shared_cp_hash_taken
  free e = ground (arith, real)

  -- What is not named stays.
  rebuilt :
      (ch nh th ph : Option (List ℕ)) (cc uc lo : Option ℕ)
      → Stays s.policy.cp_hash ch
      → Stays s.policy.name_hash nh
      → Stays s.policy.template_hash th
      → Stays s.policy.parameters_hash ph
      → Stays s.policy.command_code cc ⊎ (cc ≡ some Cc.duplicate)
      → Stays s.policy.pcr_update_counter uc
      → Narrows s.policy.locality lo
      → Restricts s.policy (record (s.policy) {
        cp_hash = ch;
        name_hash = nh;
        template_hash = th;
        parameters_hash = ph;
        command_code = cc;
        pcr_update_counter = uc;
        locality = lo;
      })
  rebuilt ch nh th ph cc uc lo a b d e f g h = record {
    cp_hash = a;
    name_hash = b;
    template_hash = d;
    parameters_hash = e;
    pcr_update_counter = g;
    nv_written = inr refl;
    command_code = f;
    locality = h;
    presence = same.presence;
    proof = same.proof;
  }

  hashed :
      (ch nh th ph : Option (List ℕ)) (cc : Option ℕ)
      → Stays s.policy.cp_hash ch
      → Stays s.policy.name_hash nh
      → Stays s.policy.template_hash th
      → Stays s.policy.parameters_hash ph
      → Stays s.policy.command_code cc ⊎ (cc ≡ some Cc.duplicate)
      → Restricts s.policy (record (s.policy) {
        cp_hash = ch;
        name_hash = nh;
        template_hash = th;
        parameters_hash = ph;
        command_code = cc;
      })
  hashed ch nh th ph cc a b d e f =
      rebuilt ch nh th ph cc s.policy.pcr_update_counter s.policy.locality a b d e f (inr refl)
        (Narrows-refl s.policy.locality)

  branches-Fine : (digests : List (List ℕ)) → Fine s (plan c (branches digests) s)
  unfolding plan shared_cp_hash_taken
  branches-Fine digests = ground (arith, same, x)

  pcr-Fine : (e g f d : List ℕ) (n : ℕ) → Fine s (plan c (pcr e g f d n) s)
  unfolding plan
  pcr-Fine e g f d n = elim (Bool-cases (not (is_empty e) && not (eq_octets e d))) [
    | inl m ↦ rw (real, m) tt
    | inr m ↦ elim (Bool-cases (wrong_counter s.policy.pcr_update_counter n)) [
      | inl w ↦ rw (real, m, w) tt
      | inr w ↦
          rw (real, m, w)
            (
              rebuilt s.policy.cp_hash s.policy.name_hash s.policy.template_hash
                  s.policy.parameters_hash s.policy.command_code (some n) s.policy.locality
                  (inr refl) (inr refl) (inr refl) (inr refl) (inl (inr refl))
                  (counter-Stays s.policy.pcr_update_counter n w) (Narrows-refl s.policy.locality),
              record { slot = x.slot; proof = x.proof },
            )
    ]
  ]

  locality-Fine : (l : ℕ) → Fine s (plan c (locality l) s)
  unfolding plan
  locality-Fine l = elim (Bool-cases (no_locality s l)) [
    | inl w ↦ rw (real, w) tt
    | inr w ↦
        rw (real, w)
          (
            rebuilt s.policy.cp_hash s.policy.name_hash s.policy.template_hash
                s.policy.parameters_hash s.policy.command_code s.policy.pcr_update_counter
                (some (narrowed s.policy.locality l)) (inr refl) (inr refl) (inr refl) (inr refl)
                (inl (inr refl)) (inr refl) (narrowed-Narrows s.policy.locality l w),
            record { slot = x.slot; proof = x.proof },
          )
  ]

  command_code-Fine : (i : Bool) (code : ℕ) → Fine s (plan c (command_code i code) s)
  unfolding plan shared_cp_hash_taken
  command_code-Fine i code = ground (arith, same, x)

  physical_presence-Fine : Fine s (plan c (physical_presence) s)
  unfolding plan shared_cp_hash_taken
  physical_presence-Fine = ground (arith, same, x)

  auth_value-Fine : Fine s (plan c (auth_value) s)
  unfolding plan shared_cp_hash_taken
  auth_value-Fine = ground (arith, same, x)

  password-Fine : Fine s (plan c (password) s)
  unfolding plan shared_cp_hash_taken
  password-Fine = ground (arith, same, x)

  nv_written-Fine : (w : Bool) → Fine s (plan c (nv_written w) s)
  unfolding plan shared_cp_hash_taken
  nv_written-Fine w = ground (arith, same, x)

  cp_hash-Fine : (h : List ℕ) → Fine s (plan c (cp_hash h) s)
  unfolding plan
  cp_hash-Fine h = elim (Bool-cases (wrong_size s h)) [
    | inl w ↦ rw w tt
    | inr w ↦ elim (Bool-cases (shared_cp_hash_taken s)) [
      | inr t ↦
          let (f1, f2, f3, f4, none_held) = free t in
          rw (w, t)
            (
              hashed (some h) s.policy.name_hash s.policy.template_hash s.policy.parameters_hash
                  s.policy.command_code (inl f1) (inr refl) (inr refl) (inr refl) (inl (inr refl)),
              record { slot = ground (arith, none_held); proof = x.proof },
            )
      | inl t ↦ elim (Bool-cases (is_value s.policy.cp_hash h)) [
        | inr v ↦ rw (w, t, v) tt
        | inl v ↦
            let e = is_value-some s.policy.cp_hash h v in
            rw (w, t, v)
              (
                hashed (some h) s.policy.name_hash s.policy.template_hash s.policy.parameters_hash
                    s.policy.command_code (inr (sym e)) (inr refl) (inr refl) (inr refl)
                    (inl (inr refl)),
                record {
                  slot = omega (arith, x.slot, ap (λ o. one_if (is_some o)) e);
                  proof = x.proof;
                },
              )
      ]
    ]
  ]

  name_hash-Fine : (h : List ℕ) → Fine s (plan c (name_hash h) s)
  unfolding plan
  name_hash-Fine h = elim (Bool-cases (wrong_size s h)) [
    | inl w ↦ rw w tt
    | inr w ↦ elim (Bool-cases (shared_cp_hash_taken s)) [
      | inl t ↦ rw (w, t) tt
      | inr t ↦
          let (f1, f2, f3, f4, none_held) = free t in
          rw (w, t)
            (
              hashed s.policy.cp_hash (some h) s.policy.template_hash s.policy.parameters_hash
                  s.policy.command_code (inr refl) (inl f2) (inr refl) (inr refl) (inl (inr refl)),
              record { slot = ground (arith, none_held); proof = x.proof },
            )
    ]
  ]

  -- By what the slot holds.
  template_by :
      (h : List ℕ) (o : Option (List ℕ))
      → s.policy.template_hash ≡ o
      → Fine s (elim (template_slot o h s) [
        | err e ↦ err e
        | ok _ ↦
            ok (plain_plan s Cc.policy_template h (record (s.policy) { template_hash = some h }))
      ])
  template_by h none q = elim (Bool-cases (shared_cp_hash_taken s)) [
    | inl t ↦ rw t tt
    | inr t ↦
        let (f1, f2, f3, f4, none_held) = free t in
        rw t (
          hashed s.policy.cp_hash s.policy.name_hash (some h) s.policy.parameters_hash
              s.policy.command_code (inr refl) (inr refl) (inl q) (inr refl) (inl (inr refl)),
          record { slot = ground (arith, none_held); proof = x.proof },
        )
  ]
  template_by h (some v) q = elim (equal_octets v h) [
    | inl n ↦ rw (n, real) tt
    | inr e ↦
        let kept : s.policy.template_hash ≡ some h = q ∙ ap some e in
        let full = ap (λ o. one_if (is_some o)) kept in
        elim (Bool-cases (eq_octets v h)) [
          | inr n ↦ rw (n, real) tt
          | inl n ↦ rw n (
            hashed s.policy.cp_hash s.policy.name_hash (some h) s.policy.parameters_hash
                s.policy.command_code (inr refl) (inr refl) (inr (sym kept)) (inr refl)
                (inl (inr refl)),
            record { slot = omega (arith, x.slot, full); proof = x.proof },
          )
        ]
  ]

  template-Fine : (h : List ℕ) → Fine s (plan c (template h) s)
  unfolding plan
  template-Fine h = elim (Bool-cases (wrong_size s h)) [
    | inl w ↦ rw w tt
    | inr w ↦ rw w (template_by h s.policy.template_hash refl)
  ]

  parameters-Fine : (h : List ℕ) → Fine s (plan c (parameters h) s)
  unfolding plan
  parameters-Fine h = elim (Bool-cases (wrong_size s h)) [
    | inl w ↦ rw w tt
    | inr w ↦ elim (Bool-cases (shared_cp_hash_taken s)) [
      | inl t ↦ rw (w, t) tt
      | inr t ↦
          let (f1, f2, f3, f4, none_held) = free t in
          rw (w, t)
            (
              hashed s.policy.cp_hash s.policy.name_hash s.policy.template_hash (some h)
                  s.policy.command_code (inr refl) (inr refl) (inr refl) (inl f4) (inl (inr refl)),
              record { slot = ground (arith, none_held); proof = x.proof },
            )
    ]
  ]

  -- By the digest of the two names.
  select_by :
      (o p : List ℕ) (i : Bool) (r : TpmResult (List ℕ))
      → Fine s (elim r [
        | err e ↦ err e
        | ok both ↦ unless (shared_cp_hash_taken s) Rc.cphash (
            ok (
              plain_plan s Cc.policy_duplication_select
                (duplication_octets i o p)
                (record (s.policy) { name_hash = some both; command_code = some Cc.duplicate })))
      ])
  select_by o p i (err e) = tt
  select_by o p i (ok both) = elim (Bool-cases (shared_cp_hash_taken s)) [
    | inl t ↦ rw t tt
    | inr t ↦
        let (f1, f2, f3, f4, none_held) = free t in
        rw t (
          hashed s.policy.cp_hash (some both) s.policy.template_hash s.policy.parameters_hash
              (some Cc.duplicate) (inr refl) (inl f2) (inr refl) (inr refl) (inr refl),
          record { slot = ground (arith, none_held); proof = x.proof },
        )
  ]

  duplication_select-Fine : (o p : List ℕ) (i : Bool) → Fine s (plan c (duplication_select o p i) s)
  unfolding plan
  duplication_select-Fine o p i = select_by o p i (digest_parts c s.auth_hash (o ∷ p ∷ []))

  pub plan-Fine : (a : Assertion) → Fine s (plan c a s)
  plan-Fine (branches digests) = branches-Fine digests
  plan-Fine (pcr e g f d n) = pcr-Fine e g f d n
  plan-Fine (locality l) = locality-Fine l
  plan-Fine (command_code i code) = command_code-Fine i code
  plan-Fine physical_presence = physical_presence-Fine
  plan-Fine auth_value = auth_value-Fine
  plan-Fine password = password-Fine
  plan-Fine (nv_written w) = nv_written-Fine w
  plan-Fine (cp_hash h) = cp_hash-Fine h
  plan-Fine (name_hash h) = name_hash-Fine h
  plan-Fine (template h) = template-Fine h
  plan-Fine (parameters h) = parameters-Fine h
  plan-Fine (duplication_select o p i) = duplication_select-Fine o p i
