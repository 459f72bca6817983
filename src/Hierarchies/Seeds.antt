-- ===== src/Hierarchies/Seeds.antt =====
-- Which seed and proof a handle has, and which are refused. src/tpm/core/hierarchy.rs.
use swtrust.Base.{
  ℕ, zero, suc, ◌+◌, ◌-◌, ◌≡◌, refl, ap, ◌∙◌, true, false, not, Option, none, some, List, [], ◌∷◌,
  ◌++◌, if◌then◌else◌, length, arith, Bool-cases, Option-cases, inl, inr,
}
use swtrust.Constants.Rc
use swtrust.Constants.Config
use swtrust.Error.{TpmResult, ok, err, >>=-of-ok, is_ok→ok}
use swtrust.Crypto.Hash.{Crypto, IsSupported, algorithm, digest}
use swtrust.Crypto.Hmac.{kdfa}
use swtrust.Crypto.Hmac.Laws.{kdfa_total}
use swtrust.Hierarchies.State.{
  Hierarchy, Hierarchies, base_of, svn_of, is_limited, limited_secret_available, get, hash_down,
  secret_for, svn_secret, fw_secret, h_svn_secret, h_fw_secret, additional_secret, derive,
  derive_limited, or_limited, seed_of, proof_of, is_hierarchy,
}

-- The error of a result, if it is one.
abbrev pub error_of : TpmResult (List ℕ) → Option ℕ
error_of (ok x) = none
error_of (err e) = some e

-- The refusals of a handle: none for a hierarchy, and none for a limited one whose secret this
-- firmware can reach.
abbrev pub refusal : ℕ → Option ℕ
refusal handle =
    if is_hierarchy handle
    then none
    else if not (is_limited handle)
    then some Rc.value
    else if limited_secret_available handle
    then none
    else some Rc.svn_limited

sha512-IsSupported : (c : Crypto) → IsSupported c Config.context_integrity_hash_alg
unfolding algorithm
sha512-IsSupported c = refl

kdfa_ok :
    (c : Crypto) (key label context_u context_v : List ℕ)
    → (out : List ℕ) × (kdfa c Config.context_integrity_hash_alg key label context_u context_v 256
        ≡ ok out)
      × (length out ≡ 32)
kdfa_ok c key label context_u context_v =
    let (out, e, l, m) =
      kdfa_total c Config.context_integrity_hash_alg key label context_u context_v 256
        (sha512-IsSupported c) (omega arith) in
    (out, e, l)

hash_down_ok :
    (c : Crypto) (times : ℕ) (secret : List ℕ) → (d : List ℕ) × (hash_down c times secret ≡ ok d)
unfolding hash_down digest
hash_down_ok c zero secret = (secret, refl)
hash_down_ok c (suc times) secret =
    let (d, e) = hash_down_ok c times (c.sha Config.context_integrity_hash_alg secret) in
    (d, >>=-of-ok _ (>>=-of-ok _ (sha512-IsSupported c)) ∙ e)

secret_for_ok :
    (c : Crypto) (hs : Hierarchies) (o : Option ℕ)
    → (p : List ℕ × List ℕ) × (secret_for c hs o ≡ ok p)
secret_for_ok c hs none =
    let (s, e, l) = kdfa_ok c hs.bootloader_secret fw_secret hs.firmware_code [] in
    ((s, h_fw_secret), >>=-of-ok _ e)
secret_for_ok c hs (some svn) =
    let (s, e, l) = kdfa_ok c hs.bootloader_secret svn_secret [] [] in
    let (d, f) = hash_down_ok c (Config.firmware_max_svn + 1 - svn) s in
    ((d, h_svn_secret), >>=-of-ok _ e ∙ >>=-of-ok _ f)

get_hierarchy :
    (handle : ℕ) (hs : Hierarchies)
    → is_hierarchy handle ≡ true
    → (h : Hierarchy) × (get handle hs ≡ ok h)
unfolding get is_hierarchy
get_hierarchy handle hs t = is_ok→ok (get handle hs) (ground arith)

get_other :
    (handle : ℕ) (hs : Hierarchies) → is_hierarchy handle ≡ false → get handle hs ≡ err Rc.value
unfolding get is_hierarchy
get_other handle hs f = ground arith

base_of-is_hierarchy : (handle base : ℕ) → base_of handle ≡ some base → is_hierarchy base ≡ true
unfolding base_of is_hierarchy
base_of-is_hierarchy handle base e = ground arith

-- A limited hierarchy whose secret is reached: its derivation succeeds, with 32 octets.
derived_ok :
    (c : Crypto) (handle base : ℕ) (label : List ℕ) (pick : Hierarchy → List ℕ) (hs : Hierarchies)
    → is_hierarchy base ≡ true
    → limited_secret_available handle ≡ true
    → (out : List ℕ) × (derive_limited c handle label pick hs (some base) ≡ ok out)
      × (length out ≡ 32)
unfolding additional_secret
derived_ok c handle base label pick hs b a =
    let ((additional, additional_label), e) = secret_for_ok c hs (svn_of handle) in
    let (h, g) = get_hierarchy base hs b in
    let (out, k, l) = kdfa_ok c (pick h) label additional (additional_label ++ 0 ∷ []) in
    (out, rw a (>>=-of-ok _ e ∙ >>=-of-ok _ g ∙ k), l)

derive-cases :
    (c : Crypto) (handle : ℕ) (label : List ℕ) (pick : Hierarchy → List ℕ) (hs : Hierarchies)
    → error_of (derive c handle label pick hs) ≡ refusal handle
unfolding derive is_limited
derive-cases c handle label pick hs = elim (Bool-cases (is_hierarchy handle)) [
  | inl t ↦
      let (h, g) = get_hierarchy handle hs t in
      ap (λ r. error_of (or_limited c handle label pick hs r)) g ∙ rw t
  | inr f ↦
      ap (λ r. error_of (or_limited c handle label pick hs r)) (get_other handle hs f)
      ∙ (elim (Option-cases (base_of handle)) [
        | inl e ↦ ap (λ o. error_of (derive_limited c handle label pick hs o)) e ∙ rw (f, e)
        | inr (base, e) ↦
            ap (λ o. error_of (derive_limited c handle label pick hs o)) e
            ∙ (elim (Bool-cases (limited_secret_available handle)) [
              | inl a ↦
                  let (out, d, l) =
                    derived_ok c handle base label pick hs (base_of-is_hierarchy handle base e) a in
                  ap error_of d ∙ rw (f, e, a)
              | inr a ↦ rw (f, e, a)
            ])
      ])
]

-- The seed and the proof of a handle are refused in the same cases, and no others: VALUE for a
-- handle that is no hierarchy, and SVN_LIMITED for a limited one whose secret this firmware does not
-- reach. Every other derivation succeeds, whatever the hierarchies hold.
pub seed_answers :
    (c : Crypto) (handle : ℕ) (hs : Hierarchies)
    → (error_of (seed_of c handle hs) ≡ refusal handle)
      × (error_of (proof_of c handle hs) ≡ refusal handle)
unfolding seed_of proof_of
seed_answers c handle hs = (derive-cases c handle _ _ hs, derive-cases c handle _ _ hs)
