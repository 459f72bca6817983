-- ===== src/Pcr/Valid.antt =====
-- The invariant of `PcrBanks`, src/tpm/core/pcr.rs, and what it says of reading a register.
use swtrust.Base.{
  ℕ, ◌<◌, ◌≡◌, refl, ap, sym, ◌∙◌, subst, Bool, true, some, List, ◌≢◌, ◌==◌, if◌then◌else◌, length,
  get_elem?, set, All, arith, inl, inr, Option-cases, eq-cases, length-set, All-set, All-get_elem?,
  get_elem?_lt,
}
use swtrust.Base.Maps.{lookup, lookup-insert}
use swtrust.Constants.Config
use swtrust.Crypto.Hash.{Crypto, output_len, algorithm, IsSupported}
use swtrust.Structures.Base.{digest_size}
use swtrust.Pcr.Banks.{PcrBanks, has_pcr}
use swtrust.Pcr.Update.{put_register}

-- One bank: every register, each of the digest size of an implemented algorithm.
pub record IsBank (c : Crypto) (a : ℕ) (bank : List (List ℕ)) : Type 0 where
  pub supported : IsSupported c a
  pub count : length bank ≡ Config.implementation_pcr
  pub sizes : All (λ v. length v ≡ output_len a) bank

pub record IsValid (c : Crypto) (b : PcrBanks) : Type 0 where
  pub bank : (a : ℕ) {r : List (List ℕ)} → lookup a b.banks ≡ some r → IsBank c a r
  pub flagged :
      (a : ℕ) {f : List Bool}
      → lookup a b.allocated ≡ some f
      → (r : List (List ℕ)) × (lookup a b.banks ≡ some r)

pub digest_size-IsSupported :
    (c : Crypto) (a : ℕ) → IsSupported c a → digest_size c.strict a ≡ some (output_len a)
unfolding algorithm digest_size
digest_size-IsSupported c a s = ground arith

pub put_register-IsBank :
    (c : Crypto) (a index : ℕ) (v : List ℕ) (r : List (List ℕ))
    → IsBank c a r
    → length v ≡ output_len a
    → IsBank c a (set r index v)
put_register-IsBank c a index v r h l = record {
  supported = h.supported;
  count = length-set r index v ∙ h.count;
  sizes = All-set (λ x. length x ≡ output_len a) r index v h.sizes l;
}

-- The bank that is found after a register is written.
pub lookup-put_register :
    (a x index : ℕ) (v : List ℕ) (r : List (List ℕ)) (b : PcrBanks)
    → lookup x (put_register a index v r b).banks
      ≡ (if a == x then some (set r index v) else lookup x b.banks)
unfolding put_register
lookup-put_register a x index v r b = lookup-insert a x (set r index v) b.banks

pub lookup-put_self :
    (a index : ℕ) (v : List ℕ) (r : List (List ℕ)) (b : PcrBanks)
    → lookup a (put_register a index v r b).banks ≡ some (set r index v)
lookup-put_self a index v r b = ground (arith, lookup-put_register a a index v r b)

pub lookup-put_ne :
    (a x index : ℕ) (v : List ℕ) (r : List (List ℕ)) (b : PcrBanks)
    → a ≢ x
    → lookup x (put_register a index v r b).banks ≡ lookup x b.banks
lookup-put_ne a x index v r b n = ground (arith, lookup-put_register a x index v r b)

-- What holds of the bank that is written and of those that were there holds of every bank.
put_register_all :
    (P : ℕ → List (List ℕ) → Type 0) (a index : ℕ) (v : List ℕ) (r : List (List ℕ)) (b : PcrBanks)
    → P a (set r index v)
    → ((x : ℕ) (r' : List (List ℕ)) → lookup x b.banks ≡ some r' → P x r')
    → (x : ℕ) (r' : List (List ℕ)) → lookup x (put_register a index v r b).banks ≡ some r'
    → P x r'
put_register_all P a index v r b p h x r' q = elim (eq-cases a x) [
  | inl y ↦
      let q' : lookup a (put_register a index v r b).banks ≡ some r' =
        subst (λ z. lookup z (put_register a index v r b).banks ≡ some r') (sym y) q in
      let same : set r index v ≡ r' = cc (lookup-put_self a index v r b) in
      subst (λ z. P z r') y (subst (P a) same p)
  | inr n ↦ h x r' (sym (lookup-put_ne a x index v r b n) ∙ q)
]

-- A bank that is there stays there.
pub put_register-has :
    (a x index : ℕ) (v : List ℕ) (r r' : List (List ℕ)) (b : PcrBanks)
    → lookup x b.banks ≡ some r'
    → (s : List (List ℕ)) × (lookup x (put_register a index v r b).banks ≡ some s)
put_register-has a x index v r r' b q = elim (eq-cases a x) [
  | inl y ↦ (
    set r index v,
    subst (λ z. lookup z (put_register a index v r b).banks ≡ some (set r index v)) y
        (lookup-put_self a index v r b),
  )
  | inr n ↦ (r', lookup-put_ne a x index v r b n ∙ q)
]

pub put_register-allocated :
    (a index : ℕ) (v : List ℕ) (r : List (List ℕ)) (b : PcrBanks)
    → (put_register a index v r b).allocated ≡ b.allocated
unfolding put_register
put_register-allocated a index v r b = refl

pub put_register-IsValid :
    (c : Crypto) (a index : ℕ) (v : List ℕ) (r : List (List ℕ)) (b : PcrBanks)
    → IsValid c b
    → lookup a b.banks ≡ some r
    → length v ≡ output_len a
    → IsValid c (put_register a index v r b)
put_register-IsValid c a index v r b h e l = record {
  bank = λ x.
      put_register_all (IsBank c) a index v r b (put_register-IsBank c a index v r (h.bank a e) l)
        (λ y r' q. h.bank y q) x _;
  flagged = λ x q.
      let (r', p) = h.flagged x (ap (lookup x) (sym (put_register-allocated a index v r b)) ∙ q) in
      put_register-has a x index v r r' b p;
}

-- A register that is allocated is there, in a bank that is.
pub has_pcr-register :
    (c : Crypto) (b : PcrBanks) (a index : ℕ)
    → IsValid c b
    → has_pcr b a index ≡ true
    → index < Config.implementation_pcr
    → (r : List (List ℕ)) × (lookup a b.banks ≡ some r)
      × (v : List ℕ) × (get_elem? r index ≡ some v)
      × (length v ≡ output_len a)
unfolding has_pcr
has_pcr-register c b a index h p l = elim (Option-cases (lookup a b.allocated)) [
  | inl e ↦ cc
  | inr (f, e) ↦
      let (r, q) = h.flagged a e in
      let k = h.bank a q in
      let (v, g) = get_elem?_lt r index (subst (λ n. index < n) (sym k.count) l) in
      (r, q, v, g, All-get_elem? (λ x. length x ≡ output_len a) r index v k.sizes g)
]
