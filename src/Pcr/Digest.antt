-- ===== src/Pcr/Digest.antt =====
-- One digest, `PcrBanks::extend_digest` of src/tpm/core/pcr.rs, and how such steps compose.
use swtrust.Base.{
  ℕ, ◌<◌, ◌≡◌, refl, ap, sym, ◌∙◌, subst, true, false, ◌&&◌, some, List, [], ◌∷◌, ◌++◌, ◌==◌,
  if◌then◌else◌, length, get_elem?, inl, inr, Option-cases, Bool-cases, eq-cases, eq→==, ne→==,
  ltb→lt,
}
use swtrust.Base.Maps.{lookup, contains_key, is_some}
use swtrust.Constants.Rc
use swtrust.Error.{ok, err}
use swtrust.Crypto.Hash.{Crypto, output_len}
use swtrust.Pcr.Profile.{is_implemented}
use swtrust.Pcr.Banks.{PcrBanks, has_bank, has_pcr, flag_at, read, found}
use swtrust.Pcr.Update.{put_register, extend_digest}
use swtrust.Pcr.Valid.{
  IsValid, lookup-put_self, lookup-put_ne, put_register-IsValid, has_pcr-register,
  put_register-allocated,
}
use swtrust.Pcr.Registers.{extend_digest_skip, extend_digest_take, read-put_register}
use swtrust.Pcr.After.{
  after, after-nil, after-cons, after_skip, after_bank, after_index, after_flag, after_here,
}

pub record Extended (c : Crypto) (index : ℕ) (ds : List (ℕ × List ℕ)) (b b' : PcrBanks)
    : Type 0 where
  pub valid : IsValid c b'
  pub allocated : b'.allocated ≡ b.allocated
  pub counter : b'.update_counter ≡ b.update_counter
  pub has : (x : ℕ) → has_bank b' x ≡ has_bank b x
  pub reads : (x j : ℕ) → read b' x j ≡ after c index ds x j (has_pcr b x index) (read b x j)

pub has_pcr-allocated :
    (b b' : PcrBanks) (x index : ℕ)
    → b'.allocated ≡ b.allocated
    → has_pcr b' x index ≡ has_pcr b x index
unfolding has_pcr
has_pcr-allocated b b' x index e = ap (λ m. flag_at (lookup x m) index) e

pub Extended-cons :
    (c : Crypto) (index a : ℕ) (value : List ℕ) (ds : List (ℕ × List ℕ)) (b b1 b2 : PcrBanks)
    → Extended c index ((a, value) ∷ []) b b1
    → Extended c index ds b1 b2
    → Extended c index ((a, value) ∷ ds) b b2
Extended-cons c index a value ds b b1 b2 h k = record {
  valid = k.valid;
  allocated = k.allocated ∙ h.allocated;
  counter = k.counter ∙ h.counter;
  has = λ x. k.has x ∙ h.has x;
  reads = λ x j.
      k.reads x j
      ∙ rw (has_pcr-allocated b b1 x index h.allocated, h.reads x j)
          (sym (after-cons c index a value ds x j (has_pcr b x index) (read b x j)));
}

pub Extended-nil : (c : Crypto) (index : ℕ) (b : PcrBanks) → IsValid c b → Extended c index [] b b
Extended-nil c index b h = record {
  valid = h;
  allocated = refl;
  counter = refl;
  has = λ x. refl;
  reads = λ x j. sym (after-nil c index x j (has_pcr b x index) (read b x j));
}

-- A bank that is not there leaves nothing to read.
pub read_no_bank : (b : PcrBanks) (a j : ℕ) → has_bank b a ≡ false → read b a j ≡ err Rc.value
unfolding read has_bank contains_key
read_no_bank b a j h = elim (Option-cases (lookup a b.banks)) [ inl e ↦ rw e | inr (r, e) ↦ cc ]

pub Extended-skip :
    (c : Crypto) (index a : ℕ) (value : List ℕ) (ds : List (ℕ × List ℕ)) (b b' : PcrBanks)
    → has_bank b a ≡ false
    → Extended c index ds b b'
    → Extended c index ((a, value) ∷ ds) b b'
Extended-skip c index a value ds b b' n k = record {
  valid = k.valid;
  allocated = k.allocated;
  counter = k.counter;
  has = k.has;
  reads = λ x j.
      k.reads x j
      ∙ sym (
          after_skip c index a value ds x j (has_pcr b x index) (read b x j)
            (λ e. subst (λ z. read b z j ≡ err Rc.value) e (read_no_bank b a j n)));
}

pub has_bank-lookup :
    (b : PcrBanks) (a : ℕ) → has_bank b a ≡ true → (r : List (List ℕ)) × (lookup a b.banks ≡ some r)
unfolding has_bank contains_key
has_bank-lookup b a h = elim (Option-cases (lookup a b.banks)) [ inl e ↦ cc | inr p ↦ p ]

pub put_register-has_bank :
    (a x index : ℕ) (v : List ℕ) {r : List (List ℕ)} (b : PcrBanks)
    → lookup a b.banks ≡ some r
    → has_bank (put_register a index v r b) x ≡ has_bank b x
unfolding has_bank contains_key
put_register-has_bank a x index v {r} b q = elim (eq-cases a x) [
  | inl y ↦
      subst
        (λ z. is_some (lookup z (put_register a index v r b).banks) ≡ is_some (lookup z b.banks)) y
        (rw (lookup-put_self a index v r b, q))
  | inr n ↦ rw (lookup-put_ne a x index v r b n)
]

pub put_register-counter :
    (a index : ℕ) (v : List ℕ) (r : List (List ℕ)) (b : PcrBanks)
    → (put_register a index v r b).update_counter ≡ b.update_counter
unfolding put_register
put_register-counter a index v r b = refl

pub after_one :
    (c : Crypto) (index a : ℕ) (value v : List ℕ) (b : PcrBanks) (x j : ℕ)
    → has_pcr b a index ≡ true
    → read b a index ≡ ok v
    → (if a == x && index == j then ok (c.sha a (v ++ value)) else read b x j)
      ≡ after c index ((a, value) ∷ []) x j (has_pcr b x index) (read b x j)
after_one c index a value v b x j h q = elim (eq-cases a x) [
  | inr n ↦
      rw (ne→== a x n) (sym (after_bank c index a value x j (has_pcr b x index) (read b x j) n))
  | inl y ↦ elim (eq-cases index j) [
    | inr m ↦
        rw (eq→== a x y, ne→== index j m)
          (sym (after_index c index ((a, value) ∷ []) x j (has_pcr b x index) (read b x j) m))
    | inl z ↦
        rw (eq→== a x y, eq→== index j z, sym y, sym z, h, q) (sym (after_here c index a value v))
  ]
]

pub skip_one :
    (c : Crypto) (index a : ℕ) (value : List ℕ) (b : PcrBanks) (x j : ℕ)
    → has_pcr b a index ≡ false
    → read b x j ≡ after c index ((a, value) ∷ []) x j (has_pcr b x index) (read b x j)
skip_one c index a value b x j h = elim (eq-cases a x) [
  | inr n ↦ sym (after_bank c index a value x j (has_pcr b x index) (read b x j) n)
  | inl y ↦ rw (sym y, h) (sym (after_flag c index ((a, value) ∷ []) a j (read b a j)))
]

pub read-lookup :
    (b : PcrBanks) (a index : ℕ) {r : List (List ℕ)} {v : List ℕ}
    → lookup a b.banks ≡ some r
    → get_elem? r index ≡ some v
    → read b a index ≡ ok v
unfolding read
read-lookup b a index q g = rw (q) (ap found g)

pub is_implemented_lt : (index : ℕ) → is_implemented index ≡ true → index < 24
unfolding is_implemented
is_implemented_lt index i = ltb→lt index 24 i

-- One digest: what the code answers, and what it leaves.
pub extend_digest-Extended :
    (c : Crypto) (a index : ℕ) (value : List ℕ) (b : PcrBanks)
    → IsValid c b
    → is_implemented index ≡ true
    → has_bank b a ≡ true
    → length value ≡ output_len a
    → (b' : PcrBanks) × (extend_digest c a index value b ≡ (ok tt, b'))
      × Extended c index ((a, value) ∷ []) b b'
extend_digest-Extended c a index value b h i k l = elim (Bool-cases (has_pcr b a index)) [
  | inl p ↦
      let (r, q, v, g, s) = has_pcr-register c b a index h p (is_implemented_lt index i) in
      let bank = h.bank a q in
      (
        put_register a index (c.sha a (v ++ value)) r b,
        extend_digest_take c a index value b bank.supported p i l q g,
        record {
          valid = put_register-IsValid c a index _ r b h q (c.length-sha a (v ++ value));
          allocated = put_register-allocated a index _ r b;
          counter = put_register-counter a index _ r b;
          has = λ x. put_register-has_bank a x index _ b q;
          reads = λ x j.
              read-put_register a index x j (c.sha a (v ++ value)) b q
                (subst (λ n. index < n) (sym bank.count) (is_implemented_lt index i))
              ∙ after_one c index a value v b x j p (read-lookup b a index q g);
        },
      )
  | inr n ↦ (
    b,
    extend_digest_skip c a index value b n,
    record {
      valid = h;
      allocated = refl;
      counter = refl;
      has = λ x. refl;
      reads = λ x j. skip_one c index a value b x j n;
    },
  )
]
