-- ===== src/Pcr/Allocation.antt =====
-- `PcrBanks::allocate` and `PcrBanks::new` of src/tpm/core/pcr.rs: an allocation of implemented
-- algorithms is never refused, and makes well-formed banks at their start values.
use swtrust.Base.{
  ℕ, ◌⊎◌, ◌≡◌, refl, ap, sym, ◌∙◌, subst, Bool, not, none, some, List, [], ◌∷◌, if◌then◌else◌,
  length, replicate, All, inl, inr, Bool-cases, eq-cases, eq→==, ne→==, All-replicate,
  length-replicate,
}
use swtrust.Base.Maps.{Map, insert, lookup, lookup-insert}
use swtrust.Constants.Config
use swtrust.Error.{ok}
use swtrust.Crypto.Hash.{Crypto, output_len, IsSupported}
use swtrust.Pcr.Banks.{PcrBanks, reset_all_but}
use swtrust.Pcr.Valid.{IsBank, IsValid, digest_size-IsSupported}
use swtrust.Pcr.Banks.{allocate, allocate_from, flags_of, any, settle, reset_all}
use swtrust.Pcr.Preserved.{reset_all_but-IsValid}

-- Every algorithm that an allocation names is implemented.
abbrev pub AreSupported : Crypto → List (ℕ × List Bool) → Type 0
AreSupported c = All (λ p. IsSupported c p.0)

-- The banks while they are built.
abbrev pub built : Map (List (List ℕ)) → Map (List Bool) → PcrBanks
built banks allocated = record { banks = banks; allocated = allocated; update_counter = 0 }

fresh-IsBank :
    (c : Crypto) (a : ℕ)
    → IsSupported c a
    → IsBank c a (replicate Config.implementation_pcr (replicate (output_len a) 0))
fresh-IsBank c a s = record {
  supported = s;
  count =
      length-replicate {A = List ℕ} Config.implementation_pcr (replicate {A = ℕ} (output_len a) 0);
  sizes =
      All-replicate (λ x. length x ≡ output_len a) Config.implementation_pcr _
        (length-replicate {A = ℕ} (output_len a) 0);
}

-- What a lookup finds after an insert: what was inserted, or what was there.
insert_all :
    {V : Type 0} (P : ℕ → V → Type 0) (k : ℕ) (v : V) (m : Map V)
    → P k v
    → ((x : ℕ) (w : V) → lookup x m ≡ some w → P x w)
    → (x : ℕ) (w : V) → lookup x (insert k v m) ≡ some w
    → P x w
insert_all {V} P k v m p h x w q = elim (eq-cases k x) [
  | inr n ↦
      let q' : lookup x m ≡ some w =
        sym (ap (λ t. if t then some v else lookup x m) (ne→== k x n))
        ∙ sym (lookup-insert k x v m)
        ∙ q in
      h x w q'
  | inl e ↦
      let q' : some v ≡ some w =
        sym (ap (λ t. if t then some v else lookup x m) (eq→== k x e))
        ∙ sym (lookup-insert k x v m)
        ∙ q in
      let same : v ≡ w = cc q' in subst (λ z. P z w) e (subst (P k) same p)
]

insert_has :
    {V : Type 0} (k x : ℕ) (v : V) (m : Map V) {w : V}
    → ((k ≡ x) ⊎ (lookup x m ≡ some w))
    → (u : V) × (lookup x (insert k v m) ≡ some u)
insert_has k x v m {w} h = elim (eq-cases k x) [
  | inl e ↦ (v, lookup-insert k x v m ∙ ap (λ t. if t then some v else lookup x m) (eq→== k x e))
  | inr n ↦ elim h [
    | inl e ↦ absurd (n e)
    | inr q ↦
        (w, lookup-insert k x v m ∙ ap (λ t. if t then some v else lookup x m) (ne→== k x n) ∙ q)
  ]
]

pub insert-IsValid :
    (c : Crypto) (a : ℕ) (flags : List Bool) (bs : Map (List (List ℕ))) (fs : Map (List Bool))
    → IsSupported c a
    → IsValid c (built bs fs)
    → IsValid c (
        built
          (insert a (replicate Config.implementation_pcr (replicate (output_len a) 0)) bs)
          (insert a flags fs))
insert-IsValid c a flags bs fs s h = record {
  bank = λ x. insert_all (IsBank c) a _ bs (fresh-IsBank c a s) (λ y r q. h.bank y q) x _;
  flagged = λ x.
      insert_all (λ y f. (r : List (List ℕ)) × (lookup y (insert a _ bs) ≡ some r)) a flags fs
        (insert_has a a _ bs {w = []} (inl refl))
        (λ y f q. let (r, p) = h.flagged y q in insert_has a y _ bs (inr p)) x _;
}

-- One round of the loop, where the algorithm is implemented.
allocate_from-step :
    (c : Crypto) (a : ℕ) (bits : List Bool) (rest : List (ℕ × List Bool)) (bs : Map (List (List ℕ)))
    (fs : Map (List Bool))
    → IsSupported c a
    → allocate_from c.strict ((a, bits) ∷ rest) bs fs ≡ (
        if not (any bits)
        then allocate_from c.strict rest bs fs
        else allocate_from c.strict rest
            (insert a (replicate Config.implementation_pcr (replicate (output_len a) 0)) bs)
            (insert a (flags_of bits) fs))
unfolding allocate_from
allocate_from-step c a bits rest bs fs s = rw (digest_size-IsSupported c a s)

allocate_from-nil :
    (c : Crypto) (bs : Map (List (List ℕ))) (fs : Map (List Bool))
    → allocate_from c.strict [] bs fs ≡ ok (bs, fs)
unfolding allocate_from
allocate_from-nil c bs fs = refl

allocate_from_total :
    (c : Crypto) (allocation : List (ℕ × List Bool)) (bs : Map (List (List ℕ)))
    (fs : Map (List Bool))
    → AreSupported c allocation
    → IsValid c (built bs fs)
    → (bs' : Map (List (List ℕ))) × (fs' : Map (List Bool)) × (allocate_from c.strict allocation bs
          fs
        ≡ ok (bs', fs'))
      × IsValid c (built bs' fs')
allocate_from_total c [] bs fs s h = (bs, fs, allocate_from-nil c bs fs, h)
allocate_from_total c ((a, bits) ∷ rest) bs fs s h = elim (Bool-cases (any bits)) [
  | inr n ↦
      let (bs', fs', e, k) = allocate_from_total c rest bs fs s.1 h in
      (bs', fs', allocate_from-step c a bits rest bs fs s.0 ∙ rw n e, k)
  | inl t ↦
      let (bs', fs', e, k) =
        allocate_from_total c rest _ _ s.1 (insert-IsValid c a (flags_of bits) bs fs s.0 h) in
      (bs', fs', allocate_from-step c a bits rest bs fs s.0 ∙ rw t e, k)
]

pub counter-IsValid :
    (c : Crypto) (n : ℕ) (bs : Map (List (List ℕ))) (fs : Map (List Bool))
    → IsValid c (built bs fs)
    → IsValid c (record { banks = bs; allocated = fs; update_counter = n })
counter-IsValid c n bs fs h = record { bank = h.bank; flagged = h.flagged }

pub empty-IsValid : (c : Crypto) → IsValid c (built [] [])
unfolding lookup
empty-IsValid c = record { bank = λ a q. cc q; flagged = λ a q. cc q }

-- An allocation whose algorithms are all implemented under the profile is never refused, whatever
-- the banks were; the banks that it makes are well formed, and the update counter is kept.
pub allocate_total :
    (c : Crypto) (allocation : List (ℕ × List Bool)) (b : PcrBanks)
    → AreSupported c allocation
    → (b' : PcrBanks) × (allocate c.strict allocation b ≡ (ok tt, b'))
      × IsValid c b'
      × (b'.update_counter ≡ b.update_counter)
unfolding allocate reset_all reset_all_but
allocate_total c allocation b s =
    let (bs, fs, e, h) = allocate_from_total c allocation [] [] s (empty-IsValid c) in
    let made : PcrBanks = record {
      banks = bs;
      allocated = fs;
      update_counter = b.update_counter;
    } in
    (
      reset_all c.strict made,
      ap (settle c.strict b) e,
      reset_all_but-IsValid c none 0 made (counter-IsValid c b.update_counter bs fs h),
      refl,
    )
