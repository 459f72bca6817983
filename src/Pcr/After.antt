-- ===== src/Pcr/After.antt =====
-- What is read of a register after digests have gone into it: a description of
-- `PcrBanks::extend` of src/tpm/core/pcr.rs, register by register, that stands apart from its loops.
use swtrust.Base.{
  ℕ, ◌≡◌, refl, Bool, true, false, ◌&&◌, List, ◌≢◌, [], ◌∷◌, ◌++◌, ◌==◌, if◌then◌else◌, arith, inl,
  inr, eq-cases, eq→==, ne→==,
}
use swtrust.Constants.Rc
use swtrust.Error.{TpmResult, ok, err}
use swtrust.Crypto.Hash.{Crypto}

-- The digests of algorithm `a` go into a register one after the other.
unfoldable pub folded : Crypto → ℕ → List (ℕ × List ℕ) → List ℕ → List ℕ
folded c a [] current = current
folded c a ((j, value) ∷ rest) current =
    if j == a then folded c a rest (c.sha a (current ++ value)) else folded c a rest current

-- What is read of a register after the digests: only an allocated one at `index` changes.
unfoldable pub after :
    Crypto → ℕ → List (ℕ × List ℕ) → ℕ → ℕ → Bool → TpmResult (List ℕ) → TpmResult (List ℕ)
after c index digests a j allocated (err e) = err e
after c index digests a j allocated (ok current) =
    if allocated && index == j then ok (folded c a digests current) else ok current

pub after-nil :
    (c : Crypto) (index x j : ℕ) (al : Bool) (r : TpmResult (List ℕ))
    → after c index [] x j al r ≡ r
unfolding after folded
after-nil c index x j al (err e) = refl
after-nil c index x j al (ok v) = ground arith

pub after-cons :
    (c : Crypto) (index a : ℕ) (value : List ℕ) (ds : List (ℕ × List ℕ)) (x j : ℕ) (al : Bool)
    (r : TpmResult (List ℕ))
    → after c index ((a, value) ∷ ds) x j al r
      ≡ after c index ds x j al (after c index ((a, value) ∷ []) x j al r)
unfolding after folded
after-cons c index a value ds x j al (err e) = refl
after-cons c index a value ds x j true (ok v) = ground arith
after-cons c index a value ds x j false (ok v) = ground arith

pub after_skip :
    (c : Crypto) (index a : ℕ) (value : List ℕ) (ds : List (ℕ × List ℕ)) (x j : ℕ) (al : Bool)
    (r : TpmResult (List ℕ))
    → (a ≡ x → r ≡ err Rc.value)
    → after c index ((a, value) ∷ ds) x j al r ≡ after c index ds x j al r
unfolding after folded
after_skip c index a value ds x j al (err e) h = refl
after_skip c index a value ds x j al (ok v) h = elim (eq-cases a x) [
  | inl e ↦ cc (h e)
  | inr n ↦ rw (ne→== a x n)
]

-- Every register but an allocated one of `a` at `index` is left.
pub after_bank :
    (c : Crypto) (index a : ℕ) (value : List ℕ) (x j : ℕ) (al : Bool) (r : TpmResult (List ℕ))
    → a ≢ x
    → after c index ((a, value) ∷ []) x j al r ≡ r
unfolding after folded
after_bank c index a value x j al (err e) n = refl
after_bank c index a value x j al (ok v) n = rw (ne→== a x n) (after-nil c index x j al (ok v))

pub after_index :
    (c : Crypto) (index : ℕ) (ds : List (ℕ × List ℕ)) (x j : ℕ) (al : Bool) (r : TpmResult (List ℕ))
    → index ≢ j
    → after c index ds x j al r ≡ r
unfolding after
after_index c index ds x j al (err e) n = refl
after_index c index ds x j true (ok v) n = rw (ne→== index j n)
after_index c index ds x j false (ok v) n = refl

pub after_flag :
    (c : Crypto) (index : ℕ) (ds : List (ℕ × List ℕ)) (x j : ℕ) (r : TpmResult (List ℕ))
    → after c index ds x j false r ≡ r
unfolding after
after_flag c index ds x j (err e) = refl
after_flag c index ds x j (ok v) = refl

pub after_here :
    (c : Crypto) (index a : ℕ) (value v : List ℕ)
    → after c index ((a, value) ∷ []) a index true (ok v) ≡ ok (c.sha a (v ++ value))
unfolding after folded
after_here c index a value v = rw (eq→== index index refl, eq→== a a refl)
