-- ===== src/Pcr/Promises.antt =====
-- What `PcrBanks::extend` of src/tpm/core/pcr.rs promises its callers.
use swtrust.Base.{
  ℕ, zero, suc, ◌<◌, ◌≡◌, refl, ap, sym, ◌∙◌, subst, Bool, true, not, ◌&&◌, ◌||◌, List, [], ◌==◌,
  ltb, leb, if◌then◌else◌, arith, inl, inr, Bool-cases, ltb→lt,
}
use swtrust.Constants.Rc
use swtrust.Error.{TpmResult, ok, err, ◌>>=◌}
use swtrust.Crypto.Hash.{Crypto}
use swtrust.Pcr.Profile.{is_implemented, refuses_locality, attributes}
use swtrust.Pcr.Banks.{PcrBanks, Outcome, has_pcr, read}
use swtrust.Pcr.Update.{extend, extend_checked, check_digests, and_count_all}
use swtrust.Pcr.Valid.{IsValid}
use swtrust.Pcr.After.{after}
use swtrust.Pcr.Digest.{Extended}
use swtrust.Pcr.Extend.{
  Extends, refused, done, extend-Extends, counted, named, check_digests-Fits, extend_each-Extended,
}

abbrev pub State : Outcome → PcrBanks
State (r, b) = b

abbrev Answer : Outcome → TpmResult (Unit {0})
Answer (r, b) = r

-- The localities of the platform profile, as its table states them.
abbrev pub permitted : ℕ → ℕ → Bool
permitted index locality =
    if leb index 16 || index == 23
    then leb locality 4
    else if leb index 18
    then leb 2 locality && leb locality 4
    else if index == 19
    then leb 2 locality && leb locality 3
    else if index == 20
    then leb 1 locality && leb locality 3
    else locality == 2

Extends-atomic :
    (c : Crypto) (index : ℕ) (ds : List (ℕ × List ℕ)) (b : PcrBanks) (o : Outcome)
    → Extends c index ds b o
    → (e : ℕ) (b' : PcrBanks) → o ≡ (err e, b')
    → b' ≡ b
Extends-atomic c index ds b o (refused e) e' b' q = sym (ap State q)
Extends-atomic c index ds b o (done b1 b2 k i p) e' b' q = cc (ap Answer q)

-- A refused extend leaves the banks as they were, whatever digest it is refused for.
pub extend_atomic :
    (c : Crypto) (index locality : ℕ) (ds : List (ℕ × List ℕ)) (b b' : PcrBanks) (e : ℕ)
    → IsValid c b
    → extend c index locality ds b ≡ (err e, b')
    → b' ≡ b
extend_atomic c index locality ds b b' e h q =
    Extends-atomic c index ds b _ (extend-Extends c index locality ds b h) e b' q

abbrev Results : Crypto → ℕ → List (ℕ × List ℕ) → PcrBanks → PcrBanks → Type 0
Results c index ds b b' =
    ((x j : ℕ) → read b' x j ≡ after c index ds x j (has_pcr b x index) (read b x j))
    × (b'.update_counter ≡ counted index b.update_counter (named b [] ds))
    × (b'.allocated ≡ b.allocated)

set_counter-Results :
    (c : Crypto) (index : ℕ) (ds : List (ℕ × List ℕ)) (b b' : PcrBanks)
    → Extended c index ds b b'
    → Results c index ds b
        (record b' { update_counter = counted index b.update_counter (named b [] ds) })
unfolding read has_pcr
set_counter-Results c index ds b b' k = (k.reads, refl, k.allocated)

Extends-Results :
    (c : Crypto) (index : ℕ) (ds : List (ℕ × List ℕ)) (b : PcrBanks) (o : Outcome)
    → Extends c index ds b o
    → (b' : PcrBanks) → o ≡ (ok tt, b')
    → Results c index ds b b'
Extends-Results c index ds b o (refused e) b' q = cc (ap Answer q)
Extends-Results c index ds b o (done b1 b2 k i p) b' q =
    subst (Results c index ds b) (sym p ∙ ap State q) (set_counter-Results c index ds b b1 k)

-- After an extend that succeeds, every register of every bank reads as `after` says: the digests of
-- its bank have gone into the register at `index`, in their order, if it is allocated, and every
-- other register is as before; the update counter has advanced by the number of banks that the
-- digests name, modulo 2^32, unless the register is one that does not count; and the allocation is
-- the same.
pub extend_registers :
    (c : Crypto) (index locality : ℕ) (ds : List (ℕ × List ℕ)) (b b' : PcrBanks)
    → IsValid c b
    → extend c index locality ds b ≡ (ok tt, b')
    → ((x j : ℕ) → read b' x j ≡ after c index ds x j (has_pcr b x index) (read b x j))
      × (b'.update_counter ≡ counted index b.update_counter (named b [] ds))
      × (b'.allocated ≡ b.allocated)
extend_registers c index locality ds b b' h q =
    Extends-Results c index ds b _ (extend-Extends c index locality ds b h) b' q

counter-IsValid :
    (c : Crypto) (n : ℕ) (b : PcrBanks) → IsValid c b → IsValid c (record b { update_counter = n })
counter-IsValid c n b h = record { bank = h.bank; flagged = h.flagged }

Extends-IsValid :
    (c : Crypto) (index : ℕ) (ds : List (ℕ × List ℕ)) (b : PcrBanks) (o : Outcome)
    → IsValid c b
    → Extends c index ds b o
    → IsValid c (State o)
Extends-IsValid c index ds b o h (refused e) = h
Extends-IsValid c index ds b o h (done b1 b2 k i p) =
    subst (IsValid c) (sym p) (counter-IsValid c _ b1 k.valid)

-- An extend, refused or not, leaves banks that are well formed: 24 registers in each, each of the
-- size of its algorithm's digest, and a bank for every allocation.
pub extend-IsValid :
    (c : Crypto) (index locality : ℕ) (ds : List (ℕ × List ℕ)) (b : PcrBanks)
    → IsValid c b
    → IsValid c (extend c index locality ds b).1
extend-IsValid c index locality ds b h =
    Extends-IsValid c index ds b _ h (extend-Extends c index locality ds b h)

refuses-permitted :
    (index locality : ℕ)
    → index < 24
    → refuses_locality (attributes index).extend_locality locality ≡ not (permitted index locality)
unfolding refuses_locality attributes
refuses-permitted index zero l = ground arith
refuses-permitted index (suc zero) l = ground arith
refuses-permitted index (suc (suc zero)) l = ground arith
refuses-permitted index (suc (suc (suc zero))) l = ground arith
refuses-permitted index (suc (suc (suc (suc zero)))) l = ground arith
refuses-permitted index (suc (suc (suc (suc (suc n))))) l = ground arith

and_count_all-answer :
    (index : ℕ) (r : TpmResult (List ℕ)) (b : PcrBanks)
    → (and_count_all index (r, b)).0 ≡ (r >>= λ names. ok tt)
and_count_all-answer index (ok names) b = refl
and_count_all-answer index (err e) b = refl

extend_checked-answer :
    (c : Crypto) (index : ℕ) (ds : List (ℕ × List ℕ)) (b : PcrBanks)
    → IsValid c b
    → is_implemented index ≡ true
    → (r : TpmResult (Unit {0})) → check_digests c.strict b ds ≡ r
    → (extend_checked c index ds b r).0 ≡ r
extend_checked-answer c index ds b h i (err e) q = refl
extend_checked-answer c index ds b h i (ok u) q =
    let (b', e, k) = extend_each-Extended c index [] ds b h i (check_digests-Fits c b ds h q) in
    ap (λ o. Answer (and_count_all index o)) e

-- What an extend answers, in every case: the register is checked first, then the locality against
-- the profile's table, then the digests.
pub extend_answers :
    (c : Crypto) (index locality : ℕ) (ds : List (ℕ × List ℕ)) (b : PcrBanks)
    → IsValid c b
    → (extend c index locality ds b).0 ≡ (
        if not (ltb index 24)
        then err Rc.value
        else if not (permitted index locality)
        then err Rc.locality
        else check_digests c.strict b ds)
unfolding extend is_implemented
extend_answers c index locality ds b h = elim (Bool-cases (ltb index 24)) [
  | inr n ↦ rw n refl
  | inl i ↦ elim (Bool-cases (permitted index locality)) [
    | inr l ↦ rw (i, refuses-permitted index locality (ltb→lt index 24 i), l)
    | inl l ↦
        rw (i, refuses-permitted index locality (ltb→lt index 24 i), l)
          (extend_checked-answer c index ds b h i (check_digests c.strict b ds) refl)
  ]
]
