-- ===== src/Pcr/Requests.antt =====
-- Allocations as a caller may ask for them, refused ones included. `PcrBanks::allocate` of
-- src/tpm/core/pcr.rs knows the digest size of SM3_256, which `hash::algorithm` of
-- src/tpm/crypto/hash.rs does not implement.
use swtrust.Base.{
  ℕ, ◌≡◌, ◌≢◌, inl, inr, Bool, none, some, List, [], ◌∷◌, All, arith, Bool-cases, Option-cases,
}
use swtrust.Base.Maps.{Map}
use swtrust.Constants.Alg
use swtrust.Error.{TpmResult, ok, err}
use swtrust.Crypto.Hash.{Crypto, algorithm, IsSupported}
use swtrust.Structures.Base.{digest_size}
use swtrust.Pcr.Banks.{
  PcrBanks, allocate, allocate_from, flags_of, any, settle, reset_all, reset_all_but,
}
use swtrust.Pcr.Valid.{IsValid, digest_size-IsSupported}
use swtrust.Pcr.Promises.{State}
use swtrust.Pcr.Allocation.{built, insert-IsValid, counter-IsValid, empty-IsValid}
use swtrust.Pcr.Preserved.{reset_all_but-IsValid}

-- No entry names the algorithm that has a digest size and no implementation.
abbrev pub AreHashes : List (ℕ × List Bool) → Type 0
AreHashes = All (λ p. p.0 ≢ Alg.sm3_256)

sized-IsSupported :
    (c : Crypto) (a n : ℕ) → a ≢ Alg.sm3_256 → digest_size c.strict a ≡ some n → IsSupported c a
unfolding digest_size algorithm
sized-IsSupported c a n other e = ground arith

-- What the loop leaves where it is not refused.
abbrev Builds : Crypto → TpmResult (Map (List (List ℕ)) × Map (List Bool)) → Type 0
Builds c (err e) = Unit {0}
Builds c (ok (bs, fs)) = IsValid c (built bs fs)

allocate_from-Builds :
    (c : Crypto) (allocation : List (ℕ × List Bool)) (bs : Map (List (List ℕ)))
    (fs : Map (List Bool))
    → AreHashes allocation
    → IsValid c (built bs fs)
    → Builds c (allocate_from c.strict allocation bs fs)
unfolding allocate_from
allocate_from-Builds c [] bs fs s h = h
allocate_from-Builds c ((a, bits) ∷ rest) bs fs s h = elim (Bool-cases (any bits)) [
  | inr n ↦ rw n (allocate_from-Builds c rest bs fs s.1 h)
  | inl t ↦ elim (Option-cases (digest_size c.strict a)) [
    | inl q ↦ rw (t, q) tt
    | inr (n, q) ↦
        let sup = sized-IsSupported c a n s.0 q in
        rw (t, digest_size-IsSupported c a sup)
          (allocate_from-Builds c rest _ _ s.1 (insert-IsValid c a (flags_of bits) bs fs sup h))
  ]
]

settle-IsValid :
    (c : Crypto) (b : PcrBanks) (r : TpmResult (Map (List (List ℕ)) × Map (List Bool)))
    → IsValid c b
    → Builds c r
    → IsValid c (State (settle c.strict b r))
unfolding reset_all
settle-IsValid c b (err e) v h = v
settle-IsValid c b (ok (bs, fs)) v h =
    let made : PcrBanks = record {
      banks = bs;
      allocated = fs;
      update_counter = b.update_counter;
    } in
    reset_all_but-IsValid c none 0 made (counter-IsValid c b.update_counter bs fs h)

-- An allocation, accepted or refused, leaves banks well formed.
pub allocate-IsValid :
    (c : Crypto) (allocation : List (ℕ × List Bool)) (b : PcrBanks)
    → AreHashes allocation
    → IsValid c b
    → IsValid c (State (allocate c.strict allocation b))
unfolding allocate
allocate-IsValid c allocation b s v =
    settle-IsValid c b _ v (allocate_from-Builds c allocation [] [] s (empty-IsValid c))

pub default-IsValid : (c : Crypto) → IsValid c swtrust.Pcr.Banks.default
unfolding swtrust.Pcr.Banks.default
default-IsValid c = empty-IsValid c
