-- ===== src/Commits/SingleUse.antt =====
-- Every history of commits since a TPM Reset, as a relation. src/tpm/core/commit.rs.
use swtrust.Base.{
  ℕ, suc, ◌+◌, ◌-◌, ◌^◌, ◌≤◌, ◌<◌, ◌≡◌, ◌≢◌, refl, sym, ap, ◌∙◌, true, false, List, [], ◌∷◌, arith,
  All, replicate, subst,
}
use swtrust.Error.{ok}
use swtrust.Crypto.Hash.{Crypto}
use swtrust.Commits.{Commits, is_set, set_used, take, age, full_counter, use_counter}
use swtrust.Commits.Slots.{
  AreSlots, is_set_slot, is_set-set_used, set_used-AreSlots, is_set-replicate, replicate-AreSlots,
}
use swtrust.Commits.Window.{Names, use_counter-Names, full_counter-Names, Names-full_counter}

-- What `reset` leaves, for any nonce.
abbrev pub fresh : List ℕ → Commits
fresh nonce = record { random = nonce; count = 0; used = replicate 16 0 }

-- `Reach crypto nonce n c spent`: from the reset with `nonce`, `n` takes and any number of uses lead
-- to `c`, and `spent` are the full counters whose values the uses gave out, the newest first.
pub data Reach (crypto : Crypto) (nonce : List ℕ) : ℕ → Commits → List ℕ → Type 0 where
  started : Reach crypto nonce 0 (fresh nonce) []
  took :
      {n : ℕ} {c : Commits} {spent : List ℕ} (counter : ℕ)
      → Reach crypto nonce n c spent
      → Reach crypto nonce (suc n) (take c counter) spent
  redeemed :
      {n : ℕ} {c c' : Commits} {spent : List ℕ} (name_alg : ℕ) (name : List ℕ)
      (counter bits full : ℕ) (r : List ℕ)
      → Reach crypto nonce n c spent
      → counter < 2 ^ 16
      → full_counter c counter ≡ ok full
      → use_counter crypto c name_alg name counter bits ≡ ok (r, c')
      → Reach crypto nonce n c' (full ∷ spent)

-- No counter occurs twice.
abbrev pub Distinct : List ℕ → Type 0
Distinct [] = Unit {0}
Distinct (f ∷ fs) = All (λ g. f ≢ g) fs × Distinct fs

-- A spent counter is behind the next one, and as long as its slot is its own, that is clear.
abbrev IsSpent : Commits → ℕ → Type 0
IsSpent c f = (f < c.count) × (c.count < f + 128 → is_set c.used f ≡ false)

record Inv (c : Commits) (spent : List ℕ) : Type 0 where
  slots : AreSlots c.used
  word : c.count < 2 ^ 64
  past : All (IsSpent c) spent
  -- a slot that no counter has had yet is clear
  unissued : (n : ℕ) → c.count ≤ n → n < 128 → is_set c.used n ≡ false
  distinct : Distinct spent

fresh-Inv : (nonce : List ℕ) → Inv (fresh nonce) []
fresh-Inv nonce = record {
  slots = replicate-AreSlots;
  word = omega arith;
  past = tt;
  unissued = λ n _ _. is_set-replicate n;
  distinct = tt;
}

take-IsSpent :
    (c : Commits) (counter f : ℕ)
    → AreSlots c.used
    → c.count + 1 < 2 ^ 64
    → IsSpent c f
    → IsSpent (take c counter) f
unfolding take
take-IsSpent c counter f v w (behind, clear) =
    (omega arith, λ h. ground (arith, is_set-set_used c.used c.count f true v, clear (omega arith)))

take-past :
    (c : Commits) (counter : ℕ) (spent : List ℕ)
    → AreSlots c.used
    → c.count + 1 < 2 ^ 64
    → All (IsSpent c) spent
    → All (IsSpent (take c counter)) spent
take-past c counter [] v w h = tt
take-past c counter (f ∷ fs) v w h =
    (take-IsSpent c counter f v w h.0, take-past c counter fs v w h.1)

take-Inv :
    (c : Commits) (counter : ℕ) (spent : List ℕ)
    → c.count + 1 < 2 ^ 64
    → Inv c spent
    → Inv (take c counter) spent
unfolding take
take-Inv c counter spent w v = record {
  slots = set_used-AreSlots c.used c.count true v.slots;
  word = omega arith;
  past = take-past c counter spent v.slots w v.past;
  unissued = λ n lo hi. ground (arith, is_set-set_used c.used c.count n true v.slots, v.unissued n);
  distinct = v.distinct;
}

redeem-IsSpent :
    (c : Commits) (counter full f : ℕ)
    → AreSlots c.used
    → Names c counter full
    → IsSpent c f
    → (full ≢ f) × IsSpent (record c { used = set_used c.used full false }) f
redeem-IsSpent c counter full f v n (behind, clear) = (
  λ e. ground (arith, n, clear (omega (arith, n))),
  (behind, λ h. ground (arith, is_set-set_used c.used full f false v, clear h)),
)

redeem-past :
    (c : Commits) (counter full : ℕ) (spent : List ℕ)
    → AreSlots c.used
    → Names c counter full
    → All (IsSpent c) spent
    → All (λ g. full ≢ g) spent
      × All (IsSpent (record c { used = set_used c.used full false })) spent
redeem-past c counter full [] v n h = (tt, tt)
redeem-past c counter full (f ∷ fs) v n h =
    let (ne, kept) = redeem-IsSpent c counter full f v n h.0 in
    let (nes, keeps) = redeem-past c counter full fs v n h.1 in ((ne, nes), (kept, keeps))

redeem-Inv :
    (c : Commits) (counter full : ℕ) (spent : List ℕ)
    → Names c counter full
    → Inv c spent
    → Inv (record c { used = set_used c.used full false }) (full ∷ spent)
redeem-Inv c counter full spent n v =
    let (ne, kept) = redeem-past c counter full spent v.slots n v.past in
    record {
      slots = set_used-AreSlots c.used full false v.slots;
      word = v.word;
      past =
          ((n.behind, λ h. ground (arith, is_set-set_used c.used full full false v.slots)), kept);
      unissued = λ k lo hi.
          ground (arith, is_set-set_used c.used full k false v.slots, v.unissued k lo hi);
      distinct = (ne, v.distinct);
    }

ok-injective : {a b : ℕ} → ok a ≡ ok b → a ≡ b
ok-injective e = cc

-- Before it wraps, the counter is the number of takes.
Reach-count :
    {crypto : Crypto} {nonce : List ℕ} {n : ℕ} {c : Commits} {spent : List ℕ}
    → Reach crypto nonce n c spent
    → n < 2 ^ 64
    → c.count ≡ n
unfolding take
Reach-count started few = refl
Reach-count (took {c = c} counter h) few = omega (arith, Reach-count h (omega arith))
Reach-count {crypto = crypto} (redeemed {c = c} name_alg name counter bits full r h word ef e) few =
    let (f, n, d, shape) = use_counter-Names crypto c name_alg name counter bits word e in
    ap (λ (x : Commits). x.count) shape ∙ Reach-count h few

Reach-Inv :
    {crypto : Crypto} {nonce : List ℕ} {n : ℕ} {c : Commits} {spent : List ℕ}
    → Reach crypto nonce n c spent
    → n < 2 ^ 64
    → Inv c spent
Reach-Inv {nonce = nonce} started few = fresh-Inv nonce
Reach-Inv (took {c = c} {spent = spent} counter h) few =
    take-Inv c counter spent (omega (arith, Reach-count h (omega arith)))
      (Reach-Inv h (omega arith))
Reach-Inv {crypto = crypto}
      (redeemed {c = c} {c' = c'} {spent = spent} name_alg name counter bits full r h word ef e)
      few =
    let (f, n, d, shape) = use_counter-Names crypto c name_alg name counter bits word e in
    let same : f ≡ full = ok-injective (sym (Names-full_counter c counter word f n) ∙ ef) in
    subst (λ d. Inv d (full ∷ spent))
      (ap (λ g. record c { used = set_used c.used g false }) (sym same) ∙ sym shape)
      (redeem-Inv c counter full spent (full_counter-Names c counter word full ef)
        (Reach-Inv h few))

All-behind : (c : Commits) (spent : List ℕ) → All (IsSpent c) spent → All (λ f. f < c.count) spent
All-behind c [] h = tt
All-behind c (f ∷ fs) h = (h.0.0, All-behind c fs h.1)

-- Since a TPM Reset no commit value is given out twice: in every history of uses and fewer than
-- `2 ^ 64` takes, at which the counter would wrap, the full counters whose values the uses gave are
-- distinct, and each was issued before.
pub single_use :
    {crypto : Crypto} {nonce : List ℕ} {n : ℕ} {c : Commits} {spent : List ℕ}
    → Reach crypto nonce n c spent
    → n < 2 ^ 64
    → Distinct spent × All (λ f. f < c.count) spent
single_use {c = c} {spent = spent} h few =
    let v = Reach-Inv h few in (v.distinct, All-behind c spent v.past)

-- Otherwise the counter would have the slot of one that is not issued yet.
age_within :
    {spent : List ℕ} (c : Commits) (counter : ℕ)
    → Inv c spent
    → counter < 2 ^ 16
    → 1 ≤ age c counter
    → age c counter ≤ 127
    → is_set c.used counter ≡ true
    → age c counter ≤ c.count
unfolding age
age_within c counter v word low high s =
    let m = c.count + 128 - age c counter in
    ground (arith, is_set_slot c.used counter m, v.unissued m)

full_counter-age :
    (c : Commits) (counter : ℕ)
    → 1 ≤ age c counter
    → age c counter ≤ 127
    → is_set c.used counter ≡ true
    → age c counter ≤ c.count
    → full_counter c counter ≡ ok (c.count - age c counter)
unfolding full_counter
full_counter-age c counter low high s inside = ground arith

-- In every history of uses and fewer than `2 ^ 64` takes, at which the counter would wrap, the
-- reconstruction of step 5 does not go below zero: a counter in the window whose slot is set names
-- the one that is its age behind the next.
pub full_counter_reached :
    {crypto : Crypto} {nonce : List ℕ} {n : ℕ} {c : Commits} {spent : List ℕ} (counter : ℕ)
    → Reach crypto nonce n c spent
    → n < 2 ^ 64
    → counter < 2 ^ 16
    → 1 ≤ age c counter
    → age c counter ≤ 127
    → is_set c.used counter ≡ true
    → (age c counter ≤ c.count) × (full_counter c counter ≡ ok (c.count - age c counter))
full_counter_reached {c = c} counter h few word low high s =
    let inside = age_within c counter (Reach-Inv h few) word low high s in
    (inside, full_counter-age c counter low high s inside)
