-- ===== src/Commits/RoundTrip.antt =====
-- The two commands of a split operation: the value of `next` comes back from `use_counter`.
-- src/tpm/core/commit.rs.
use swtrust.Base.{
  ℕ, zero, suc, ◌+◌, ◌%◌, ◌^◌, ◌≤◌, ◌<◌, ◌≡◌, refl, sym, ap, ◌∙◌, true, false, not, List, arith,
  subst,
}
use swtrust.Constants.Rc
use swtrust.Error.{ok, err, >>=-of-err}
use swtrust.Crypto.Hash.{Crypto}
use swtrust.Commits.{
  Commits, set_used, is_nil, is_ready, derive, next, take, age, full_counter, use_counter,
}
use swtrust.Commits.Slots.{AreSlots, is_set-set_used, set_used-AreSlots}
use swtrust.Commits.Window.{Names, Names-use_counter, derive-used}

-- `n` more commits are taken.
unfoldable pub takes : ℕ → Commits → Commits
takes zero c = c
takes (suc n) c = takes n (take c (c.count % 2 ^ 16))

take-Names :
    (c : Commits) (k counter f : ℕ)
    → AreSlots c.used
    → c.count + 1 < 2 ^ 64
    → c.count + 1 < f + 128
    → Names c counter f
    → Names (take c k) counter f
unfolding take
take-Names c k counter f v w near n = record {
  behind = omega (arith, n.behind);
  recent = omega arith;
  low = n.low;
  set = ground (arith, is_set-set_used c.used c.count f true v, n.set);
}

ready_slots : (c : Commits) → AreSlots c.used → is_ready c ≡ not (is_nil c.random)
unfolding is_ready
ready_slots c v = ground (arith, v.size)

-- What the later steps rely on: the counter is named, and the nonce is the one it was taken with.
record Holds (start c : Commits) (counter full : ℕ) : Type 0 where
  slots : AreSlots c.used
  named : Names c counter full
  nonce : c.random ≡ start.random

take-Holds :
    (start c : Commits) (k counter f : ℕ)
    → c.count + 1 < 2 ^ 64
    → c.count + 1 < f + 128
    → Holds start c counter f
    → Holds start (take c k) counter f
unfolding take
take-Holds start c k counter f w near h = record {
  slots = set_used-AreSlots c.used c.count true h.slots;
  named = take-Names c k counter f h.slots w near h.named;
  nonce = h.nonce;
}

count-take : (c : Commits) (k : ℕ) → c.count + 1 < 2 ^ 64 → (take c k).count ≡ c.count + 1
unfolding take
count-take c k w = omega arith

takes-Holds :
    (n : ℕ) (start c : Commits) (counter f : ℕ)
    → c.count + n < 2 ^ 64
    → c.count + n < f + 128
    → Holds start c counter f
    → Holds start (takes n c) counter f
unfolding takes
takes-Holds zero start c counter f w near h = h
takes-Holds (suc n) start c counter f w near h =
    let k = c.count % 2 ^ 16 in
    let e = count-take c k (omega arith) in
    takes-Holds n start (take c k) counter f (omega (arith, e)) (omega (arith, e))
      (take-Holds start c k counter f (omega arith) (omega arith) h)

-- The commit just taken is named by the counter that `next` reported.
first-Holds :
    (c : Commits)
    → AreSlots c.used
    → c.count + 1 < 2 ^ 64
    → Holds c (take c (c.count % 2 ^ 16)) (c.count % 2 ^ 16) c.count
unfolding take
first-Holds c v w = record {
  slots = set_used-AreSlots c.used c.count true v;
  named = record {
    behind = omega arith;
    recent = omega arith;
    low = refl;
    set = ground (arith, is_set-set_used c.used c.count c.count true v);
  };
  nonce = refl;
}

next_value :
    (crypto : Crypto) (c : Commits) (name_alg : ℕ) (name : List ℕ) (bits : ℕ) {r : List ℕ} {k : ℕ}
    → next crypto c name_alg name bits ≡ ok (r, k)
    → (derive crypto c name_alg name c.count bits ≡ ok r) × (k ≡ c.count % 2 ^ 16)
unfolding next
next_value crypto c name_alg name bits e = ground arith

Holds-derive :
    (crypto : Crypto) (start c : Commits) (counter full name_alg : ℕ) (name : List ℕ) (g bits : ℕ)
    → AreSlots start.used
    → Holds start c counter full
    → derive crypto c name_alg name g bits ≡ derive crypto start name_alg name g bits
Holds-derive crypto start c counter full name_alg name g bits v h =
    derive-used crypto start c name_alg name g bits h.nonce
      (ready_slots c h.slots ∙ ap (λ x. not (is_nil x)) h.nonce ∙ sym (ready_slots start v))

-- A split operation round trips: with at most 126 more commits taken after its own, the counter
-- that `next` reported gives back the value that `next` derived, and the use clears its slot. The
-- array is one of 16 octets, and the counter does not pass `2 ^ 64`.
pub use_counter-next :
    (crypto : Crypto) (c : Commits) (name_alg : ℕ) (name : List ℕ) (bits n : ℕ) (r : List ℕ) (k : ℕ)
    → AreSlots c.used
    → c.count + 1 + n < 2 ^ 64
    → n < 127
    → next crypto c name_alg name bits ≡ ok (r, k)
    → let d = takes n (take c k) in
      use_counter crypto d name_alg name k bits
      ≡ ok (r, record d { used = set_used d.used c.count false })
use_counter-next crypto c name_alg name bits n r k v w few e =
    let (value, low) = next_value crypto c name_alg name bits e in
    let first =
      subst (λ j. Holds c (take c j) j c.count) (sym low) (first-Holds c v (omega arith)) in
    let one = count-take c k (omega arith) in
    let h = takes-Holds n c (take c k) k c.count (omega (arith, one)) (omega (arith, one)) first in
    Names-use_counter crypto (takes n (take c k)) name_alg name k bits c.count (omega (arith, low))
      h.named (Holds-derive crypto c _ k c.count name_alg name c.count bits v h ∙ value)

count-takes : (n : ℕ) (c : Commits) → c.count + n < 2 ^ 64 → (takes n c).count ≡ c.count + n
unfolding takes
count-takes zero c w = omega arith
count-takes (suc n) c w =
    let e = count-take c (c.count % 2 ^ 16) (omega arith) in
    count-takes n (take c (c.count % 2 ^ 16)) (omega (arith, e)) ∙ omega (arith, e)

too_old :
    (d : Commits) (start m : ℕ)
    → 128 ≤ m
    → m < 2 ^ 16
    → d.count ≡ start + m
    → full_counter d (start % 2 ^ 16) ≡ err Rc.range
unfolding full_counter age
too_old d start m many wide e = ground arith

-- From the 127th further commit on, the counter is refused with RANGE.
pub use_counter_expired :
    (crypto : Crypto) (c : Commits) (name_alg : ℕ) (name : List ℕ) (bits n : ℕ)
    → c.count + 1 + n < 2 ^ 64
    → 127 ≤ n
    → n + 1 < 2 ^ 16
    → use_counter crypto (takes (n + 1) c) name_alg name (c.count % 2 ^ 16) bits ≡ err Rc.range
unfolding use_counter
use_counter_expired crypto c name_alg name bits n w many wide = >>=-of-err _ (
    too_old (takes (n + 1) c) c.count (n + 1) (omega arith) wide
      (count-takes (n + 1) c (omega arith)))
