-- ===== src/Commits/Window.antt =====
-- Which counter a caller names, and what the errors mean. src/tpm/core/commit.rs.
use swtrust.Base.{ℕ, ◌+◌, ◌%◌, ◌^◌, ◌≤◌, ◌<◌, ◌≡◌, ap, ◌∙◌, true, false, List, arith, ◌⊎◌}
use swtrust.Constants.Rc
use swtrust.Error.{ok, err, >>=-of-ok, >>=-of-err, >>=-eq-ok}
use swtrust.Crypto.Hash.{Crypto}
use swtrust.Commits.{
  Commits, is_set, set_used, is_ready, derive, age, full_counter, use_counter, peek,
}
use swtrust.Commits.Slots.{AreSlots, is_set_slot, is_set-set_used}

-- The counter `full` that `counter` names: the newest with those low 16 bits, 1 to 127 behind the
-- next one, and outstanding.
pub record Names (c : Commits) (counter full : ℕ) : Type 0 where
  pub behind : full < c.count
  pub recent : c.count < full + 128
  pub low : counter ≡ full % 2 ^ 16
  pub set : is_set c.used full ≡ true

module _ (c : Commits) (counter : ℕ) (word : counter < 2 ^ 16) where
  pub full_counter-Names : (full : ℕ) → full_counter c counter ≡ ok full → Names c counter full
  unfolding full_counter age
  full_counter-Names full e = ground (arith, is_set_slot c.used counter full)

  pub Names-full_counter : (full : ℕ) → Names c counter full → full_counter c counter ≡ ok full
  unfolding full_counter age
  Names-full_counter full n = ground (arith, is_set_slot c.used counter full)

  spent_counter :
      (full : ℕ)
      → AreSlots c.used
      → Names c counter full
      → full_counter (record c { used = set_used c.used full false }) counter ≡ err Rc.value
  unfolding full_counter age
  spent_counter full v n = ground (arith, is_set-set_used c.used full counter false v)

  -- Which error a refused counter gets: RANGE outside the window, VALUE inside it where its slot is
  -- clear, and no other.
  pub full_counter_errors :
      (e : ℕ)
      → full_counter c counter ≡ err e
      → ((e ≡ Rc.range) × ((age c counter ≡ 0) ⊎ (128 ≤ age c counter)))
        ⊎ ((e ≡ Rc.value) × ((is_set c.used counter ≡ false) ⊎ (c.count < age c counter)))
  unfolding full_counter
  full_counter_errors e h = ground arith

module _ (crypto : Crypto) (c : Commits) (name_alg : ℕ) (name : List ℕ) (counter bits : ℕ) where
  -- A successful use derives for the counter named, and clears its slot.
  pub use_counter-Names :
      {r : List ℕ} {c' : Commits}
      → counter < 2 ^ 16
      → use_counter crypto c name_alg name counter bits ≡ ok (r, c')
      → (full : ℕ) × Names c counter full
        × (derive crypto c name_alg name full bits ≡ ok r)
        × (c' ≡ record c { used = set_used c.used full false })
  unfolding use_counter
  use_counter-Names {r} {c'} word e =
      let (full, ef, e1) = >>=-eq-ok (full_counter c counter) _ e in
      let (v, ev, e2) = >>=-eq-ok (derive crypto c name_alg name full bits) _ e1 in
      let same : v ≡ r = cc in
      (full, full_counter-Names c counter word full ef, ev ∙ ap ok same, cc)

  pub Names-use_counter :
      (full : ℕ) {r : List ℕ}
      → counter < 2 ^ 16
      → Names c counter full
      → derive crypto c name_alg name full bits ≡ ok r
      → use_counter crypto c name_alg name counter bits
        ≡ ok (r, record c { used = set_used c.used full false })
  unfolding use_counter
  Names-use_counter full word n d =
      >>=-of-ok _ (Names-full_counter c counter word full n) ∙ >>=-of-ok _ d

  -- A counter that was used is spent: a second use and a look at it both give VALUE.
  pub use_counter_twice :
      {r : List ℕ} {c' : Commits}
      → counter < 2 ^ 16
      → AreSlots c.used
      → use_counter crypto c name_alg name counter bits ≡ ok (r, c')
      → (use_counter crypto c' name_alg name counter bits ≡ err Rc.value)
        × (peek crypto c' name_alg name counter bits ≡ err Rc.value)
  unfolding use_counter peek
  use_counter_twice {r} {c'} word v e =
      let (full, n, d, shape) = use_counter-Names word e in
      let gone : full_counter c' counter ≡ err Rc.value =
        rw shape (spent_counter c counter word full v n) in
      (>>=-of-err _ gone, >>=-of-err _ gone)

-- The readiness test and the derivation do not look at the counter or at the slots.
pub derive-used :
    (crypto : Crypto) (c d : Commits) (name_alg : ℕ) (name : List ℕ) (full bits : ℕ)
    → d.random ≡ c.random
    → is_ready d ≡ is_ready c
    → derive crypto d name_alg name full bits ≡ derive crypto c name_alg name full bits
unfolding derive
derive-used crypto c d name_alg name full bits e f = simp (e, f)
