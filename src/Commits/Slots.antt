-- ===== src/Commits/Slots.antt =====
-- The array of outstanding counters as one bit for each slot. src/tpm/core/commit.rs.
use swtrust.Base.{
  ℕ, zero, suc, ◌/◌, ◌%◌, ◌^◌, ◌<◌, ◌≡◌, ◌≢◌, refl, ◌∙◌, Bool, true, false, some, List, ◌==◌,
  if◌then◌else◌, length, get_elem?, set, arith, get_elem?-set_self, get_elem?-set_ne, length-set,
  All-set, All-get_elem?, inl, inr, replicate, All-replicate, get_elem?_lt, Bool-cases, ==→eq,
}
use swtrust.Base.Bits.{
  complement, test_bit, test_bit-zero, test_bit-or, test_bit-and, test_bit-pow, test_bit-complement,
  bit_and_mask, bit_and-pow_zero, bit_or-lt, bit_and-lt, pow-lt-pow,
}
use swtrust.Marshal.Bytes.{IsByte, AreBytes}
use swtrust.Commits.{index, octet_bit, put_bit, is_set, set_used}

pub index-mod : (n : ℕ) → index n ≡ n % 128
unfolding index
index-mod n = bit_and_mask 7 n

-- A slot array: 16 octets.
pub record AreSlots (used : List ℕ) : Type 0 where
  pub size : length used ≡ 16
  pub bytes : AreBytes used

test_bit-put_bit :
    (b k l : ℕ) (on : Bool)
    → k < 8
    → l < 8
    → test_bit (put_bit b k on) l ≡ (if k == l then on else test_bit b l)
test_bit-put_bit b k l true hk hl = ground (arith, test_bit-or l b (2 ^ k), test_bit-pow k l)
test_bit-put_bit b k l false hk hl = ground (
  arith,
  test_bit-and l b (complement 8 (2 ^ k)),
  test_bit-complement 8 (2 ^ k) l hl (pow-lt-pow k 8 hk),
  test_bit-pow k l,
)

put_bit-IsByte : (b k : ℕ) (on : Bool) → k < 8 → IsByte b → IsByte (put_bit b k on)
put_bit-IsByte b k true hk h = bit_or-lt 8 b (2 ^ k) h (pow-lt-pow k 8 hk)
put_bit-IsByte b k false hk h = bit_and-lt 8 b (complement 8 (2 ^ k)) h

octet_bit-test_bit : (b k : ℕ) → octet_bit (some b) k ≡ test_bit b k
octet_bit-test_bit b k = ground (arith, bit_and-pow_zero k b)

set_used-some :
    (used : List ℕ) (n b : ℕ) (on : Bool)
    → get_elem? used (n % 128 / 8) ≡ some b
    → set_used used n on ≡ set used (n % 128 / 8) (put_bit b (n % 128 % 8) on)
unfolding set_used
set_used-some used n b on e = rw (index-mod n, e)

slot_write :
    (used : List ℕ) (i j b : ℕ) (on : Bool)
    → i / 8 < length used
    → get_elem? used (i / 8) ≡ some b
    → octet_bit (get_elem? (set used (i / 8) (put_bit b (i % 8) on)) (j / 8)) (j % 8)
      ≡ (if i == j then on else octet_bit (get_elem? used (j / 8)) (j % 8))
slot_write used i j b on h e = elim (Bool-cases (i / 8 == j / 8)) [
  | inl same ↦
      let p : i / 8 ≡ j / 8 = ==→eq _ _ same in
      rw
        (
          ← p,
          get_elem?-set_self used (i / 8) (put_bit b (i % 8) on) h,
          e,
          octet_bit-test_bit (put_bit b (i % 8) on) (j % 8),
          octet_bit-test_bit b (j % 8),
          test_bit-put_bit b (i % 8) (j % 8) on (omega arith) (omega arith),
        )
        (ground arith)
  | inr other ↦
      let q : i / 8 ≢ j / 8 = ground arith in
      rw (get_elem?-set_ne used (i / 8) (j / 8) (put_bit b (i % 8) on) q) (ground arith)
]

pub set_used-AreSlots :
    (used : List ℕ) (n : ℕ) (on : Bool) → AreSlots used → AreSlots (set_used used n on)
set_used-AreSlots used n on v =
    let (b, e) = get_elem?_lt used (n % 128 / 8) (omega (arith, v.size)) in
    rw (set_used-some used n b on e) (record {
      size = length-set used _ _ ∙ v.size;
      bytes = All-set IsByte used _ _ v.bytes (
          put_bit-IsByte b (n % 128 % 8) on (omega arith)
            (All-get_elem? IsByte used _ b v.bytes e));
    })

-- Writing the slot of a counter changes what is read of the counters with that slot, and of no
-- other.
pub is_set-set_used :
    (used : List ℕ) (n m : ℕ) (on : Bool)
    → AreSlots used
    → is_set (set_used used n on) m ≡ (if n % 128 == m % 128 then on else is_set used m)
unfolding is_set
is_set-set_used used n m on v =
    let (b, e) = get_elem?_lt used (n % 128 / 8) (omega (arith, v.size)) in
    rw (set_used-some used n b on e, index-mod m)
      (slot_write used (n % 128) (m % 128) b on (omega (arith, v.size)) e)

-- Counters that share a slot read alike.
pub is_set_slot : (used : List ℕ) (n m : ℕ) → n % 128 ≡ m % 128 → is_set used n ≡ is_set used m
unfolding is_set
is_set_slot used n m e = rw (index-mod n, index-mod m, e)

clear_slot : (n i k : ℕ) → octet_bit (get_elem? (replicate n 0) i) k ≡ false
clear_slot zero i k = refl
clear_slot (suc n) zero k = octet_bit-test_bit 0 k ∙ test_bit-zero k
clear_slot (suc n) (suc i) k = clear_slot n i k

-- After a reset no slot is set.
pub is_set-replicate : (m : ℕ) → is_set (replicate 16 0) m ≡ false
unfolding is_set
is_set-replicate m = clear_slot 16 (index m / 8) (index m % 8)

pub replicate-AreSlots : AreSlots (replicate 16 0)
replicate-AreSlots = record { size = refl; bytes = All-replicate IsByte 16 0 (omega arith) }
