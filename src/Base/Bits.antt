-- ===== src/Base/Bits.antt =====
-- The bit operations of the sources at variables: single bits of `|`, `&` and `!`.
use Prim.Native.Nat.{
  ℕ, zero, suc, ◌+◌, ◌-◌, ◌*◌, ◌/◌, ◌%◌, ◌^◌, ◌≤◌, ◌<◌, min, max, bit_and, bit_or, bit_xor, digits,
  differ, bit_and-bitwise, bit_or-bitwise, bit_xor-bitwise,
}
use mathlib.Core.Path.{◌≡◌, refl, ap}
use mathlib.Core.Bool.{Bool, false, not, ◌&&◌, ◌||◌}
use native.Mathlib.Nat.{pow-suc, one-le-pow, div-div-eq-div-mul, div-add-mod}
use native.Mathlib.Omega.{arith}
use swtrust.Base.Tests.{◌==◌, if◌then◌else◌}

-- The digit recursion that the native operations stand for, with any sufficient fuel.
digits_fuel :
    (f : ℕ → ℕ) (g : ℕ → ℕ → ℕ) (n m a b : ℕ) → a ≤ n → a ≤ m → digits f g n a b ≡ digits f g m a b
digits_fuel f g zero zero a b p q = refl
digits_fuel f g zero (suc m) zero b p q = refl
digits_fuel f g zero (suc m) (suc a) b p q = absurd (omega arith)
digits_fuel f g (suc n) zero zero b p q = refl
digits_fuel f g (suc n) zero (suc a) b p q = absurd (omega arith)
digits_fuel f g (suc n) (suc m) zero b p q = refl
digits_fuel f g (suc n) (suc m) (suc a) b p q =
    omega (arith, digits_fuel f g n m (suc a / 2) (b / 2) (omega arith) (omega arith))

bit_and_step : (x y : ℕ) → bit_and x y ≡ bit_and (x / 2) (y / 2) * 2 + min (x % 2) (y % 2)
bit_and_step zero y = omega (arith, bit_and-bitwise 0 y, bit_and-bitwise 0 (y / 2))
bit_and_step (suc x) y = omega (
  arith,
  bit_and-bitwise (suc x) y,
  bit_and-bitwise (suc x / 2) (y / 2),
  digits_fuel (λ y. zero) min x (suc x / 2) (suc x / 2) (y / 2) (omega arith) (omega arith),
)

bit_or_step : (a b : ℕ) → bit_or a b ≡ bit_or (a / 2) (b / 2) * 2 + max (a % 2) (b % 2)
bit_or_step zero b = omega (arith, bit_or-bitwise 0 b, bit_or-bitwise 0 (b / 2))
bit_or_step (suc a) b = omega (
  arith,
  bit_or-bitwise (suc a) b,
  bit_or-bitwise (suc a / 2) (b / 2),
  digits_fuel (λ b. b) max a (suc a / 2) (suc a / 2) (b / 2) (omega arith) (omega arith),
)

-- Bit `k` of a number.
abbrev pub test_bit : ℕ → ℕ → Bool
test_bit x zero = x % 2 == 1
test_bit x (suc k) = test_bit (x / 2) k

-- `!m` on a `w`-bit integer.
abbrev pub complement : ℕ → ℕ → ℕ
complement w m = 2 ^ w - 1 - m

two_pow_pos : (k : ℕ) → 1 ≤ 2 ^ k
two_pow_pos k = one-le-pow k 2 (omega arith)

pub test_bit-or : (k a b : ℕ) → test_bit (bit_or a b) k ≡ (test_bit a k || test_bit b k)
test_bit-or zero a b = ground (arith, bit_or_step a b)
test_bit-or (suc k) a b = rw (half_or a b) (test_bit-or k (a / 2) (b / 2))
  where
    half_or : (a b : ℕ) → bit_or a b / 2 ≡ bit_or (a / 2) (b / 2)
    half_or a b = omega (arith, bit_or_step a b)

pub test_bit-and : (k a b : ℕ) → test_bit (bit_and a b) k ≡ (test_bit a k && test_bit b k)
test_bit-and zero a b = ground (arith, bit_and_step a b)
test_bit-and (suc k) a b = rw (half_and a b) (test_bit-and k (a / 2) (b / 2))
  where
    half_and : (a b : ℕ) → bit_and a b / 2 ≡ bit_and (a / 2) (b / 2)
    half_and a b = omega (arith, bit_and_step a b)

pub test_bit-zero : (k : ℕ) → test_bit 0 k ≡ false
test_bit-zero zero = refl
test_bit-zero (suc k) = test_bit-zero k

half_pow : (k : ℕ) → 2 ^ suc k / 2 ≡ 2 ^ k
half_pow k = omega (arith, pow-suc 2 k)

pub test_bit-pow : (i k : ℕ) → test_bit (2 ^ i) k ≡ (i == k)
test_bit-pow zero zero = refl
test_bit-pow zero (suc k) = ground (arith, test_bit-zero k)
test_bit-pow (suc i) zero = ground (arith, pow-suc 2 i)
test_bit-pow (suc i) (suc k) = rw (half_pow i) (ground (arith, test_bit-pow i k))

-- `!m` flips each bit of the word.
pub test_bit-complement :
    (w m k : ℕ) → k < w → m < 2 ^ w → test_bit (complement w m) k ≡ not (test_bit m k)
test_bit-complement zero m k h l = absurd (omega arith)
test_bit-complement (suc w) m zero h l = ground (arith, pow-suc 2 w, two_pow_pos w)
test_bit-complement (suc w) m (suc k) h l =
    rw (half_complement w m l)
      (test_bit-complement w (m / 2) k (omega arith) (omega (arith, pow-suc 2 w)))
  where
    half_complement : (w m : ℕ) → m < 2 ^ suc w → complement (suc w) m / 2 ≡ complement w (m / 2)
    half_complement w m l = omega (arith, pow-suc 2 w, two_pow_pos w)

bit_and-zero_fuel : (bound x : ℕ) → x ≤ bound → bit_and x 0 ≡ 0
bit_and-zero_fuel bound zero small = refl
bit_and-zero_fuel zero (suc x) small = absurd (omega arith)
bit_and-zero_fuel (suc bound) (suc x) small =
    let half = bit_and-zero_fuel bound (suc x / 2) (omega arith) in
    omega (arith, half, bit_and_step (suc x) 0)

-- `x & (1 << k)` is the mask or nothing.
pub bit_and-pow : (k x : ℕ) → bit_and x (2 ^ k) ≡ (if test_bit x k then 2 ^ k else 0)
bit_and-pow zero x = ground (arith, bit_and_step x 1, bit_and-zero_fuel (x / 2) (x / 2))
bit_and-pow (suc k) x =
    ground (arith, bit_and_step x (2 ^ suc k), half_pow k, bit_and-pow k (x / 2), pow-suc 2 k)

-- The test `x & (1 << k) != 0`.
pub bit_and-pow_zero : (k x : ℕ) → (bit_and x (2 ^ k) == 0) ≡ not (test_bit x k)
bit_and-pow_zero k x = ground (arith, bit_and-pow k x, two_pow_pos k)

-- The test `x & mask == mask` for a mask of one bit.
pub bit_and-pow_self : (k x : ℕ) → (bit_and x (2 ^ k) == 2 ^ k) ≡ test_bit x k
bit_and-pow_self k x = ground (arith, bit_and-pow k x, two_pow_pos k)

pub bit_or-lt : (w a b : ℕ) → a < 2 ^ w → b < 2 ^ w → bit_or a b < 2 ^ w
bit_or-lt zero a b p q =
    let e : a ≡ 0 = omega arith in let f : b ≡ 0 = omega arith in rw (e, f) (omega arith)
bit_or-lt (suc w) a b p q = omega (
  arith,
  bit_or_step a b,
  pow-suc 2 w,
  bit_or-lt w (a / 2) (b / 2) (omega (arith, pow-suc 2 w)) (omega (arith, pow-suc 2 w)),
)

pub bit_and-lt : (w a b : ℕ) → a < 2 ^ w → bit_and a b < 2 ^ w
bit_and-lt zero a b p = let e : a ≡ 0 = omega arith in rw e (omega (arith, bit_and-bitwise 0 b))
bit_and-lt (suc w) a b p = omega (
  arith,
  bit_and_step a b,
  pow-suc 2 w,
  bit_and-lt w (a / 2) (b / 2) (omega (arith, pow-suc 2 w)),
)

pub pow-lt-pow : (i w : ℕ) → i < w → 2 ^ i < 2 ^ w
pow-lt-pow i zero h = absurd (omega arith)
pow-lt-pow zero (suc w) h = omega (arith, pow-suc 2 w, two_pow_pos w)
pow-lt-pow (suc i) (suc w) h = omega (arith, pow-suc 2 w, pow-suc 2 i, pow-lt-pow i w (omega arith))

-- Two words with the same bits are equal.
pub test_bit-ext :
    (w a b : ℕ) → a < 2 ^ w → b < 2 ^ w → ((k : ℕ) → k < w → test_bit a k ≡ test_bit b k) → a ≡ b
test_bit-ext zero a b p q h = omega arith
test_bit-ext (suc w) a b p q h = ground (
  arith,
  h 0 (omega arith),
  test_bit-ext w (a / 2) (b / 2) (omega (arith, pow-suc 2 w)) (omega (arith, pow-suc 2 w))
      (λ k l. h (suc k) (omega arith)),
)

pub test_bit_above : (w k a : ℕ) → a < 2 ^ w → w ≤ k → test_bit a k ≡ false
test_bit_above zero k a p h = let e : a ≡ 0 = omega arith in rw e (test_bit-zero k)
test_bit_above (suc w) zero a p h = absurd (omega arith)
test_bit_above (suc w) (suc k) a p h =
    test_bit_above w k (a / 2) (omega (arith, pow-suc 2 w)) (omega arith)

mod_half : (a m : ℕ) → a % (2 * m) ≡ a / 2 % m * 2 + a % 2
mod_half a m =
    let e : a / 2 / m ≡ a / (2 * m) = div-div-eq-div-mul a 2 m in
    omega (arith, e, div-add-mod a (2 * m), div-add-mod (a / 2) m, ap (λ (t : ℕ). m * t) e)

two_pow_suc : (k : ℕ) → 2 ^ suc k ≡ 2 * 2 ^ k
two_pow_suc k = omega (arith, pow-suc 2 k)

half_mask : (k : ℕ) → (2 ^ suc k - 1) / 2 ≡ 2 ^ k - 1
half_mask k = omega (arith, pow-suc 2 k, two_pow_pos k)

odd_mask : (k : ℕ) → (2 ^ suc k - 1) % 2 ≡ 1
odd_mask k = omega (arith, pow-suc 2 k, two_pow_pos k)

-- A mask of `k` low bits is the remainder by `2 ^ k`.
pub bit_and_mask : (k a : ℕ) → bit_and a (2 ^ k - 1) ≡ a % 2 ^ k
bit_and_mask zero a = omega (arith, bit_and-zero_fuel a a)
bit_and_mask (suc k) a =
    let e : a % 2 ^ suc k ≡ a / 2 % 2 ^ k * 2 + a % 2 = rw (two_pow_suc k) (mod_half a (2 ^ k)) in
    rw (e, bit_and_step a (2 ^ suc k - 1), half_mask k, odd_mask k, bit_and_mask k (a / 2))
      (omega arith)

bit_xor_step : (a b : ℕ) → bit_xor a b ≡ bit_xor (a / 2) (b / 2) * 2 + differ (a % 2) (b % 2)
bit_xor_step zero b = omega (arith, bit_xor-bitwise 0 b, bit_xor-bitwise 0 (b / 2))
bit_xor_step (suc a) b = omega (
  arith,
  bit_xor-bitwise (suc a) b,
  bit_xor-bitwise (suc a / 2) (b / 2),
  digits_fuel (λ b. b) differ a (suc a / 2) (suc a / 2) (b / 2) (omega arith) (omega arith),
)

differ-eq_zero : (x y : ℕ) → differ x y ≡ 0 → x ≡ y
differ-eq_zero zero y h = omega arith
differ-eq_zero (suc x) zero h = absurd (omega arith)
differ-eq_zero (suc x) (suc y) h = ap suc (differ-eq_zero x y h)

differ_self : (x : ℕ) → differ x x ≡ 0
differ_self zero = refl
differ_self (suc x) = differ_self x

bit_xor-eq_zero_fuel : (bound a b : ℕ) → a ≤ bound → bit_xor a b ≡ 0 → a ≡ b
bit_xor-eq_zero_fuel bound zero b small h = omega (arith, bit_xor-bitwise 0 b)
bit_xor-eq_zero_fuel zero (suc a) b small h = absurd (omega arith)
bit_xor-eq_zero_fuel (suc bound) (suc a) b small h =
    let half =
      bit_xor-eq_zero_fuel bound (suc a / 2) (b / 2) (omega arith)
        (omega (arith, bit_xor_step (suc a) b)) in
    let low = differ-eq_zero (suc a % 2) (b % 2) (omega (arith, bit_xor_step (suc a) b)) in
    omega arith

pub bit_xor-eq_zero : (a b : ℕ) → bit_xor a b ≡ 0 → a ≡ b
bit_xor-eq_zero a b h = bit_xor-eq_zero_fuel a a b (omega arith) h

bit_xor_self_fuel : (bound a : ℕ) → a ≤ bound → bit_xor a a ≡ 0
bit_xor_self_fuel bound zero small = omega (arith, bit_xor-bitwise 0 0)
bit_xor_self_fuel zero (suc a) small = absurd (omega arith)
bit_xor_self_fuel (suc bound) (suc a) small = omega (
  arith,
  bit_xor_step (suc a) (suc a),
  differ_self (suc a % 2),
  bit_xor_self_fuel bound (suc a / 2) (omega arith),
)

pub bit_xor_self : (a : ℕ) → bit_xor a a ≡ 0
bit_xor_self a = bit_xor_self_fuel a a (omega arith)

bit_or-eq_zero_fuel : (bound a b : ℕ) → a ≤ bound → bit_or a b ≡ 0 → (a ≡ 0) × (b ≡ 0)
bit_or-eq_zero_fuel bound zero b small h = omega (arith, bit_or-bitwise 0 b)
bit_or-eq_zero_fuel zero (suc a) b small h = absurd (omega arith)
bit_or-eq_zero_fuel (suc bound) (suc a) b small h =
    let (half, other) =
      bit_or-eq_zero_fuel bound (suc a / 2) (b / 2) (omega arith)
        (omega (arith, bit_or_step (suc a) b)) in
    omega (arith, bit_or_step (suc a) b)

pub bit_or-eq_zero : (a b : ℕ) → bit_or a b ≡ 0 → (a ≡ 0) × (b ≡ 0)
bit_or-eq_zero a b h = bit_or-eq_zero_fuel a a b (omega arith) h

bit_or-zero_fuel : (bound a : ℕ) → a ≤ bound → bit_or a 0 ≡ a
bit_or-zero_fuel bound zero small = omega (arith, bit_or-bitwise 0 0)
bit_or-zero_fuel zero (suc a) small = absurd (omega arith)
bit_or-zero_fuel (suc bound) (suc a) small =
    omega (arith, bit_or_step (suc a) 0, bit_or-zero_fuel bound (suc a / 2) (omega arith))

twice : (a x : ℕ) → a * (2 * x) ≡ a * x * 2
twice a x = grind arith

-- Bits that do not overlap are added.
pub bit_or_disjoint : (k a b : ℕ) → b < 2 ^ k → bit_or (a * 2 ^ k) b ≡ a * 2 ^ k + b
bit_or_disjoint zero a b h =
    let e : b ≡ 0 = omega arith in rw e (omega (arith, bit_or-zero_fuel (a * 1) (a * 1)))
bit_or_disjoint (suc k) a b h =
    let e : a * 2 ^ suc k ≡ a * 2 ^ k * 2 = rw (two_pow_suc k) (twice a (2 ^ k)) in
    let half : a * 2 ^ suc k / 2 ≡ a * 2 ^ k = omega arith in
    let step : bit_or (a * 2 ^ suc k) b
        ≡ bit_or (a * 2 ^ k) (b / 2) * 2 + max (a * 2 ^ suc k % 2) (b % 2) =
      rw (← half) (bit_or_step (a * 2 ^ suc k) b) in
    omega (arith, step, bit_or_disjoint k a (b / 2) (omega (arith, pow-suc 2 k)))
