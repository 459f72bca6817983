-- ===== src/Protect.antt =====
-- `constant_time_eq` of src/tpm/core/protect.rs: the comparison of octet strings without an early exit.
use swtrust.Base.{
  ℕ, ◌≡◌, ◌↔◌, refl, Bool, true, false, List, [], ◌∷◌, ◌==◌, if◌then◌else◌, length, arith, bit_or,
}
use Prim.Native.Nat.{bit_xor}
use swtrust.Base.Bits.{bit_or-eq_zero, bit_xor-eq_zero, bit_xor_self}

-- `diff |= x ^ y` over the pairs.
unfoldable pub differences : ℕ → List ℕ → List ℕ → ℕ
differences diff [] ys = diff
differences diff (x ∷ xs) [] = diff
differences diff (x ∷ xs) (y ∷ ys) = differences (bit_or diff (bit_xor x y)) xs ys

unfoldable pub constant_time_eq : List ℕ → List ℕ → Bool
unfolding differences
constant_time_eq a b = if length a == length b then differences 0 a b == 0 else false

differences_none :
    (diff : ℕ) (a b : List ℕ)
    → length a ≡ length b
    → differences diff a b ≡ 0
    → (diff ≡ 0) × (a ≡ b)
unfolding differences
differences_none diff [] [] l h = (h, refl)
differences_none diff [] (y ∷ ys) l h = absurd (omega arith)
differences_none diff (x ∷ xs) [] l h = absurd (omega arith)
differences_none diff (x ∷ xs) (y ∷ ys) l h =
    let (none_here, same) = differences_none (bit_or diff (bit_xor x y)) xs ys (omega arith) h in
    let (before, equal) = bit_or-eq_zero diff (bit_xor x y) none_here in
    let head : x ≡ y = bit_xor-eq_zero x y equal in (before, cc)

differences_self : (a : List ℕ) → differences 0 a a ≡ 0
unfolding differences
differences_self [] = refl
differences_self (x ∷ xs) = rw (bit_xor_self x) (differences_self xs)

pub constant_time_eq_iff : (a b : List ℕ) → (constant_time_eq a b ≡ true) ↔ (a ≡ b)
unfolding constant_time_eq
constant_time_eq_iff a b = (
  λ h. (differences_none 0 a b (ground arith) (ground arith)).1,
  λ e. rw (← e) (ground (arith, differences_self a)),
)
