-- ===== src/Commands/Policy/Orders.antt =====
-- What the comparisons of src/tpm/commands/policy.rs say of the numbers that the operands are.
use swtrust.Base.{
  ℕ, ◌+◌, ◌*◌, ◌%◌, ◌<◌, ◌≡◌, ◌⊎◌, inl, inr, refl, sym, ◌∙◌, not, some, List, [], ◌∷◌, ◌==◌, ltb,
  leb, if◌then◌else◌, length, arith, bit_and,
}
use swtrust.Base.Bits.{bit_and-pow}
use swtrust.Constants.Eo
use swtrust.Marshal.Bytes.{AreBytes, from_be, from_be_bytes}
use swtrust.Commands.Policy.Authorizations.{
  Order, less, equal, greater, order, signed_order, compare,
}

-- The order of two numbers.
abbrev pub order_of : ℕ → ℕ → Order
order_of m n = if ltb m n then less else if ltb n m then greater else equal

apart :
    (a b : List ℕ) (p q : ℕ)
    → AreBytes a
    → AreBytes b
    → length a ≡ length b
    → p < q
    → from_be p a < from_be q b
unfolding from_be
apart [] [] p q u v same lt = lt
apart [] (y ∷ ys) p q u v same lt = ground (arith, same)
apart (x ∷ xs) [] p q u v same lt = ground (arith, same)
apart (x ∷ xs) (y ∷ ys) p q (u, us) (v, vs) same lt =
    apart xs ys (p * 256 + x) (q * 256 + y) us vs (omega (arith, same)) (omega (arith, u, v, lt))

either : (x y : ℕ) → (x < y) ⊎ (y < x) ⊎ (x ≡ y)
either x y = ground arith

order-order_of :
    (a b : List ℕ) (p : ℕ)
    → AreBytes a
    → AreBytes b
    → length a ≡ length b
    → order a b ≡ order_of (from_be p a) (from_be p b)
unfolding order from_be
order-order_of [] [] p u v same = ground arith
order-order_of [] (y ∷ ys) p u v same = ground (arith, same)
order-order_of (x ∷ xs) [] p u v same = ground (arith, same)
order-order_of (x ∷ xs) (y ∷ ys) p (u, us) (v, vs) same = elim (either x y) [
  | inl lt ↦ ground (
    arith,
    lt,
    apart xs ys (p * 256 + x) (p * 256 + y) us vs (omega (arith, same)) (omega (arith, lt)),
  )
  | inr (inl gt) ↦ ground (
    arith,
    gt,
    apart ys xs (p * 256 + y) (p * 256 + x) vs us (omega (arith, same)) (omega (arith, gt)),
  )
  | inr (inr eq) ↦
      rw eq (ground (arith, order-order_of xs ys (p * 256 + y) us vs (omega (arith, same))))
]

-- A first octet with its sign bit turned: the number that a two's complement stands for, raised by half
-- of the range.
abbrev pub raised : List ℕ → List ℕ
raised [] = []
raised (x ∷ xs) = (x + 128) % 256 ∷ xs

sign : (x : ℕ) → x < 256 → (bit_and x 0x80 == 0) ≡ ltb x 128
sign x h = ground (arith, h, bit_and-pow 7 x)

signed-raised :
    (a b : List ℕ)
    → AreBytes a
    → AreBytes b
    → length a ≡ length b
    → signed_order a b ≡ order (raised a) (raised b)
unfolding signed_order order
signed-raised [] [] u v same = refl
signed-raised [] (y ∷ ys) u v same = ground (arith, same)
signed-raised (x ∷ xs) [] u v same = ground (arith, same)
signed-raised (x ∷ xs) (y ∷ ys) (u, us) (v, vs) same = ground (arith, sign x u, sign y v)

raised-AreBytes : (a : List ℕ) → AreBytes a → AreBytes (raised a)
raised-AreBytes [] u = u
raised-AreBytes (x ∷ xs) (u, us) = (omega arith, us)

length-raised : (a : List ℕ) → length (raised a) ≡ length a
length-raised [] = refl
length-raised (x ∷ xs) = refl

-- The comparisons of operands of one length are those of numbers: without a sign, of the numbers that
-- the operands are in big-endian order, and with one, of the numbers that they are as two's complements,
-- both raised by half of the range.
pub compare_numbers :
    (a b : List ℕ)
    → AreBytes a
    → AreBytes b
    → length a ≡ length b
    → (compare a b Eo.eq ≡ some (from_be_bytes a == from_be_bytes b))
      × (compare a b Eo.neq ≡ some (not (from_be_bytes a == from_be_bytes b)))
      × (compare a b Eo.unsigned_lt ≡ some (ltb (from_be_bytes a) (from_be_bytes b)))
      × (compare a b Eo.unsigned_gt ≡ some (ltb (from_be_bytes b) (from_be_bytes a)))
      × (compare a b Eo.unsigned_le ≡ some (leb (from_be_bytes a) (from_be_bytes b)))
      × (compare a b Eo.unsigned_ge ≡ some (leb (from_be_bytes b) (from_be_bytes a)))
      × (compare a b Eo.signed_lt
          ≡ some (ltb (from_be_bytes (raised a)) (from_be_bytes (raised b))))
      × (compare a b Eo.signed_gt
          ≡ some (ltb (from_be_bytes (raised b)) (from_be_bytes (raised a))))
      × (compare a b Eo.signed_le
          ≡ some (leb (from_be_bytes (raised a)) (from_be_bytes (raised b))))
      × (compare a b Eo.signed_ge
          ≡ some (leb (from_be_bytes (raised b)) (from_be_bytes (raised a))))
unfolding compare from_be_bytes
compare_numbers a b u v same =
    let e = order-order_of a b 0 u v same in
    let s : signed_order a b ≡ order_of (from_be 0 (raised a)) (from_be 0 (raised b)) =
      signed-raised a b u v same
      ∙ order-order_of (raised a) (raised b) 0 (raised-AreBytes a u) (raised-AreBytes b v)
          (length-raised a ∙ same ∙ sym (length-raised b)) in
    (
      ground (arith, e, same),
      ground (arith, e, same),
      ground (arith, e, same),
      ground (arith, e, same),
      ground (arith, e, same),
      ground (arith, e, same),
      ground (arith, s, same),
      ground (arith, s, same),
      ground (arith, s, same),
      ground (arith, s, same),
    )
