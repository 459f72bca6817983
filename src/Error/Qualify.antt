-- ===== src/Error/Qualify.antt =====
-- What a qualified response code says, src/tpm/error.rs.
use swtrust.Base.{
  ℕ, zero, suc, ◌+◌, ◌-◌, ◌*◌, ◌/◌, ◌%◌, ◌≤◌, ◌<◌, ◌≡◌, refl, Bool, true, false, ◌&&◌, ◌||◌, ◌==◌,
  ltb, leb, if◌then◌else◌, arith, bit_and, bit_or, eq→==, inl, inr, Bool-cases,
}
use swtrust.Base.Bits.{bit_and_mask, bit_and-pow_zero, test_bit}
use swtrust.Error.{TpmRc, is_format_one, with_handle, with_parameter, with_session, at_parameter}
use swtrust.Constants.Rc

-- What the P, S and N fields of a format-one code designate, Part 2 clause 6.6.2.
pub data Position : Type 0 where
  parameter handle session : ℕ → Position
  unqualified : Position

-- The reading of Part 2 Figure 24: bit 6 set is a parameter with number 11:8; bit 6 clear is a
-- session if bit 11 is set, and a handle if not, with number 10:8. Number zero is no position.
abbrev pub position : TpmRc → Position
position c =
    let n : ℕ = c / 256 % 16 in
    if n == 0
    then unqualified
    else if c / 64 % 2 == 1
    then parameter n
    else if ltb n 8
    then handle n
    else if n == 8
    then unqualified
    else session (n - 8)

-- The error number, bits 5:0.
abbrev pub number : TpmRc → ℕ
number c = c % 64

-- Over a small range, check every value by evaluation.
every : ℕ → (ℕ → Bool) → Bool
every zero test = true
every (suc m) test = every m test && test m

every_at : (m : ℕ) (test : ℕ → Bool) (k : ℕ) → every m test ≡ true → k < m → test k ≡ true
unfolding every
every_at zero test k passed below = absurd (omega arith)
every_at (suc m) test k passed below = ground (arith, every_at m test k)

-- The composed code is a sum of disjoint fields.
abbrev composed : ℕ → ℕ → ℕ → ℕ
composed kind c index = bit_or (bit_or (bit_or 0x80 (bit_and c 0x03f)) kind) (index * 256)

composed_table : ℕ → Bool
composed_table kind = every 64 λ b.
    every 16
      λ i. leb 8 i && (kind == 0x800) || (composed kind (b + 128) i == 128 + b + kind + i * 256)

composed_handle : composed_table 0x000 ≡ true
unfolding composed_table every
composed_handle = refl

composed_parameter : composed_table 0x040 ≡ true
unfolding composed_table every
composed_parameter = refl

composed_session : composed_table 0x800 ≡ true
unfolding composed_table every
composed_session = refl

composed_sum :
    (kind b index : ℕ)
    → composed_table kind ≡ true
    → b < 64
    → index < 16
    → (leb 8 index && (kind == 0x800)) ≡ false
    → composed kind (b + 128) index ≡ 128 + b + kind + index * 256
unfolding composed_table
composed_sum kind b index table hb hi low = ground (
  arith,
  every_at 16
      (λ i. leb 8 i && (kind == 0x800) || (composed kind (b + 128) i == 128 + b + kind + i * 256))
      index
      (every_at 64
        (λ b. every 16 λ i.
          leb 8 i && (kind == 0x800) || (composed kind (b + 128) i == 128 + b + kind + i * 256))
        b table hb)
      hi,
)

-- A base format-one code is in range for the three qualifiers.
abbrev pub IsBase : TpmRc → Type 0
IsBase c = (0x80 ≤ c) × (c ≤ 0xbf)

module _ (c : TpmRc) (base : IsBase c) (index : ℕ) (low : 1 ≤ index) where
  pub with_handle_sum : index ≤ 7 → with_handle c index ≡ c + index * 256
  unfolding with_handle
  with_handle_sum high =
      ground (arith, composed_sum 0x000 (c - 128) index composed_handle (omega arith))

  pub with_parameter_sum : index ≤ 15 → with_parameter c index ≡ c + 64 + index * 256
  unfolding with_parameter
  with_parameter_sum high =
      ground (arith, composed_sum 0x040 (c - 128) index composed_parameter (omega arith))

  pub with_session_sum : index ≤ 7 → with_session c index ≡ c + 2048 + index * 256
  unfolding with_session
  with_session_sum high =
      ground (arith, composed_sum 0x800 (c - 128) index composed_session (omega arith))

with_handle_out : (c index : ℕ) → (leb 1 index && leb index 7) ≡ false → with_handle c index ≡ c
unfolding with_handle
with_handle_out c index h = ground arith

with_session_out : (c index : ℕ) → (leb 1 index && leb index 7) ≡ false → with_session c index ≡ c
unfolding with_session
with_session_out c index h = ground arith

with_parameter_out :
    (c index : ℕ) → (leb 1 index && leb index 15) ≡ false → with_parameter c index ≡ c
unfolding with_parameter
with_parameter_out c index h = ground arith

handle_reads_back :
    (c index : ℕ)
    → IsBase c
    → (position (with_handle c index)
        ≡ (if leb 1 index && leb index 7 then handle index else unqualified))
      × (number (with_handle c index) ≡ number c)
handle_reads_back c index base = elim (Bool-cases (leb 1 index && leb index 7)) [
  | inl inside ↦ rw (with_handle_sum c base index (ground arith) (ground arith)) (ground arith)
  | inr outside ↦ rw (with_handle_out c index outside) (ground arith)
]

session_reads_back :
    (c index : ℕ)
    → IsBase c
    → (position (with_session c index)
        ≡ (if leb 1 index && leb index 7 then session index else unqualified))
      × (number (with_session c index) ≡ number c)
session_reads_back c index base = elim (Bool-cases (leb 1 index && leb index 7)) [
  | inl inside ↦ rw (with_session_sum c base index (ground arith) (ground arith)) (ground arith)
  | inr outside ↦ rw (with_session_out c index outside) (ground arith)
]

parameter_reads_back :
    (c index : ℕ)
    → IsBase c
    → (position (with_parameter c index)
        ≡ (if leb 1 index && leb index 15 then parameter index else unqualified))
      × (number (with_parameter c index) ≡ number c)
parameter_reads_back c index base = elim (Bool-cases (leb 1 index && leb index 15)) [
  | inl inside ↦ rw (with_parameter_sum c base index (ground arith) (ground arith)) (ground arith)
  | inr outside ↦ rw (with_parameter_out c index outside) (ground arith)
]

-- For a base format-one code every qualifier reads back: a handle or session number 1 to 7, and a
-- parameter number 1 to 15, is the position that the result designates; a number out of range
-- leaves the code without a position; and the error number, bits 5:0, is kept in every case.
pub qualified_reads_back :
    (c index : ℕ)
    → IsBase c
    → (position (with_handle c index)
        ≡ (if leb 1 index && leb index 7 then handle index else unqualified))
      × (position (with_session c index)
          ≡ (if leb 1 index && leb index 7 then session index else unqualified))
      × (position (with_parameter c index)
          ≡ (if leb 1 index && leb index 15 then parameter index else unqualified))
      × (number (with_handle c index) ≡ number c)
      × (number (with_session c index) ≡ number c)
      × (number (with_parameter c index) ≡ number c)
qualified_reads_back c index base =
    let (h, hn) = handle_reads_back c index base in
    let (s, sn) = session_reads_back c index base in
    let (p, pn) = parameter_reads_back c index base in (h, s, p, hn, sn, pn)

-- A code that is no base format-one code is returned unchanged, whatever is attached to it: a
-- format-zero code, a warning, and a code that carries a qualifier already.
pub qualify_unchanged :
    (c index : ℕ)
    → ¬ IsBase c
    → (with_handle c index ≡ c) × (with_parameter c index ≡ c) × (with_session c index ≡ c)
unfolding with_handle with_parameter with_session
qualify_unchanged c index h = ground arith

or_table : every 64 (λ b. bit_or 128 b == 128 + b) ≡ true
unfolding every
or_table = refl

or_high : (b : ℕ) → b < 64 → bit_or 128 b ≡ 128 + b
or_high b h = ground (arith, every_at 64 (λ b. bit_or 128 b == 128 + b) b or_table h)

-- Stripping a format-one code of its qualifier gives back the base code.
stripped : (c' c : ℕ) → IsBase c → c' % 64 ≡ c % 64 → bit_or Rc.rc_fmt1 (bit_and c' 0x03f) ≡ c
stripped c' c base e = rw (bit_and_mask 6 c', or_high (c' % 64) (omega arith)) (omega arith)

at_parameter_base :
    (c' c index : ℕ)
    → IsBase c
    → c' / 128 % 2 ≡ 1
    → c' % 64 ≡ c % 64
    → at_parameter c' index ≡ with_parameter c index
unfolding at_parameter is_format_one
at_parameter_base c' c index base high low =
    rw (bit_and-pow_zero 7 c', bit7, stripped c' c base low) refl
  where
    bit7 : test_bit c' 7 ≡ true
    bit7 = eq→== _ _ (omega arith)

-- Moving a code to another parameter replaces the qualifier that it carries, whichever that is.
pub at_parameter_replaces :
    (c j index : ℕ)
    → IsBase c
    → 1 ≤ j
    → j ≤ 7
    → (at_parameter (with_handle c j) index ≡ with_parameter c index)
      × (at_parameter (with_session c j) index ≡ with_parameter c index)
      × (at_parameter (with_parameter c j) index ≡ with_parameter c index)
at_parameter_replaces c j index base low high = (
  rw (with_handle_sum c base j low high)
      (at_parameter_base (c + j * 256) c index base (omega arith) (omega arith)),
  rw (with_session_sum c base j low high)
      (at_parameter_base (c + 2048 + j * 256) c index base (omega arith) (omega arith)),
  rw (with_parameter_sum c base j low (omega arith))
      (at_parameter_base (c + 64 + j * 256) c index base (omega arith) (omega arith)),
)
