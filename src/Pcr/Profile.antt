-- ===== src/Pcr/Profile.antt =====
-- What a locality may do to a register: the table of the platform profile. src/tpm/core/pcr.rs.
use swtrust.Base.{ℕ, ◌^◌, Bool, true, false, ◌||◌, ◌==◌, ltb, leb, if◌then◌else◌, bit_and, bit_or}
use swtrust.Constants.Config

pub record PcrAttributes : Type 0 where
  pub reset_locality : ℕ
  pub extend_locality : ℕ
  pub starts_at_ones : Bool

-- The locality masks of the source: bit `n` is locality `n`.
abbrev pub all_localities : ℕ
all_localities = 0b11111

abbrev pub locality_four : ℕ
locality_four = 0b10000

abbrev pub locality_two_to_four : ℕ
locality_two_to_four = 0b11100

abbrev pub locality_zero_to_three : ℕ
locality_zero_to_three = 0b01111

abbrev pub locality_one_to_three : ℕ
locality_one_to_three = 0b01110

abbrev pub locality_two_and_three : ℕ
locality_two_and_three = 0b01100

abbrev pub locality_two : ℕ
locality_two = 0b00100

abbrev row : ℕ → ℕ → Bool → PcrAttributes
row reset extend ones = record {
  reset_locality = reset;
  extend_locality = extend;
  starts_at_ones = ones;
}

unfoldable pub attributes : ℕ → PcrAttributes
attributes index =
    if leb index 15
    then row 0 all_localities false
    else if index == 16 || index == 23
    then row locality_zero_to_three all_localities false
    else if index == 17 || index == 18
    then row 0 locality_two_to_four true
    else if index == 19
    then row 0 locality_two_and_three true
    else if index == 20
    then row locality_two_and_three locality_one_to_three true
    else if index == 21 || index == 22
    then row locality_two_and_three locality_two true
    else row 0 0 false

unfoldable pub is_saved : ℕ → Bool
is_saved index = leb index 15

unfoldable pub reset_capability_locality : ℕ → ℕ
unfolding attributes
reset_capability_locality index =
    let attrs = attributes index in
    if attrs.starts_at_ones then bit_or attrs.reset_locality locality_four else attrs.reset_locality

unfoldable pub is_implemented : ℕ → Bool
is_implemented index = ltb index Config.implementation_pcr

unfoldable pub no_increment : ℕ → Bool
no_increment index = index == 16 || index == 21 || index == 22 || index == 23

-- `locality > 4 || mask & (1 << locality) == 0`
unfoldable pub refuses_locality : ℕ → ℕ → Bool
refuses_locality mask locality = ltb 4 locality || (bit_and mask (2 ^ locality) == 0)
