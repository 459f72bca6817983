-- ===== src/Pcr/Banks.antt =====
-- `PcrBanks` of src/tpm/core/pcr.rs. A method of `&mut PcrBanks` returns its result and the banks
-- that it leaves, also where it fails.
use swtrust.Base.{
  ℕ, ◌+◌, ◌-◌, ◌%◌, ◌^◌, Bool, true, false, not, ◌||◌, Option, none, some, List, [], ◌∷◌, ◌++◌, map,
  ◌==◌, if◌then◌else◌, length, get_elem?, replicate, take,
}
use swtrust.Base.Maps.{Map, lookup, insert, keys, contains_key, map_values}
use swtrust.Constants.Rc
use swtrust.Constants.Config
use swtrust.Error.{TpmResult, ok, err}
use swtrust.Structures.Base.{digest_size}
use swtrust.Pcr.Profile.{attributes, is_saved, no_increment}

pub record PcrBanks : Type 0 where
  pub banks : Map (List (List ℕ))
  pub allocated : Map (List Bool)
  pub update_counter : ℕ  -- u32

abbrev pub Outcome : Type 0
Outcome = TpmResult (Unit {0}) × PcrBanks

unfoldable pub default : PcrBanks
default = record { banks = []; allocated = []; update_counter = 0 }

unfoldable pub bump_update_counter : PcrBanks → PcrBanks
bump_update_counter b = record b { update_counter = (b.update_counter + 1) % 2 ^ 32 }

-- `if !no_increment(index) { counter += 1 }`
unfoldable pub count_change : ℕ → PcrBanks → PcrBanks
count_change index b = if no_increment index then b else bump_update_counter b

unfoldable pub reset_update_counter : PcrBanks → PcrBanks
reset_update_counter b = record b { update_counter = 0 }

unfoldable pub set_update_counter : ℕ → PcrBanks → PcrBanks
set_update_counter value b = record b { update_counter = value }

-- A loop over `bank.iter_mut().enumerate()`.
unfoldable pub map_from : ℕ → (ℕ → List ℕ → List ℕ) → List (List ℕ) → List (List ℕ)
map_from i f [] = []
map_from i f (x ∷ xs) = f i x ∷ map_from (i + 1) f xs

-- `digest_size(alg).unwrap_or(0)`
abbrev pub or_zero : Option ℕ → ℕ
or_zero none = 0
or_zero (some n) = n

abbrev pub fill_of : ℕ → ℕ
fill_of index = if (attributes index).starts_at_ones then 0xff else 0x00

-- `if let Some(last) = value.last_mut() { *last = v }`
unfoldable pub set_last : ℕ → List ℕ → List ℕ
set_last v [] = []
set_last v (x ∷ []) = v ∷ []
set_last v (x ∷ y ∷ ys) = x ∷ set_last v (y ∷ ys)

-- The value that a startup gives a register of `size` octets.
unfoldable pub start_value : ℕ → ℕ → ℕ → List ℕ
start_value locality size index =
    let value = replicate size (fill_of index) in
    if index == Config.hcrtm_pcr then set_last locality value else value

abbrev pub is_kept : Option ℕ → ℕ → Bool
is_kept none index = false
is_kept (some k) index = k == index

unfoldable pub reset_all_but : Bool → Option ℕ → ℕ → PcrBanks → PcrBanks
reset_all_but strict keep locality b = record b {
  banks =
      map_values
        (λ a. map_from 0 λ index reg.
          if is_kept keep index
          then reg
          else start_value locality (or_zero (digest_size strict a)) index)
        b.banks;
}

unfoldable pub reset_all : Bool → PcrBanks → PcrBanks
reset_all strict b = reset_all_but strict none 0 b

abbrev pub any : List Bool → Bool
any [] = false
any (x ∷ xs) = x || any xs

-- `flags`: the first bits asked for, and `false` for the rest.
abbrev pub flags_of : List Bool → List Bool
flags_of bits =
    let first = take Config.implementation_pcr bits in
    first ++ replicate (Config.implementation_pcr - length first) false

-- The loop of `allocate` over the maps that it builds. A bank with nothing selected is left out.
unfoldable pub allocate_from :
    Bool
    → List (ℕ × List Bool)
    → Map (List (List ℕ))
    → Map (List Bool)
    → TpmResult (Map (List (List ℕ)) × Map (List Bool))
allocate_from strict [] banks allocated = ok (banks, allocated)
allocate_from strict ((a, bits) ∷ rest) banks allocated =
    let skipped = allocate_from strict rest banks allocated in
    let taken = λ (size : ℕ).
      allocate_from strict rest
        (insert a (replicate Config.implementation_pcr (replicate size 0)) banks)
        (insert a (flags_of bits) allocated) in
    if not (any bits)
    then skipped
    else elim (digest_size strict a) [ none ↦ err Rc.hash | some size ↦ taken size ]

abbrev pub settle : Bool → PcrBanks → TpmResult (Map (List (List ℕ)) × Map (List Bool)) → Outcome
settle strict b (err e) = (err e, b)
settle strict b (ok (banks, allocated)) =
    (ok tt, reset_all strict (record b { banks = banks; allocated = allocated }))

unfoldable pub allocate : Bool → List (ℕ × List Bool) → PcrBanks → Outcome
allocate strict allocation b = settle strict b (allocate_from strict allocation [] [])

unfoldable pub new_banks : Bool → List (ℕ × List Bool) → Outcome
new_banks strict allocation = allocate strict allocation default

unfoldable pub whole_banks : List ℕ → List (ℕ × List Bool)
whole_banks algorithms = map (λ a. (a, replicate Config.implementation_pcr true)) algorithms

abbrev pub flag_at : Option (List Bool) → ℕ → Bool
flag_at none index = false
flag_at (some bits) index = elim (get_elem? bits index) [ none ↦ false | some f ↦ f ]

unfoldable pub has_pcr : PcrBanks → ℕ → ℕ → Bool
has_pcr b a index = flag_at (lookup a b.allocated) index

unfoldable pub algorithms : PcrBanks → List ℕ
algorithms b = keys b.banks

unfoldable pub has_bank : PcrBanks → ℕ → Bool
has_bank b a = contains_key a b.banks

-- A Resume register keeps its value, and every other goes back to its default.
unfoldable pub resume_bank : Option ℕ → List (List ℕ) → List (List ℕ)
resume_bank none bank = bank
resume_bank (some size) bank =
    map_from 0 (λ index value. if is_saved index then value else replicate size (fill_of index))
      bank

unfoldable pub on_resume : Bool → PcrBanks → PcrBanks
on_resume strict b = record b {
  banks = map_values (λ a bank. resume_bank (digest_size strict a) bank) b.banks;
}

-- `ok_or(TPM_RC_VALUE)`
abbrev pub found : Option (List ℕ) → TpmResult (List ℕ)
found none = err Rc.value
found (some v) = ok v

abbrev pub register : Option (List (List ℕ)) → ℕ → TpmResult (List ℕ)
register none index = err Rc.value
register (some bank) index = found (get_elem? bank index)

unfoldable pub read : PcrBanks → ℕ → ℕ → TpmResult (List ℕ)
read b a index = register (lookup a b.banks) index
