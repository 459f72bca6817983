-- ===== src/Pcr/Clear.antt =====
-- `PcrBanks::reset` of src/tpm/core/pcr.rs: which registers a reset reaches, and what it leaves.
use swtrust.Base.{
  ℕ, zero, suc, ◌⊎◌, ◌≤◌, ◌≡◌, refl, ap, sym, ◌∙◌, subst, Bool, true, false, Option, none, some,
  List, ◌≢◌, leb, set, replicate, arith, inl, inr, Bool-cases, eq-cases, get_elem?-set_ne,
}
use swtrust.Base.Maps.{lookup, map_values, lookup-map_values}
use swtrust.Constants.Rc
use swtrust.Error.{TpmResult, ok, err}
use swtrust.Structures.Base.{digest_size}
use swtrust.Pcr.Profile.{attributes, no_increment}
use swtrust.Pcr.Banks.{PcrBanks, read, register, found, or_zero, bump_update_counter}
use mathlib.Core.Option
use swtrust.Pcr.Banks.{Outcome, count_change, algorithms}
use swtrust.Pcr.Update.{reset}
use swtrust.Pcr.Update.{any_has_pcr}
use swtrust.Pcr.Profile.{refuses_locality, is_implemented}
use swtrust.Pcr.Promises.{State}

-- What a reset writes into the bank of each algorithm.
abbrev pub zeroed : Bool → ℕ → PcrBanks → PcrBanks
zeroed strict index b = record b {
  banks =
      map_values (λ a bank. set bank index (replicate (or_zero (digest_size strict a)) 0)) b.banks;
}

-- A write into each bank does not reach another register.
register-set_ne :
    (o : Option (List (List ℕ))) (index j : ℕ) (v : List ℕ)
    → index ≢ j
    → register (Option.map (λ bank. set bank index v) o) j ≡ register o j
register-set_ne none index j v n = refl
register-set_ne (some bank) index j v n = ap found (get_elem?-set_ne bank index j v n)

read-zeroed_ne :
    (strict : Bool) (index : ℕ) (b : PcrBanks) (a j : ℕ)
    → index ≢ j
    → read (zeroed strict index b) a j ≡ read b a j
unfolding read
read-zeroed_ne strict index b a j n =
    ap (λ o. register o j)
      (lookup-map_values (λ x bank. set bank index (replicate (or_zero (digest_size strict x)) 0)) a
        b.banks)
    ∙ register-set_ne (lookup a b.banks) index j _ n

read-count_change :
    (index : ℕ) (b : PcrBanks) (a j : ℕ) → read (count_change index b) a j ≡ read b a j
unfolding read count_change bump_update_counter
read-count_change index b a j = elim (Bool-cases (no_increment index)) [
  | inl e ↦ rw e
  | inr e ↦ rw e
]

-- What a reset answers and leaves: it is refused and changes nothing, or the register is zeroed.
pub data Resets (strict : Bool) (index locality : ℕ) (b : PcrBanks) : Outcome → Type 0 where
  unchanged : (r : TpmResult (Unit {0})) → Resets strict index locality b (r, b)
  zeroes :
      refuses_locality (attributes index).reset_locality locality ≡ false
      → Resets strict index locality b (ok tt, count_change index (zeroed strict index b))

pub reset-Resets :
    (strict : Bool) (index locality : ℕ) (b : PcrBanks)
    → Resets strict index locality b (reset strict index locality b)
unfolding reset
reset-Resets strict index locality b = elim (Bool-cases (any_has_pcr b index (algorithms b))) [
  | inr n ↦ rw n (unchanged (ok tt))
  | inl p ↦ elim (Bool-cases (is_implemented index)) [
    | inr n ↦ rw (p, n) (unchanged (err Rc.value))
    | inl i ↦ elim (Bool-cases (refuses_locality (attributes index).reset_locality locality)) [
      | inl l ↦ rw (p, i, l) (unchanged (err Rc.locality))
      | inr l ↦ rw (p, i, l) (zeroes l)
    ]
  ]
]

static_mask : (j : ℕ) → leb j 15 ≡ true → (attributes j).reset_locality ≡ 0
unfolding attributes
static_mask j e = rw e

refuses_none : (locality : ℕ) → refuses_locality 0 locality ≡ true
unfolding refuses_locality
refuses_none zero = ground arith
refuses_none (suc zero) = ground arith
refuses_none (suc (suc zero)) = ground arith
refuses_none (suc (suc (suc zero))) = ground arith
refuses_none (suc (suc (suc (suc zero)))) = ground arith
refuses_none (suc (suc (suc (suc (suc n))))) = ground arith

refuses_static :
    (j locality : ℕ) → j ≤ 15 → refuses_locality (attributes j).reset_locality locality ≡ true
refuses_static j l h =
    let e : leb j 15 ≡ true = ground arith in rw (static_mask j e) (refuses_none l)

Resets-read :
    (strict : Bool) (index locality : ℕ) (b : PcrBanks) (o : Outcome)
    → Resets strict index locality b o
    → (a j : ℕ) → (index ≢ j) ⊎ (j ≤ 15)
    → read (State o) a j ≡ read b a j
Resets-read strict index locality b o (unchanged r) a j h = refl
Resets-read strict index locality b o (zeroes l) a j h = elim (eq-cases index j) [
  | inr n ↦ read-count_change index _ a j ∙ read-zeroed_ne strict index b a j n
  | inl e ↦ elim h [
    | inl n ↦ absurd (n e)
    | inr k ↦
        let yes : refuses_locality (attributes index).reset_locality locality ≡ true =
          subst (λ x. refuses_locality (attributes x).reset_locality locality ≡ true) (sym e)
            (refuses_static j locality k) in
        let wrong : true ≡ false = sym yes ∙ l in cc wrong
  ]
]

-- No reset, from any locality and whatever it answers, changes what is read of a register other
-- than its own, nor of registers 0 to 15.
pub reset_static :
    (strict : Bool) (index locality : ℕ) (b : PcrBanks) (a j : ℕ)
    → (index ≢ j) ⊎ (j ≤ 15)
    → read (reset strict index locality b).1 a j ≡ read b a j
reset_static strict index locality b a j h =
    Resets-read strict index locality b _ (reset-Resets strict index locality b) a j h
