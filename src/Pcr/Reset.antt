-- ===== src/Pcr/Reset.antt =====
-- The startups and the D-RTM event of `PcrBanks`, src/tpm/core/pcr.rs: what each leaves in every
-- register.
use swtrust.Base.{
  ℕ, zero, suc, ◌+◌, ◌-◌, ◌≡◌, refl, ap, sym, ◌∙◌, subst, Bool, true, false, ◌&&◌, Option, none,
  some, List, [], ◌∷◌, ◌++◌, ◌==◌, leb, if◌then◌else◌, replicate, arith, inl, inr, eq-cases, ne→==,
}
use swtrust.Base.Maps.{map_values}
use swtrust.Error.{TpmResult, ok, err}
use swtrust.Crypto.Hash.{Crypto, output_len, IsSupported, output_len_pos}
use swtrust.Structures.Base.{digest_size}
use swtrust.Pcr.Profile.{attributes, is_saved}
use swtrust.Pcr.Banks.{
  PcrBanks, map_from, read, or_zero, fill_of, start_value, set_last, is_kept, reset_all_but,
  on_resume, resume_bank, bump_update_counter,
}
use swtrust.Pcr.Update.{drtm_reset, drtm_value, any_changes}
use swtrust.Pcr.Valid.{digest_size-IsSupported}
use swtrust.Pcr.Rewrite.{map_ok, rewrite, read-rewrite}

-- The registers that start at ones: those of the dynamic launch.
abbrev pub is_dynamic : ℕ → Bool
is_dynamic j = leb 17 j && leb j 22

-- `n` octets, the last of them `v`.
abbrev pub last_of : ℕ → ℕ → List ℕ
last_of n v = replicate (n - 1) 0 ++ v ∷ []

fill_of-is_dynamic : (j : ℕ) → fill_of j ≡ (if is_dynamic j then 0xff else 0)
unfolding attributes
fill_of-is_dynamic j = ground arith

set_last-replicate : (n v : ℕ) → set_last v (replicate (suc n) 0) ≡ replicate n 0 ++ v ∷ []
unfolding set_last
set_last-replicate zero v = refl
set_last-replicate (suc n) v = ap (λ l. 0 ∷ l) (set_last-replicate n v)

map_ok_same : (r : TpmResult (List ℕ)) → map_ok (λ x. x) r ≡ r
map_ok_same (ok x) = refl
map_ok_same (err e) = refl

map_ok_kept :
    (kept : Bool) (v : List ℕ) (r : TpmResult (List ℕ))
    → map_ok (λ x. if kept then x else v) r ≡ (if kept then r else map_ok (λ x. v) r)
map_ok_kept true v r = map_ok_same r
map_ok_kept false v r = refl

map_ok_given :
    (given : Bool) (v : List ℕ) (r : TpmResult (List ℕ))
    → map_ok (λ x. if given then v else x) r ≡ (if given then map_ok (λ x. v) r else r)
map_ok_given true v r = refl
map_ok_given false v r = map_ok_same r

-- A resume, register by register.
abbrev pub resumed : Option ℕ → ℕ → List ℕ → List ℕ
resumed none j value = value
resumed (some size) j value = if is_saved j then value else replicate size (fill_of j)

map_from_same : (i : ℕ) (xs : List (List ℕ)) → map_from i (λ j x. x) xs ≡ xs
unfolding map_from
map_from_same i [] = refl
map_from_same i (x ∷ xs) = ap (λ l. x ∷ l) (map_from_same (i + 1) xs)

resume_bank-resumed :
    (o : Option ℕ) (bank : List (List ℕ)) → resume_bank o bank ≡ map_from 0 (resumed o) bank
unfolding resume_bank
resume_bank-resumed none bank = sym (map_from_same 0 bank)
resume_bank-resumed (some size) bank = refl

pub on_resume-rewrite :
    (strict : Bool) (b : PcrBanks)
    → on_resume strict b ≡ rewrite (λ a. resumed (digest_size strict a)) b
unfolding on_resume
on_resume-rewrite strict b = λ i. record b {
  banks = map_values (λ a bank. resume_bank-resumed (digest_size strict a) bank i) b.banks;
}

starts_at_ones-is_dynamic : (j : ℕ) → (attributes j).starts_at_ones ≡ is_dynamic j
unfolding attributes
starts_at_ones-is_dynamic j = ground arith

map_ok-resumed :
    (n j : ℕ) (r : TpmResult (List ℕ))
    → map_ok (resumed (some n) j) r
      ≡ (if leb j 15 then r else map_ok (λ x. replicate n (if is_dynamic j then 0xff else 0)) r)
unfolding is_saved
map_ok-resumed n j r =
    map_ok_kept (leb j 15) (replicate n (fill_of j)) r
    ∙ ap (λ v. if leb j 15 then r else map_ok (λ x. replicate n v) r) (fill_of-is_dynamic j)

-- A resume keeps registers 0 to 15 of every bank, gives registers 17 to 22 octets of ones, and the
-- others octets of zeros, of the bank's digest size; a register that could not be read still cannot.
pub on_resume_registers :
    (c : Crypto) (b : PcrBanks) (a j : ℕ)
    → IsSupported c a
    → read (on_resume c.strict b) a j ≡ (
        if leb j 15
        then read b a j
        else map_ok (λ x. replicate (output_len a) (if is_dynamic j then 0xff else 0)) (read b a j))
on_resume_registers c b a j s =
    ap (λ b'. read b' a j) (on_resume-rewrite c.strict b)
    ∙ read-rewrite (λ x. resumed (digest_size c.strict x)) b a j
    ∙ ap (λ o. map_ok (resumed o j) (read b a j)) (digest_size-IsSupported c a s)
    ∙ map_ok-resumed (output_len a) j (read b a j)

-- What a startup gives a register.
abbrev started : ℕ → ℕ → ℕ → List ℕ
started n locality j =
    if j == 0 then last_of n locality else replicate n (if is_dynamic j then 0xff else 0)

start_value-started :
    (n locality j : ℕ) → start_value locality (suc n) j ≡ started (suc n) locality j
unfolding start_value
start_value-started n locality j =
    ap (λ v. if j == 0 then set_last locality (replicate (suc n) v) else replicate (suc n) v)
      (fill_of-is_dynamic j)
    ∙ (elim (eq-cases j 0) [
      | inl e ↦
          rw e
            (set_last-replicate n locality ∙ ap (λ k. replicate k 0 ++ locality ∷ []) (omega arith))
      | inr m ↦ rw (ne→== j 0 m)
    ])

pub start_value-output_len :
    (locality a j : ℕ) → start_value locality (output_len a) j ≡ started (output_len a) locality j
start_value-output_len locality a j =
    let positive : suc (output_len a - 1) ≡ output_len a = omega (arith, output_len_pos a) in
    subst (λ n. start_value locality n j ≡ started n locality j) positive
      (start_value-started (output_len a - 1) locality j)

reset_all_but-rewrite :
    (strict : Bool) (keep : Option ℕ) (locality : ℕ) (b : PcrBanks)
    → reset_all_but strict keep locality b
      ≡ rewrite
          (λ a index reg.
            if is_kept keep index
            then reg
            else start_value locality (or_zero (digest_size strict a)) index)
          b
unfolding reset_all_but
reset_all_but-rewrite strict keep locality b = refl

-- A startup with a register to keep leaves that one in every bank; it gives register 0 the locality
-- after zeros, registers 17 to 22 octets of ones, and the others octets of zeros, of the bank's
-- digest size.
pub reset_all_but_registers :
    (c : Crypto) (keep : Option ℕ) (locality : ℕ) (b : PcrBanks) (a j : ℕ)
    → IsSupported c a
    → read (reset_all_but c.strict keep locality b) a j ≡ (
        if is_kept keep j
        then read b a j
        else map_ok
            (λ x.
              if j == 0
              then last_of (output_len a) locality
              else replicate (output_len a) (if is_dynamic j then 0xff else 0))
            (read b a j))
reset_all_but_registers c keep locality b a j s =
    ap (λ b'. read b' a j) (reset_all_but-rewrite c.strict keep locality b)
    ∙ read-rewrite
        (λ x index reg.
          if is_kept keep index
          then reg
          else start_value locality (or_zero (digest_size c.strict x)) index)
        b a j
    ∙ map_ok_kept (is_kept keep j) (start_value locality (or_zero (digest_size c.strict a)) j)
        (read b a j)
    ∙ ap (λ v. if is_kept keep j then read b a j else map_ok (λ x. v) (read b a j))
        (ap (λ o. start_value locality (or_zero o) j) (digest_size-IsSupported c a s)
          ∙ start_value-output_len locality a j)

bump-read :
    (b : PcrBanks) (t : Bool) (a j : ℕ)
    → read (if t then bump_update_counter b else b) a j ≡ read b a j
unfolding bump_update_counter read
bump-read b true a j = refl
bump-read b false a j = refl

map_ok-drtm :
    (n j : ℕ) (r : TpmResult (List ℕ))
    → map_ok (drtm_value n j) r ≡ (if is_dynamic j then map_ok (λ x. replicate n 0) r else r)
map_ok-drtm n j r =
    map_ok_given ((attributes j).starts_at_ones) (replicate n 0) r
    ∙ ap (λ t. if t then map_ok (λ x. replicate n 0) r else r) (starts_at_ones-is_dynamic j)

-- A D-RTM event takes registers 17 to 22 of every bank to octets of zeros, of the bank's digest
-- size, and leaves every other register.
pub drtm_reset_registers :
    (c : Crypto) (b : PcrBanks) (a j : ℕ)
    → IsSupported c a
    → read (drtm_reset c.strict b) a j
      ≡ (if is_dynamic j then map_ok (λ x. replicate (output_len a) 0) (read b a j) else read b a j)
unfolding drtm_reset
drtm_reset_registers c b a j s =
    bump-read (rewrite (λ x. drtm_value (or_zero (digest_size c.strict x))) b)
      (any_changes c.strict b.banks) a j
    ∙ read-rewrite (λ x. drtm_value (or_zero (digest_size c.strict x))) b a j
    ∙ ap (λ o. map_ok (drtm_value (or_zero o) j) (read b a j)) (digest_size-IsSupported c a s)
    ∙ map_ok-drtm (output_len a) j (read b a j)
