-- ===== src/Pcr/Preserved.antt =====
-- That the operations of `PcrBanks` of src/tpm/core/pcr.rs keep the banks well formed, and that an
-- allocation of implemented algorithms makes such banks.
use swtrust.Base.{
  ℕ, ◌-◌, ◌≤◌, ◌≡◌, ap, sym, ◌∙◌, subst, Bool, true, false, Option, some, List, [], ◌∷◌, ◌==◌,
  if◌then◌else◌, length, replicate, arith, inl, inr, Bool-cases, length-append, length-replicate,
}
use swtrust.Crypto.Hash.{Crypto, output_len, IsSupported, output_len_pos}
use swtrust.Structures.Base.{digest_size}
use swtrust.Pcr.Profile.{attributes, is_saved}
use swtrust.Pcr.Banks.{
  PcrBanks, or_zero, fill_of, start_value, is_kept, reset_all_but, on_resume, bump_update_counter,
}
use swtrust.Pcr.Update.{drtm_reset, drtm_value, any_changes}
use swtrust.Pcr.Valid.{IsValid, digest_size-IsSupported}
use swtrust.Pcr.Rewrite.{rewrite-IsValid}
use swtrust.Pcr.Reset.{start_value-output_len, last_of, on_resume-rewrite, resumed}

length-last_of : (n v : ℕ) → 1 ≤ n → length (last_of n v) ≡ n
length-last_of n v h =
    omega (arith, length-append (replicate (n - 1) 0) (v ∷ []), length-replicate {A = ℕ} (n - 1) 0)

length-start_value :
    (locality a j : ℕ) → length (start_value locality (output_len a) j) ≡ output_len a
length-start_value locality a j = elim (Bool-cases (j == 0)) [
  | inl e ↦
      ap length (start_value-output_len locality a j)
      ∙ rw e (length-last_of (output_len a) locality (omega (arith, output_len_pos a)))
  | inr e ↦
      ap length (start_value-output_len locality a j) ∙ rw e (length-replicate (output_len a) _)
]

or_zero-IsSupported :
    (c : Crypto) (a : ℕ) → IsSupported c a → or_zero (digest_size c.strict a) ≡ output_len a
or_zero-IsSupported c a s = ap or_zero (digest_size-IsSupported c a s)

-- A startup, with or without a register to keep, leaves well-formed banks.
pub reset_all_but-IsValid :
    (c : Crypto) (keep : Option ℕ) (locality : ℕ) (b : PcrBanks)
    → IsValid c b
    → IsValid c (reset_all_but c.strict keep locality b)
unfolding reset_all_but
reset_all_but-IsValid c keep locality b h =
    rewrite-IsValid c
      (λ a index reg.
        if is_kept keep index
        then reg
        else start_value locality (or_zero (digest_size c.strict a)) index)
      b h
      λ a k x s l. elim (Bool-cases (is_kept keep k)) [
        | inl e ↦ rw e l
        | inr e ↦ rw (e, or_zero-IsSupported c a s) (length-start_value locality a k)
      ]

length-resumed : (n j : ℕ) (x : List ℕ) → length x ≡ n → length (resumed (some n) j x) ≡ n
length-resumed n j x l = elim (Bool-cases (is_saved j)) [
  | inl e ↦ rw e l
  | inr e ↦ rw e (length-replicate n (fill_of j))
]

-- So does a resume.
pub on_resume-IsValid : (c : Crypto) (b : PcrBanks) → IsValid c b → IsValid c (on_resume c.strict b)
on_resume-IsValid c b h = subst (IsValid c) (sym (on_resume-rewrite c.strict b)) (
    rewrite-IsValid c (λ a. resumed (digest_size c.strict a)) b h
      λ a k x s l.
        subst (λ o. length (resumed o k x) ≡ output_len a) (sym (digest_size-IsSupported c a s))
          (length-resumed (output_len a) k x l))

bump-IsValid :
    (c : Crypto) (t : Bool) (b : PcrBanks)
    → IsValid c b
    → IsValid c (if t then bump_update_counter b else b)
unfolding bump_update_counter
bump-IsValid c true b h = record { bank = h.bank; flagged = h.flagged }
bump-IsValid c false b h = h

-- And a D-RTM event.
pub drtm_reset-IsValid :
    (c : Crypto) (b : PcrBanks) → IsValid c b → IsValid c (drtm_reset c.strict b)
unfolding drtm_reset
drtm_reset-IsValid c b h = bump-IsValid c (any_changes c.strict b.banks) _ (
    rewrite-IsValid c (λ a. drtm_value (or_zero (digest_size c.strict a))) b h
      λ a k x s l. elim (Bool-cases ((attributes k).starts_at_ones)) [
        | inl e ↦ rw (e, or_zero-IsSupported c a s) (length-replicate (output_len a) 0)
        | inr e ↦ rw e l
      ])
