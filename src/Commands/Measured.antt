-- ===== src/Commands/Measured.antt =====
-- The register commands of src/tpm/commands/pcr.rs against the registers themselves.
use swtrust.Base
use swtrust.Base.{
  ℕ, ◌≡◌, ◌≢◌, ◌≤◌, ◌⊎◌, refl, ap, ◌∙◌, Bool, true, false, List, arith, ◌==◌, if◌then◌else◌,
}
use swtrust.Error.{TpmRc, TpmResult, ok, err}
use swtrust.Crypto.Hash.{Crypto}
use swtrust.Marshal.Write
use swtrust.Pcr.Banks.{PcrBanks, read}
use swtrust.Pcr.Update
use swtrust.Pcr.Valid.{IsValid}
use swtrust.Pcr.Promises.{extend_atomic}
use swtrust.Pcr.Clear.{reset_static}
use swtrust.Commands.Request as Requests
use swtrust.Commands.Request.{Request, Response, respond_empty}
use swtrust.Commands.Registers.{
  pcr_extend, extend_with, extend_answer, extend_parameters, first_index, pcr_reset, reset_with,
  reset_answer,
}

answers : respond_empty ≡ ok (record { handle = Base.none; parameters = Base.[] })
unfolding respond_empty Requests.respond Write.finish Write.new
answers = refl

-- TPM2_PCR_Extend changes no bank, no register and no count where it fails, whatever the request holds.
pub pcr_extend_atomic :
    (c : Crypto) (locality : ℕ) (request : Request) (b : PcrBanks) (e : TpmRc)
    → IsValid c b
    → (pcr_extend c locality request b).0 ≡ err e
    → (pcr_extend c locality request b).1 ≡ b
unfolding pcr_extend
pcr_extend_atomic c locality request b e valid =
    decide (first_index request) (extend_parameters c request)
  where
    left :
        (index : ℕ) (ds : List (ℕ × List ℕ)) (r : TpmResult (Unit {0}) × PcrBanks)
        → Update.extend c index locality ds b ≡ r
        → (extend_answer r).0 ≡ err e
        → (extend_answer r).1 ≡ b
    left index ds (ok _, b') q bad = ground (arith, answers)
    left index ds (err code, b') q bad = extend_atomic c index locality ds b b' code valid q

    decide :
        (index : TpmResult ℕ) (ds : TpmResult (List (ℕ × List ℕ)))
        → (extend_with c locality index ds b).0 ≡ err e
        → (extend_with c locality index ds b).1 ≡ b
    decide (err code) ds bad = refl
    decide (ok index) (err code) bad = refl
    decide (ok index) (ok ds) bad = left index ds (Update.extend c index locality ds b) refl bad

-- TPM2_PCR_Reset leaves the registers 0 to 15 of every bank as they were, whatever the request holds and
-- whichever locality sends it.
pub pcr_reset_static :
    (c : Crypto) (locality : ℕ) (request : Request) (b : PcrBanks) (a j : ℕ)
    → j ≤ 15
    → read (pcr_reset c locality request b).1 a j ≡ read b a j
unfolding pcr_reset
pcr_reset_static c locality request b a j low = decide (first_index request)
  where
    left : (r : TpmResult (Unit {0}) × PcrBanks) → (reset_answer r).1 ≡ r.1
    left (ok _, b') = refl
    left (err e, b') = refl

    decide : (index : TpmResult ℕ) → read (reset_with c.strict locality index b).1 a j ≡ read b a j
    decide (err e) = refl
    decide (ok index) =
        ap (λ x. read x a j) (left (Update.reset c.strict index locality b))
        ∙ reset_static c.strict index locality b a j (Base.inr low)
