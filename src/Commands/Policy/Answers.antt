-- ===== src/Commands/Policy/Answers.antt =====
-- What the policy commands of src/tpm/commands/policy.rs leave of the sessions.
use swtrust.Base.{ℕ, ◌≡◌, refl, sym, ap, ◌∙◌, [], none, List, arith, ◌==◌, if◌then◌else◌}
use swtrust.Base.Maps.{lookup-insert}
use swtrust.Error.{TpmRc, TpmResult, ok, err}
use swtrust.Marshal.Read.{Read}
use swtrust.Crypto.Hash.{Crypto, IsSupported}
use swtrust.Pcr.Banks.{PcrBanks}
use swtrust.Pcr.Selection.{selection_digest, filter_selection}
use swtrust.Structures.Base.{PcrSelection, pcr_selection_marshal}
use swtrust.Sessions.Session.{Session}
use swtrust.Sessions.Slots.{SessionSlots, get, put}
use swtrust.Marshal.Write
use swtrust.Marshal.Write.{to_bytes, marshal_list}
use swtrust.Commands.Request as Requests
use swtrust.Commands.Request.{Request, Response, handle, respond_empty, read_parameters}
use swtrust.Commands.Policy.Steps
use swtrust.Commands.Policy.Steps.{Step, continue}
use swtrust.Commands.Policy.Frame.{
  bare, reading, policy_session, on_session, answered, on_handle, on_parameters,
}
use swtrust.Commands.Policy.Handlers.{current_pcr}
use swtrust.Commands.Policy.Plans.{Assertion, asserted, pcr}
use swtrust.Commands.Policy.Refused.{refused_untouched}

-- A step that leaves the session as it was where it fails, under an algorithm that is implemented.
pub IsAtomic : Crypto → Step (Unit {0}) → Type 0
IsAtomic c step =
    (s : Session) (e : TpmRc) → IsSupported c s.auth_hash → (step s).0 ≡ err e → (step s).1 ≡ s

-- Every loaded session has an algorithm that is implemented.
abbrev pub AllSupported : Crypto → SessionSlots → Type 0
AllSupported c slots = (h : ℕ) (s : Session) → get slots h ≡ ok s → IsSupported c s.auth_hash

pub get-put :
    (slots : SessionSlots) (h k : ℕ) (s : Session)
    → get (put slots h s) k ≡ (if h == k then ok s else get slots k)
unfolding get put
get-put slots h k s = ground (arith, lookup-insert h k s slots.sessions)

get-put_same :
    (slots : SessionSlots) (h k : ℕ) (s : Session)
    → get slots h ≡ ok s
    → get (put slots h s) k ≡ get slots k
get-put_same slots h k s e = ground (arith, get-put slots h k s)

policy_session_ok :
    (slots : SessionSlots) (h : ℕ) (s : Session)
    → policy_session slots h ≡ ok s
    → get slots h ≡ ok s
unfolding policy_session
policy_session_ok slots h s e = ground arith

pub answers : respond_empty ≡ ok (record { handle = none; parameters = [] })
unfolding respond_empty Requests.respond Write.finish Write.new
answers = refl

on_session-atomic :
    (c : Crypto) (slots : SessionSlots) (h k : ℕ) (step : Step (Unit {0})) (e : TpmRc)
    → IsAtomic c step
    → AllSupported c slots
    → (on_session slots h (policy_session slots h) step).0 ≡ err e
    → get (on_session slots h (policy_session slots h) step).1 k ≡ get slots k
unfolding IsAtomic
on_session-atomic c slots h k step e atomic all failed = decide (policy_session slots h) refl failed
  where
    left :
        (s : Session) (r : TpmResult (Unit {0}) × Session)
        → get slots h ≡ ok s
        → ((e : TpmRc) → r.0 ≡ err e → r.1 ≡ s)
        → (answered slots h r).0 ≡ err e
        → get (answered slots h r).1 k ≡ get slots k
    left s (ok _, s') there same bad = ground (arith, answers)
    left s (err e, s') there same bad =
        get-put_same slots h k s' (there ∙ ap ok (sym (same e refl)))

    decide :
        (r : TpmResult Session)
        → policy_session slots h ≡ r
        → (on_session slots h r step).0 ≡ err e
        → get (on_session slots h r step).1 k ≡ get slots k
    decide (err e) q bad = refl
    decide (ok s) q bad =
        let there = policy_session_ok slots h s q in
        left s (step s) there (λ e. atomic s e (all h s there)) bad

pub asserted-IsAtomic : (c : Crypto) (a : Assertion) → IsAtomic c (asserted c a)
unfolding IsAtomic
asserted-IsAtomic c a s e sup bad = refused_untouched c s a sup bad

pub current_pcr-IsAtomic :
    (c : Crypto) (banks : PcrBanks) (given : List ℕ × List PcrSelection)
    → IsAtomic c (current_pcr c banks given)
unfolding IsAtomic asserted
current_pcr-IsAtomic c banks (expected, selection) s e sup bad =
    decide (selection_digest c s.auth_hash filtered banks) bad
  where
    filtered : List PcrSelection
    filtered = filter_selection banks selection

    next_step : List ℕ → Step (Unit {0})
    next_step digest =
        Steps.policy_pcr c expected (to_bytes (marshal_list pcr_selection_marshal selection))
          (to_bytes (marshal_list pcr_selection_marshal filtered)) digest banks.update_counter

    decide :
        (r : TpmResult (List ℕ))
        → (continue (r, s) next_step).0 ≡ err e
        → (continue (r, s) next_step).1 ≡ s
    decide (err e) bad = refl
    decide (ok d) bad =
        refused_untouched c s
          (pcr expected (to_bytes (marshal_list pcr_selection_marshal selection))
            (to_bytes (marshal_list pcr_selection_marshal filtered)) d banks.update_counter)
          sup bad

pub bare-atomic :
    (c : Crypto) (request : Request) (slots : SessionSlots) (k : ℕ) (step : Step (Unit {0}))
    (e : TpmRc)
    → IsAtomic c step
    → AllSupported c slots
    → (bare request step slots).0 ≡ err e
    → get (bare request step slots).1 k ≡ get slots k
bare-atomic c request slots k step e atomic all = decide (handle request 0)
  where
    decide :
        (r : TpmResult ℕ)
        → (on_handle r step slots).0 ≡ err e
        → get (on_handle r step slots).1 k ≡ get slots k
    decide (err e) bad = refl
    decide (ok h) bad = on_session-atomic c slots h k step e atomic all bad

pub reading-atomic {ℓ} :
    {A : Type ℓ} (c : Crypto) (request : Request) (slots : SessionSlots) (k : ℕ) (m : Read A)
    (step : A → Step (Unit {0})) (e : TpmRc)
    → ((x : A) → IsAtomic c (step x))
    → AllSupported c slots
    → (reading request m step slots).0 ≡ err e
    → get (reading request m step slots).1 k ≡ get slots k
reading-atomic {A} c request slots k m step e atomic all =
    decide (handle request 0) (read_parameters request m)
  where
    decide :
        (r : TpmResult ℕ) (x : TpmResult A)
        → (on_parameters r x step slots).0 ≡ err e
        → get (on_parameters r x step slots).1 k ≡ get slots k
    decide (err e) x bad = refl
    decide (ok h) (err e) bad = refl
    decide (ok h) (ok x) bad = on_session-atomic c slots h k (step x) e (atomic x) all bad
