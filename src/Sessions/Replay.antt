-- ===== src/Sessions/Replay.antt =====
-- What holds in every history of the session slots, and that a saved context is loaded once.
-- src/tpm/core/session.rs.
use swtrust.Base.{
  ℕ, ◌+◌, ◌^◌, ◌<◌, ◌≡◌, ◌≢◌, ◌⊎◌, inl, inr, refl, ap, ◌∙◌, Option, none, some, List, [], ◌∷◌, ◌==◌,
  arith, Bool-cases, ==→eq,
}
use swtrust.Base.Maps.{lookup}
use swtrust.Constants.Rc
use swtrust.Error.{ok, err}
use swtrust.Sessions.Session.{Session}
use swtrust.Sessions.Slots.{SessionSlots, new, contains}
use swtrust.Sessions.Moves.{
  without, remove_session, flush_first, flush, flush_candidates, restore, clear,
}
use swtrust.Sessions.Status.{status, id_of}
use swtrust.Sessions.Coherent.{IsCoherent, restore_ok, restored, restored-status}
use swtrust.Sessions.Histories.{
  Step, started, changed, stored, brought_back, flushed, dropped, numbered, unloaded, cycled, Run,
  done, more, Reach, start, step, reset, IsValid, Moves, Keeps,
}
use swtrust.Sessions.Preserved.{without-Keeps, save-Keeps, restore-Keeps, load_new-Keeps, put-Keeps}
use swtrust.Sessions.Cycles.{new-IsValid, unloaded-Keeps, cycled-Keeps, object-Keeps}

-- A number that has been given out, and that `h` does not carry any more.
abbrev pub IsRetired : SessionSlots → ℕ → ℕ → Type 0
IsRetired s h id = (id < s.context_counter) × (id_of (status s h) ≢ some id)

-- The slots stay valid, and what is retired stays so.
abbrev pub Follows : SessionSlots → SessionSlots → Type 0
Follows s t = IsValid t × ((h id : ℕ) → IsRetired s h id → IsRetired t h id)

Moves-IsRetired : (s t : SessionSlots) (h id : ℕ) → Moves s t → IsRetired s h id → IsRetired t h id
Moves-IsRetired s t h id m (given, gone) =
    (omega (arith, m.onward), λ e. gone (ground (arith, m.renumbers h)))

Keeps-Follows : (s t : SessionSlots) → Keeps s t → Follows s t
Keeps-Follows s t (v, m) = (v, λ h id r. Moves-IsRetired s t h id m r)

flush_first-Follows :
    (s : SessionSlots) (candidates : List ℕ) → IsValid s → Follows s (flush_first s candidates).1
unfolding flush_first
flush_first-Follows s [] v = (v, λ h id r. r)
flush_first-Follows s (c ∷ others) v =
    let (w, keeps) = Keeps-Follows s (without s c) (without-Keeps s c v) in
    elim (Bool-cases (contains s c)) [
      | inl here ↦ rw here (w, keeps)
      | inr away ↦
          let (x, later) = flush_first-Follows (without s c) others w in
          rw away (x, λ h id r. later h id (keeps h id r))
    ]

Step-Follows : {s t : SessionSlots} → IsValid s → Step s t → Follows s t
unfolding flush remove_session
Step-Follows {s} {t} v (started x h a e) = Keeps-Follows s t (load_new-Keeps s x h t v a e)
Step-Follows {s} v (changed h x y e same) = Keeps-Follows s _ (put-Keeps s h x y v e same)
Step-Follows {s} {t} v (stored h y id e) = Keeps-Follows s t (save-Keeps s h y id t v e)
Step-Follows {s} {t} v (brought_back x id e) = Keeps-Follows s t (restore-Keeps s x id t v e)
Step-Follows {s} v (flushed h) = flush_first-Follows s (flush_candidates s h) v
Step-Follows {s} v (dropped h) = Keeps-Follows s (without s h) (without-Keeps s h v)
Step-Follows {s} v numbered = Keeps-Follows s _ (object-Keeps s v)
Step-Follows {s} v unloaded = Keeps-Follows s _ (unloaded-Keeps s v)
Step-Follows {s} v cycled = Keeps-Follows s _ (cycled-Keeps s v)

clear-new : (s : SessionSlots) → clear s ≡ new
unfolding clear new
clear-new s = refl

-- In every history, TPM Resets included: at most 32 sessions are loaded and 64 active; the maps agree
-- on which handles are loaded, and none is both loaded and saved; the counter is below `2 ^ 64`;
-- every active session has a number below the counter and of its own, except that once the counter
-- stands at its end `2 ^ 64 - 1`, where a restore saturates it, the number `2 ^ 64 - 1` may be held,
-- by several sessions too; no two share the lower three octets of their handles; and every handle
-- lies in a session range.
pub slots-IsValid : {s : SessionSlots} → Reach s → IsValid s
slots-IsValid start = new-IsValid
slots-IsValid (step r st) = (Step-Follows (slots-IsValid r) st).0
slots-IsValid (reset {s} r) = rw (clear-new s) new-IsValid

Run-Follows : {s t : SessionSlots} → IsValid s → Run s t → Follows s t
Run-Follows v done = (v, λ h id r. r)
Run-Follows v (more r st) =
    let (w, keeps) = Run-Follows v r in
    let (x, later) = Step-Follows w st in (x, λ h id p. later h id (keeps h id p))

-- The guard on the number lets through nothing but the number that the context is saved with.
refused :
    (s : SessionSlots) (y : Session) (id : ℕ)
    → lookup y.handle s.saved ≢ some id
    → (restore s y id ≡ err Rc.value) ⊎ (restore s y id ≡ err Rc.handle)
unfolding restore
refused s y id gone = decide (lookup y.handle s.saved) refl
  where
    decide :
        (o : Option ℕ)
        → lookup y.handle s.saved ≡ o
        → (restore s y id ≡ err Rc.value) ⊎ (restore s y id ≡ err Rc.handle)
    decide none e = inr (rw e)
    decide (some current) e = elim (Bool-cases (current == id)) [
      | inl same ↦ absurd (gone (e ∙ ap some (==→eq current id same)))
      | inr other ↦ inl (rw (e, other))
    ]

retired-unsaved :
    (s : SessionSlots) (h id : ℕ) → IsCoherent s → IsRetired s h id → lookup h s.saved ≢ some id
unfolding status
retired-unsaved s h id v (given, gone) e = gone (rw (v.disjoint h id e, e))

restored-retires :
    (s : SessionSlots) (x : Session) (id : ℕ) (t : SessionSlots)
    → IsValid s
    → s.context_counter + 1 < 2 ^ 64
    → restore s x id ≡ ok t
    → IsValid t × IsRetired t x.handle id
restored-retires s x id t v room e =
    let (there, here, shape, few) = restore_ok s x id t v.coherent e in
    let old : id < s.context_counter = ground (arith, v.numbers.below x.handle id (rw here)) in
    let (w, m) = restore-Keeps s x id t v e in
    (
      w,
      (
        omega (arith, m.onward),
        λ p. absurd (omega (arith, old, renumbered s x t shape v.coherent id p)),
      ),
    )
  where
    renumbered :
        (s : SessionSlots) (x : Session) (t : SessionSlots)
        → t ≡ restored s x
        → IsCoherent s
        → (id : ℕ) → id_of (status t x.handle) ≡ some id
        → id ≡ s.context_counter
    renumbered s x t shape v id p =
        let there = restored-status s x v x.handle in
        let q : id_of (status (restored s x) x.handle) ≡ some id = rw shape at p in
        ground (arith, there)

-- A saved context is loaded at most once: after it was loaded, whatever is done short of a TPM Reset,
-- a blob with the same handle and the same number is refused, with VALUE or with HANDLE. The counter
-- is taken not to have reached its end when the context was loaded.
pub restore_once :
    (s t u : SessionSlots) (x y : Session) (id : ℕ)
    → Reach s
    → s.context_counter + 1 < 2 ^ 64
    → restore s x id ≡ ok t
    → Run t u
    → y.handle ≡ x.handle
    → (restore u y id ≡ err Rc.value) ⊎ (restore u y id ≡ err Rc.handle)
restore_once s t u x y id r room e run same =
    let (w, gone) = restored-retires s x id t (slots-IsValid r) room e in
    let (z, keeps) = Run-Follows w run in
    refused u y id (rw same (retired-unsaved u x.handle id z.coherent (keeps x.handle id gone)))
