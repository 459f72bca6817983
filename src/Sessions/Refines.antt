-- ===== src/Sessions/Refines.antt =====
-- The session slots as a machine on the abstract view: what each operation does to one handle.
-- src/tpm/core/session.rs.
use swtrust.Base.{
  ℕ, ◌+◌, ◌≡◌, inl, inr, refl, Option, none, some, List, [], ◌∷◌, min, arith, Bool-cases,
}
use swtrust.Base.Maps.{lookup}
use swtrust.Sessions.Slots.{SessionSlots, new, contains, next_object_id, next_context_id, put}
use swtrust.Sessions.Moves.{
  remove_session, flush_first, flush, flush_candidates, saved_contexts, restore_saved_contexts,
  flush_loaded,
}
use swtrust.Sessions.Status.{Status, absent, loaded, saved, status, status_of, last, Updates}
use swtrust.Sessions.Coherent.{
  IsCoherent, load_new_ok, load_new-status, save_ok, put_away-status, without-status, restore_ok,
  restored-status,
}
use swtrust.Sessions.Flush.{without_none}
use swtrust.Sessions.Histories.{
  power_cycled, Step, started, changed, stored, brought_back, flushed, dropped, numbered, unloaded,
  cycled, Reach, IsValid,
}
use swtrust.Sessions.Preserved.{allocated-absent, left_over}
use swtrust.Sessions.Cycles.{lookup-collect, nothing_else}
use swtrust.Sessions.Replay.{slots-IsValid}

-- A session in memory is lost; the record of a saved one stays.
abbrev pub lose_memory : Status → Status
lose_memory absent = absent
lose_memory (loaded id) = absent
lose_memory (saved id) = saved id

-- A step of the abstract machine, from the statuses `f` with the counter at `c` to `g` at `d`.
pub data Change (f g : ℕ → Status) (c d : ℕ) : Type 0 where
  create : (h : ℕ) → f h ≡ absent → Updates f g h (loaded c) → d ≡ c + 1 → Change f g c d
  put_out : (h id : ℕ) → f h ≡ loaded id → Updates f g h (saved id) → d ≡ c → Change f g c d
  bring_in :
      (h id : ℕ) → f h ≡ saved id → Updates f g h (loaded c) → d ≡ min (c + 1) last → Change f g c d
  drop_one : (h : ℕ) → Updates f g h absent → d ≡ c → Change f g c d
  forget : ((k : ℕ) → g k ≡ lose_memory (f k)) → d ≡ c → Change f g c d
  stay : ((k : ℕ) → g k ≡ f k) → d ≡ c → Change f g c d

abbrev Refines : SessionSlots → SessionSlots → Type 0
Refines s t = Change (status s) (status t) s.context_counter t.context_counter

lost :
    (o away : Option ℕ)
    → ((id : ℕ) → away ≡ some id → o ≡ none)
    → status_of none away ≡ lose_memory (status_of o away)
lost none none h = refl
lost (some id) none h = refl
lost o (some id) h = rw (h id refl)

flush_first-Refines :
    (s : SessionSlots) (candidates : List ℕ) → IsCoherent s → Refines s (flush_first s candidates).1
unfolding flush_first
flush_first-Refines s [] v = stay (λ k. refl) refl
flush_first-Refines s (c ∷ others) v = elim (Bool-cases (contains s c)) [
  | inl here ↦ rw here (drop_one c (without-status s c v) refl)
  | inr away ↦ rw (away, without_none s c v away) (flush_first-Refines s others v)
]

unloaded-Refines : (s : SessionSlots) → IsValid s → Refines s (flush_loaded s)
unfolding flush_loaded status lookup
unloaded-Refines s v =
    forget (λ k. lost (lookup k s.version) (lookup k s.saved) (v.coherent.disjoint k)) refl

cycled-Refines : (s : SessionSlots) → IsValid s → Refines s (power_cycled s)
unfolding restore_saved_contexts saved_contexts new status lookup
cycled-Refines s v =
    forget
      (λ k.
        rw (lookup-collect k 0 s.saved [] v.coherent.sorted, nothing_else (lookup k s.saved))
          (lost (lookup k s.version) (lookup k s.saved) (v.coherent.disjoint k)))
      refl

Step-Refines : {s t : SessionSlots} → IsValid s → Step s t → Refines s t
unfolding flush remove_session put next_object_id next_context_id status
Step-Refines {s} {t} v (started x h a e) =
    let (same, shape, few, places, gap, left) = load_new_ok s x h t e in
    let unused = allocated-absent s x.session_type x.handle v.coherent a in
    let room = left_over s v.word left in
    rw shape (create x.handle unused (load_new-status s x v.coherent unused) (omega (arith, room)))
Step-Refines {s} v (changed h x y e same) = stay (λ k. refl) refl
Step-Refines {s} {t} v (stored h y id e) =
    let (there, here, shape) = save_ok s h y id t v.coherent e in
    rw shape (put_out h id here (put_away-status s h id v.coherent here) refl)
Step-Refines {s} {t} v (brought_back x id e) =
    let (there, here, shape, few) = restore_ok s x id t v.coherent e in
    rw shape (bring_in x.handle id here (restored-status s x v.coherent) refl)
Step-Refines {s} v (flushed h) = flush_first-Refines s (flush_candidates s h) v.coherent
Step-Refines {s} v (dropped h) = drop_one h (without-status s h v.coherent) refl
Step-Refines {s} v numbered = stay (λ k. refl) refl
Step-Refines {s} v unloaded = unloaded-Refines s v
Step-Refines {s} v cycled = cycled-Refines s v

-- The slots refine a machine that knows of each handle only whether it is absent, loaded or saved and
-- with which number: from every state that can be reached, an operation creates one absent handle as
-- loaded with the counter's number, puts one loaded handle away with its number, brings one saved
-- handle back with the counter's number, drops one handle, loses what is in memory, or changes no
-- handle. The counter steps by one where a number was taken, and moves nowhere else; a context that is
-- brought back while it stands at its end `2 ^ 64 - 1` takes that number and leaves it there.
pub Step-Change :
    {s t : SessionSlots}
    → Reach s
    → Step s t
    → Change (status s) (status t) s.context_counter t.context_counter
Step-Change r st = Step-Refines (slots-IsValid r) st
