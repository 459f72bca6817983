-- ===== src/Sessions/Progress.antt =====
-- What succeeds: a session starts while there is room, and a saved one comes back. What a new number
-- is compared with. src/tpm/core/session.rs.
use swtrust.Base.{
  ℕ, ◌+◌, ◌≤◌, ◌<◌, ◌≡◌, ◌≢◌, inl, inr, refl, ◌∙◌, min, true, false, Option, none, some, [], ◌∷◌,
  length, arith, Bool-cases, ◌==◌,
}
use swtrust.Base.Maps.{Map, lookup, remove, lookup-insert, length-remove-some}
use swtrust.Constants.Rc
use swtrust.Error.{TpmResult, ok, err}
use swtrust.Sessions.Session.{Session}
use swtrust.Sessions.Slots.{
  SessionSlots, active, contains, index_of, allocate_handle, load_new, insert_session, check_gap,
  at_context_gap, least, oldest_active, counters_exhausted, next_context_id, get, saved_version,
}
use swtrust.Sessions.Moves.{save, put_away, restore, without, flush}
use swtrust.Sessions.Status.{loaded, status}
use swtrust.Sessions.Coherent.{
  IsCoherent, load_new_ok, save_ok, put_away-status, put_away-IsCoherent, restored, restored-status,
}
use swtrust.Sessions.Handles.{allocate_handle_total}
use swtrust.Sessions.Flush.{flush_names, flush_missing}
use swtrust.Sessions.Histories.{Reach}
use swtrust.Sessions.Replay.{slots-IsValid}

-- What a flush finds: an active session with the lower three octets of the handle, or none.
abbrev pub Finds : SessionSlots → ℕ → Option ℕ → Type 0
Finds s h (some k) = (contains s k ≡ true) × (index_of h ≡ index_of k)
Finds s h none = (k : ℕ) → contains s k ≡ true → index_of h ≢ index_of k

abbrev pub flushed : SessionSlots → Option ℕ → TpmResult ℕ × SessionSlots
flushed s none = (err Rc.handle, s)
flushed s (some k) = (ok k, without s k)

-- A flush in any reachable state: an active session whose handle has the lower three octets asked for
-- is taken away and named, whatever the octet above them; where there is none, the answer is HANDLE
-- and nothing changes.
pub flush_answers :
    (s : SessionSlots) (h : ℕ) (found : Option ℕ)
    → Reach s
    → Finds s h found
    → flush s h ≡ flushed s found
flush_answers s h (some k) r (there, same) =
    let v = slots-IsValid r in flush_names s h v.coherent s.context_counter v.numbers k there same
flush_answers s h none r nowhere =
    let v = slots-IsValid r in flush_missing s h v.coherent s.context_counter v.numbers nowhere

load_new_room :
    (s : SessionSlots) (x : Session)
    → length s.sessions < 32
    → active s < 64
    → at_context_gap s ≡ false
    → counters_exhausted s ≡ false
    → load_new s x ≡ ok (x.handle, insert_session s x)
unfolding load_new check_gap next_context_id
load_new_room s x few places gap left = ground arith

-- A session starts wherever there is room: with fewer than 32 loaded and 64 active sessions, no gap
-- and no counter at its end, a handle is allocated for either type, and a session that takes it is
-- loaded with the counter's number and found under the handle.
pub session_starts :
    (s : SessionSlots) (session_type : ℕ) (x : Session)
    → length s.sessions < 32
    → active s < 64
    → at_context_gap s ≡ false
    → counters_exhausted s ≡ false
    → (h : ℕ) × (s' : SessionSlots) × (allocate_handle s session_type ≡ ok h)
      × (load_new s (record x { handle = h }) ≡ ok (h, s'))
      × (status s' h ≡ loaded s.context_counter)
      × (get s' h ≡ ok (record x { handle = h }))
unfolding next_context_id status get
session_starts s t x few places gap left =
    let (h, e, range, apart) = allocate_handle_total s t places in
    let y : Session = record x { handle = h } in
    (
      h,
      insert_session s y,
      e,
      load_new_room s y few places gap left,
      ground (arith, lookup-insert h h s.context_counter s.version),
      ground (arith, lookup-insert h h y s.sessions),
    )

restore_room :
    (s : SessionSlots) (y : Session) (id : ℕ)
    → lookup y.handle s.saved ≡ some id
    → length s.sessions < 32
    → restore s y id ≡ ok (restored s y)
unfolding restore next_context_id
restore_room s y id there few = ground (arith, there)

module _ (s : SessionSlots) (h : ℕ) (y : Session) (id : ℕ) (v : IsCoherent s)
    (there : lookup h s.sessions ≡ some y) (here : status s h ≡ loaded id)
    (keyed : y.handle ≡ h) where
  away : SessionSlots
  away = put_away s h id

  away-IsCoherent : IsCoherent away
  unfolding away
  away-IsCoherent = put_away-IsCoherent s h id v y there

  back_ok : restore away y id ≡ ok (restored away y)
  unfolding away
  back_ok =
      restore_room (put_away s h id) y id (ground (arith, lookup-insert h y.handle id s.saved))
        (omega (arith, length-remove-some h y s.sessions there, v.few_loaded))

  back_get : get (restored away y) h ≡ ok y
  unfolding away get next_context_id
  back_get = ground (arith, lookup-insert y.handle h y (remove h s.sessions))

  back_here : status (restored away y) h ≡ loaded s.context_counter
  unfolding away
  back_here = ground (arith, restored-status (put_away s h id) y away-IsCoherent h)

  back_others : (k : ℕ) → h ≢ k → status (restored away y) k ≡ status s k
  unfolding away
  back_others k apart = ground (
    arith,
    restored-status (put_away s h id) y away-IsCoherent k,
    put_away-status s h id v here k,
  )

-- A session that is saved can be loaded again at once: the context with the number it was saved with
-- is taken, the session is back under its handle with the counter's number, and every other handle is
-- as it was.
pub restore-save :
    (s s' : SessionSlots) (h : ℕ) (y : Session) (id : ℕ)
    → Reach s
    → save s h ≡ ok ((y, id), s')
    → (t : SessionSlots) × (restore s' y id ≡ ok t)
      × (get t h ≡ ok y)
      × (status t h ≡ loaded s.context_counter)
      × ((k : ℕ) → h ≢ k → status t k ≡ status s k)
unfolding away
restore-save s s' h y id r e =
    let v = (slots-IsValid r).coherent in
    let (there, here, shape) = save_ok s h y id s' v e in
    let keyed = v.keyed h y there in
    (
      restored (put_away s h id) y,
      rw shape (back_ok s h y id v there here keyed),
      back_get s h y id v there here keyed,
      back_here s h y id v there here keyed,
      back_others s h y id v there here keyed,
    )

least-le_start :
    (so_far : ℕ) (m : Map ℕ) → (o : ℕ) × (least (some so_far) m ≡ some o) × (o ≤ so_far)
least-le_start so_far [] = (so_far, refl, omega arith)
least-le_start so_far ((h, id) ∷ m) =
    let (o, e, le) = least-le_start (min so_far id) m in (o, e, omega arith)

-- The least value is at most every value that a key has.
least-le :
    (start : Option ℕ) (m : Map ℕ) (k id : ℕ)
    → lookup k m ≡ some id
    → (o : ℕ) × (least start m ≡ some o) × (o ≤ id)
unfolding lookup
least-le start [] k id h = cc
least-le none ((j, i) ∷ m) k id h = elim (Bool-cases (j == k)) [
  | inl here ↦ let (o, e, le) = least-le_start i m in (o, e, ground arith)
  | inr away ↦ least-le (some i) m k id (rw away at h)
]
least-le (some so_far) ((j, i) ∷ m) k id h = elim (Bool-cases (j == k)) [
  | inl here ↦
      let (o, e, le) = least-le_start (min so_far i) m in
      let same : i ≡ id = ground arith in (o, e, omega arith)
  | inr away ↦ least-le (some (min so_far i)) m k id (rw away at h)
]

oldest-le :
    (s : SessionSlots) (k id : ℕ)
    → saved_version s k ≡ some id
    → (o : ℕ) × (oldest_active s ≡ some o) × (o ≤ id)
unfolding saved_version oldest_active
oldest-le s k id e = decide (lookup k s.version) refl
  where
    decide :
        (v : Option ℕ)
        → lookup k s.version ≡ v
        → (o : ℕ) × (least (least none s.saved) s.version ≡ some o) × (o ≤ id)
    decide (some i) q = least-le (least none s.saved) s.version k id (q ∙ (rw q at e))
    decide none q =
        let (o, p, le) = least-le none s.saved k id (rw q at e) in
        let (o', p', le') = least-le_start o s.version in (o', rw p p', omega arith)

-- A session that starts gets a number at most 65535 above every number that an active session has,
-- so that the contexts saved before can still be told apart.
pub load_new_gap :
    (s s' : SessionSlots) (x : Session) (h k id : ℕ)
    → load_new s x ≡ ok (h, s')
    → saved_version s k ≡ some id
    → (saved_version s' h ≡ some s.context_counter) × (s.context_counter ≤ id + 65535)
unfolding at_context_gap saved_version next_context_id
load_new_gap s s' x h k id e old =
    let (same, shape, few, places, gap, left) = load_new_ok s x h s' e in
    let (o, least_is, le) = oldest-le s k id old in
    (ground (arith, lookup-insert x.handle h s.context_counter s.version), ground arith)
