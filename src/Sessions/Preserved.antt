-- ===== src/Sessions/Preserved.antt =====
-- Every operation on the session slots keeps them valid, and gives out no number but the counter's.
-- src/tpm/core/session.rs.
use swtrust.Base.{
  ℕ, ◌+◌, ◌-◌, ◌^◌, ◌<◌, ◌≡◌, ◌≢◌, ◌⊎◌, inl, inr, refl, ◌∙◌, min, true, false, arith,
}
use swtrust.Error.{ok}
use swtrust.Sessions.Session.{Session}
use swtrust.Sessions.Slots.{
  SessionSlots, next_context_id, allocate_handle, load_new, counters_exhausted, get, put, index_of,
}
use swtrust.Sessions.Moves.{is_session_handle, in_range, without, save, put_away, restore}
use swtrust.Sessions.Status.{
  Status, absent, loaded, saved, status, id_of, is_active, IsNumbered, last, IsBelow, Updates,
  IsGiven, update-IsNumbered,
}
use swtrust.Sessions.Coherent.{
  IsCoherent, contains-status, after, load_new_ok, load_new-status, load_new-IsCoherent, save_ok,
  put_away-status, put_away-IsCoherent, without-status, without-IsCoherent, restored, restore_ok,
  restored-status, restored-IsCoherent, put-IsCoherent,
}
use swtrust.Sessions.Handles.{allocate_handle_ok, fresh_index, first_of, first_of-cases}
use swtrust.Sessions.Histories.{IsValid, Moves, Keeps}

module _ (s t : SessionSlots) (h : ℕ) (st : Status) (v : IsValid s)
    (update : Updates (status s) (status t) h st)
    (given : IsGiven (id_of (status s h)) (id_of st) s.context_counter t.context_counter)
    (word : t.context_counter < 2 ^ 64) where
  update-Moves : Moves s t
  update-Moves = record { onward = given.0; renumbers = λ k. ground (arith, update k) }

  -- A handle that was active stays the one of its index.
  update-Keeps_active :
      (is_active st ≡ true → is_active (status s h) ≡ true) → IsCoherent t → Keeps s t
  update-Keeps_active was coherent = (
    record {
      coherent = coherent;
      numbers =
          update-IsNumbered (status s) (status t) h st s.context_counter t.context_counter v.numbers
            update given word
            (λ on. (v.numbers.ranged h (was on), λ k p e. v.numbers.indexed h k (was on) p e));
      word = word;
    },
    update-Moves,
  )

  update-Keeps_new :
      is_session_handle h ≡ true
      → ((k : ℕ) → is_active (status s k) ≡ true → index_of h ≢ index_of k)
      → IsCoherent t
      → Keeps s t
  update-Keeps_new range apart coherent = (
    record {
      coherent = coherent;
      numbers =
          update-IsNumbered (status s) (status t) h st s.context_counter t.context_counter v.numbers
            update given word (λ on. (range, λ k p e. absurd (apart k p e)));
      word = word;
    },
    update-Moves,
  )

-- Every handle is as it was or is absent.
module _ (s t : SessionSlots) (v : IsValid s) (same : s.context_counter ≡ t.context_counter)
    (shrinks : (k : ℕ) → (status t k ≡ absent) ⊎ (status t k ≡ status s k)) where
  shrink-IsNumbered : IsNumbered (status t) t.context_counter
  shrink-IsNumbered = record {
    below = λ k id e. ground (arith, shrinks k, v.numbers.below k id);
    distinct = λ j k id p q. ground (arith, shrinks j, shrinks k, v.numbers.distinct j k id);
    indexed = λ j k p q e. ground (arith, shrinks j, shrinks k, v.numbers.indexed j k);
    ranged = λ k p. ground (arith, shrinks k, v.numbers.ranged k);
  }

  pub shrink-Keeps : IsCoherent t → Keeps s t
  shrink-Keeps coherent = (
    record { coherent = coherent; numbers = shrink-IsNumbered; word = omega (arith, v.word) },
    record { onward = omega arith; renumbers = λ k. ground (arith, shrinks k) },
  )

pub without-Keeps : (s : SessionSlots) (h : ℕ) → IsValid s → Keeps s (without s h)
without-Keeps s h v =
    update-Keeps_active s (without s h) h absent v (without-status s h v.coherent)
      (omega arith, inl refl) v.word (λ p. cc) (without-IsCoherent s h v.coherent)

pub save-Keeps :
    (s : SessionSlots) (h : ℕ) (y : Session) (id : ℕ) (s' : SessionSlots)
    → IsValid s
    → save s h ≡ ok ((y, id), s')
    → Keeps s s'
save-Keeps s h y id s' v e =
    let (there, here, shape) = save_ok s h y id s' v.coherent e in
    rw shape (
      update-Keeps_active s (put_away s h id) h (saved id) v
        (put_away-status s h id v.coherent here) (omega arith, inr (inl (rw here))) v.word
        (λ p. rw here) (put_away-IsCoherent s h id v.coherent y there))

-- The counter moves on, or it stands at its end already.
next-IsBelow :
    (s : SessionSlots)
    → s.context_counter < 2 ^ 64
    → IsBelow s.context_counter (min (s.context_counter + 1) last)
next-IsBelow s word = ground arith

pub restore-Keeps :
    (s : SessionSlots) (x : Session) (id : ℕ) (s' : SessionSlots)
    → IsValid s
    → restore s x id ≡ ok s'
    → Keeps s s'
unfolding next_context_id
restore-Keeps s x id s' v e =
    let (there, here, shape, few) = restore_ok s x id s' v.coherent e in
    rw shape (
      update-Keeps_active s (restored s x) x.handle (loaded s.context_counter) v
        (restored-status s x v.coherent) (omega arith, inr (inr (refl, next-IsBelow s v.word)))
        (omega arith) (λ p. rw here) (restored-IsCoherent s x v.coherent id there few))

inactive : (st : Status) → (is_active st ≡ true → ⊥) → st ≡ absent
inactive absent h = refl
inactive (loaded id) h = absurd (h refl)
inactive (saved id) h = absurd (h refl)

session_range : (t h : ℕ) → in_range (first_of t) h ≡ true → is_session_handle h ≡ true
unfolding is_session_handle
session_range t h e = ground (arith, first_of-cases t)

pub left_over :
    (s : SessionSlots)
    → s.context_counter < 2 ^ 64
    → counters_exhausted s ≡ false
    → s.context_counter < min (s.context_counter + 1) (2 ^ 64 - 1)
unfolding counters_exhausted
left_over s word e = ground arith

-- A handle that is allocated is not in use.
pub allocated-absent :
    (s : SessionSlots) (t h : ℕ) → IsCoherent s → allocate_handle s t ≡ ok h → status s h ≡ absent
allocated-absent s t h v e =
    let (range, free) = allocate_handle_ok s t h e in
    inactive (status s h) (λ p. fresh_index s h h free (contains-status s h v ∙ p) refl)

pub load_new-Keeps :
    (s : SessionSlots) (x : Session) (h : ℕ) (s' : SessionSlots)
    → IsValid s
    → allocate_handle s x.session_type ≡ ok x.handle
    → load_new s x ≡ ok (h, s')
    → Keeps s s'
unfolding next_context_id
load_new-Keeps s x h s' v handle e =
    let (same, shape, few, places, gap, left) = load_new_ok s x h s' e in
    let (range, free) = allocate_handle_ok s x.session_type x.handle handle in
    let apart = λ (k : ℕ) (p : is_active (status s k) ≡ true).
      fresh_index s x.handle k free (contains-status s k v.coherent ∙ p) in
    let room = left_over s v.word left in
    let unused = allocated-absent s x.session_type x.handle v.coherent handle in
    rw shape (
      update-Keeps_new s (after s x v.coherent unused) x.handle (loaded s.context_counter) v
        (load_new-status s x v.coherent unused) (omega (arith, room), inr (inr (refl, inl room)))
        (omega arith) (session_range x.session_type x.handle range) apart
        (load_new-IsCoherent s x v.coherent unused few places))

pub put-Keeps :
    (s : SessionSlots) (h : ℕ) (x y : Session)
    → IsValid s
    → get s h ≡ ok y
    → x.handle ≡ h
    → Keeps s (put s h x)
unfolding get put status
put-Keeps s h x y v e same =
    shrink-Keeps s (put s h x) v refl (λ k. inr refl)
      (put-IsCoherent s h x y v.coherent (ground arith) same)
