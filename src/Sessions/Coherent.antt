-- ===== src/Sessions/Coherent.antt =====
-- How the three maps of the session slots hang together, and what each operation does to the status of
-- every handle. src/tpm/core/session.rs.
use swtrust.Base.{ℕ, ◌≤◌, ◌<◌, ◌≡◌, false, none, some, length, arith}
use swtrust.Base.Maps.{
  lookup, insert, remove, contains_key, lookup-insert, lookup-remove, length-insert, length-remove,
  length-remove-some, length-insert-some, SortedFrom, insert-SortedFrom, remove-SortedFrom,
}
use swtrust.Error.{ok}
use swtrust.Sessions.Session.{Session}
use swtrust.Sessions.Slots.{
  SessionSlots, active, contains, check_gap, at_context_gap, counters_exhausted, next_context_id,
  insert_session, load_new, put,
}
use swtrust.Sessions.Moves.{save, put_away, restore, without}
use swtrust.Sessions.Status.{absent, loaded, saved, status, is_active, Updates}

pub record IsCoherent (s : SessionSlots) : Type 0 where
  pub numbered : (h : ℕ) → contains_key h s.sessions ≡ contains_key h s.version
  pub keyed : (h : ℕ) (y : Session) → lookup h s.sessions ≡ some y → y.handle ≡ h
  pub disjoint : (h id : ℕ) → lookup h s.saved ≡ some id → lookup h s.version ≡ none
  pub ordered : SortedFrom 0 s.sessions
  pub sorted : SortedFrom 0 s.saved
  pub few_loaded : length s.sessions ≤ 32
  pub few_active : active s ≤ 64

pub contains-status :
    (s : SessionSlots) (h : ℕ) → IsCoherent s → contains s h ≡ is_active (status s h)
unfolding contains contains_key status
contains-status s h v = ground (arith, v.numbered h)

-- What a successful `insert` has checked.
pub load_new_ok :
    (s : SessionSlots) (x : Session) (h : ℕ) (s' : SessionSlots)
    → load_new s x ≡ ok (h, s')
    → (h ≡ x.handle)
      × (s' ≡ insert_session s x)
      × (length s.sessions < 32)
      × (active s < 64)
      × (at_context_gap s ≡ false)
      × (counters_exhausted s ≡ false)
unfolding load_new check_gap next_context_id
load_new_ok s x h s' e = ground arith

module _ (s : SessionSlots) (x : Session) (v : IsCoherent s)
    (new : status s x.handle ≡ absent) where
  abbrev pub after : SessionSlots
  unfolding next_context_id
  after = insert_session s x

  pub load_new-status : Updates (status s) (status after) x.handle (loaded s.context_counter)
  unfolding status next_context_id
  load_new-status k = ground (arith, lookup-insert x.handle k s.context_counter s.version)

  pub load_new-IsCoherent : length s.sessions < 32 → active s < 64 → IsCoherent after
  unfolding status next_context_id contains_key active
  load_new-IsCoherent room places = record {
    numbered = λ k. ground (
      arith,
      lookup-insert x.handle k s.context_counter s.version,
      lookup-insert x.handle k x s.sessions,
      v.numbered k,
    );
    keyed = λ k y e. ground (arith, lookup-insert x.handle k x s.sessions, v.keyed k y);
    disjoint = λ k id e.
        ground (arith, lookup-insert x.handle k s.context_counter s.version, v.disjoint k id);
    ordered = insert-SortedFrom 0 x.handle x s.sessions (omega arith) v.ordered;
    sorted = v.sorted;
    few_loaded = omega (arith, length-insert x.handle x s.sessions);
    few_active = omega (arith, length-insert x.handle x s.sessions);
  }

-- A session that is put away keeps its number.
pub save_ok :
    (s : SessionSlots) (h : ℕ) (y : Session) (id : ℕ) (s' : SessionSlots)
    → IsCoherent s
    → save s h ≡ ok ((y, id), s')
    → (lookup h s.sessions ≡ some y) × (status s h ≡ loaded id) × (s' ≡ put_away s h id)
unfolding save status contains_key
save_ok s h y id s' v e = ground (arith, v.numbered h)

module _ (s : SessionSlots) (h id : ℕ) (v : IsCoherent s) where
  pub put_away-status :
      status s h ≡ loaded id → Updates (status s) (status (put_away s h id)) h (saved id)
  unfolding status
  put_away-status here k = ground (arith, lookup-remove h k s.version, lookup-insert h k id s.saved)

  pub put_away-IsCoherent :
      (y : Session) → lookup h s.sessions ≡ some y → IsCoherent (put_away s h id)
  unfolding contains_key active
  put_away-IsCoherent y there = record {
    numbered = λ k.
        ground (arith, lookup-remove h k s.version, lookup-remove h k s.sessions, v.numbered k);
    keyed = λ k z e. ground (arith, lookup-remove h k s.sessions, v.keyed k z);
    disjoint = λ k i e.
        ground (arith, lookup-remove h k s.version, lookup-insert h k id s.saved, v.disjoint k i);
    ordered = remove-SortedFrom 0 h s.sessions v.ordered;
    sorted = insert-SortedFrom 0 h id s.saved (omega arith) v.sorted;
    few_loaded = omega (arith, length-remove h s.sessions, v);
    few_active =
        omega (arith, length-remove-some h y s.sessions there, length-insert h id s.saved, v);
  }

module _ (s : SessionSlots) (h : ℕ) (v : IsCoherent s) where
  pub without-status : Updates (status s) (status (without s h)) h absent
  unfolding status
  without-status k = ground (arith, lookup-remove h k s.version, lookup-remove h k s.saved)

  pub without-IsCoherent : IsCoherent (without s h)
  unfolding contains_key active
  without-IsCoherent = record {
    numbered = λ k.
        ground (arith, lookup-remove h k s.version, lookup-remove h k s.sessions, v.numbered k);
    keyed = λ k z e. ground (arith, lookup-remove h k s.sessions, v.keyed k z);
    disjoint = λ k i e.
        ground (arith, lookup-remove h k s.version, lookup-remove h k s.saved, v.disjoint k i);
    ordered = remove-SortedFrom 0 h s.sessions v.ordered;
    sorted = remove-SortedFrom 0 h s.saved v.sorted;
    few_loaded = omega (arith, length-remove h s.sessions, v);
    few_active = omega (arith, length-remove h s.sessions, length-remove h s.saved, v);
  }

-- What `restore` leaves, where it does not refuse.
abbrev pub restored : SessionSlots → Session → SessionSlots
unfolding next_context_id
restored s x =
    let (id, s') = next_context_id s in
    record s' {
      version = insert x.handle id s'.version;
      saved = remove x.handle s'.saved;
      sessions = insert x.handle x s'.sessions;
    }

-- Only the number that the context was saved with is taken.
pub restore_ok :
    (s : SessionSlots) (x : Session) (id : ℕ) (s' : SessionSlots)
    → IsCoherent s
    → restore s x id ≡ ok s'
    → (lookup x.handle s.saved ≡ some id)
      × (status s x.handle ≡ saved id)
      × (s' ≡ restored s x)
      × (length s.sessions < 32)
unfolding restore status next_context_id
restore_ok s x id s' v e = ground (arith, v.disjoint x.handle id)

module _ (s : SessionSlots) (x : Session) (v : IsCoherent s) where
  pub restored-status :
      Updates (status s) (status (restored s x)) x.handle (loaded s.context_counter)
  unfolding status next_context_id
  restored-status k = ground (
    arith,
    lookup-insert x.handle k s.context_counter s.version,
    lookup-remove x.handle k s.saved,
  )

  pub restored-IsCoherent :
      (id : ℕ)
      → lookup x.handle s.saved ≡ some id
      → length s.sessions < 32
      → IsCoherent (restored s x)
  unfolding contains_key active next_context_id
  restored-IsCoherent id there room = record {
    numbered = λ k. ground (
      arith,
      lookup-insert x.handle k s.context_counter s.version,
      lookup-insert x.handle k x s.sessions,
      v.numbered k,
    );
    keyed = λ k y e. ground (arith, lookup-insert x.handle k x s.sessions, v.keyed k y);
    disjoint = λ k i e. ground (
      arith,
      lookup-insert x.handle k s.context_counter s.version,
      lookup-remove x.handle k s.saved,
      v.disjoint k i,
    );
    ordered = insert-SortedFrom 0 x.handle x s.sessions (omega arith) v.ordered;
    sorted = remove-SortedFrom 0 x.handle s.saved v.sorted;
    few_loaded = omega (arith, length-insert x.handle x s.sessions);
    few_active = omega (
      arith,
      length-insert x.handle x s.sessions,
      length-remove-some x.handle id s.saved there,
      v,
    );
  }

module _ (s : SessionSlots) (h : ℕ) (x y : Session) (v : IsCoherent s)
    (there : lookup h s.sessions ≡ some y) (same : x.handle ≡ h) where
  pub put-IsCoherent : IsCoherent (put s h x)
  unfolding contains_key active put
  put-IsCoherent = record {
    numbered = λ k. ground (arith, lookup-insert h k x s.sessions, v.numbered k);
    keyed = λ k z e. ground (arith, lookup-insert h k x s.sessions, v.keyed k z);
    disjoint = v.disjoint;
    ordered = insert-SortedFrom 0 h x s.sessions (omega arith) v.ordered;
    sorted = v.sorted;
    few_loaded = omega (arith, length-insert-some 0 h x y s.sessions v.ordered there, v);
    few_active = omega (arith, length-insert-some 0 h x y s.sessions v.ordered there, v);
  }
