-- ===== src/Sessions/Status.antt =====
-- The abstract view of the session slots: a handle is absent, or it is loaded or saved with the number
-- of its context. It forgets the three maps of src/tpm/core/session.rs and how they are searched.
use swtrust.Base.{
  ℕ, ◌-◌, ◌^◌, ◌≤◌, ◌<◌, ◌≡◌, ◌⊎◌, inl, inr, sym, ap, ◌∙◌, Bool, true, false, Option, none, some,
  ◌==◌, if◌then◌else◌, arith, Bool-cases, ==→eq,
}
use swtrust.Base.Maps.{lookup}
use swtrust.Sessions.Slots.{SessionSlots, index_of}
use swtrust.Sessions.Moves.{is_session_handle}

pub data Status : Type 0 where
  absent : Status
  loaded : ℕ → Status
  saved : ℕ → Status

abbrev pub saved_status : Option ℕ → Status
saved_status none = absent
saved_status (some id) = saved id

abbrev pub status_of : Option ℕ → Option ℕ → Status
status_of (some id) away = loaded id
status_of none away = saved_status away

unfoldable pub status : SessionSlots → ℕ → Status
status s h = status_of (lookup h s.version) (lookup h s.saved)

abbrev pub id_of : Status → Option ℕ
id_of absent = none
id_of (loaded id) = some id
id_of (saved id) = some id

abbrev pub is_active : Status → Bool
is_active absent = false
is_active (loaded id) = true
is_active (saved id) = true

-- The end of the counter, a `u64` that saturates.
abbrev pub last : ℕ
last = 2 ^ 64 - 1

-- A number that was given out: the counter has moved on, or both stand at the end.
abbrev pub IsBelow : ℕ → ℕ → Type 0
IsBelow id counter = (id < counter) ⊎ (id ≡ last) × (counter ≡ last)

-- What an active handle is at any time: no number but the last one was given twice, none is still to
-- come, no two handles share the lower three octets, and every handle is in a session range.
pub record IsNumbered (f : ℕ → Status) (counter : ℕ) : Type 0 where
  pub below : (h id : ℕ) → id_of (f h) ≡ some id → IsBelow id counter
  pub distinct :
      (h k id : ℕ) → id_of (f h) ≡ some id → id_of (f k) ≡ some id → (h ≡ k) ⊎ (id ≡ last)
  pub indexed :
      (h k : ℕ) → is_active (f h) ≡ true → is_active (f k) ≡ true → index_of h ≡ index_of k → h ≡ k
  pub ranged : (h : ℕ) → is_active (f h) ≡ true → is_session_handle h ≡ true

-- A step that changes the status of one handle.
abbrev pub Updates : (ℕ → Status) → (ℕ → Status) → ℕ → Status → Type 0
Updates f g h st = (k : ℕ) → g k ≡ (if h == k then st else f k)

-- The number of the new status is the old one, or the counter, which then moves on.
abbrev pub IsGiven : Option ℕ → Option ℕ → ℕ → ℕ → Type 0
IsGiven old new counter next =
    (counter ≤ next) × ((new ≡ none) ⊎ (new ≡ old) ⊎ (new ≡ some counter) × IsBelow counter next)

module _ (f g : ℕ → Status) (h : ℕ) (st : Status) (counter next : ℕ) (inv : IsNumbered f counter)
    (update : Updates f g h st) (given : IsGiven (id_of (f h)) (id_of st) counter next)
    (word : next < 2 ^ 64) where
  updated-IsBelow : (k id : ℕ) → id_of (g k) ≡ some id → IsBelow id next
  updated-IsBelow k id e = ground (arith, update k, inv.below k id, inv.below h id)

  updated_distinct :
      (j k id : ℕ) → id_of (g j) ≡ some id → id_of (g k) ≡ some id → (j ≡ k) ⊎ (id ≡ last)
  updated_distinct j k id p q = ground (
    arith,
    update j,
    update k,
    inv.distinct j k id,
    inv.distinct h k id,
    inv.distinct j h id,
    inv.below k id,
    inv.below j id,
  )

  -- A handle that becomes active is new in its range.
  abbrev IsFresh : Type 0
  IsFresh =
      is_active st ≡ true
      → (is_session_handle h ≡ true)
        × ((k : ℕ) → is_active (f k) ≡ true → index_of h ≡ index_of k → h ≡ k)

  updated_indexed :
      IsFresh
      → (j k : ℕ) → is_active (g j) ≡ true
      → is_active (g k) ≡ true
      → index_of j ≡ index_of k
      → j ≡ k
  updated_indexed fresh j k p q e = elim (Bool-cases (h == j)) [
    | inl here ↦ elim (Bool-cases (h == k)) [
      | inl there ↦ sym (==→eq h j here) ∙ ==→eq h k there
      | inr other ↦
          let same = ==→eq h j here in
          let new : is_active st ≡ true = rw (update j, here) at p in
          let old : is_active (f k) ≡ true = rw (update k, other) at q in
          sym same ∙ (fresh new).1 k old (ap index_of same ∙ e)
    ]
    | inr away ↦ elim (Bool-cases (h == k)) [
      | inl there ↦
          let same = ==→eq h k there in
          let new : is_active st ≡ true = rw (update k, there) at q in
          let old : is_active (f j) ≡ true = rw (update j, away) at p in
          sym ((fresh new).1 j old (ap index_of same ∙ sym e)) ∙ same
      | inr other ↦
          let old : is_active (f j) ≡ true = rw (update j, away) at p in
          let too : is_active (f k) ≡ true = rw (update k, other) at q in inv.indexed j k old too e
    ]
  ]

  updated_ranged : IsFresh → (k : ℕ) → is_active (g k) ≡ true → is_session_handle k ≡ true
  updated_ranged fresh k p = elim (Bool-cases (h == k)) [
    | inl here ↦
        let new : is_active st ≡ true = rw (update k, here) at p in
        rw (← ==→eq h k here) (fresh new).0
    | inr away ↦ let old : is_active (f k) ≡ true = rw (update k, away) at p in inv.ranged k old
  ]

  pub update-IsNumbered : IsFresh → IsNumbered g next
  update-IsNumbered fresh = record {
    below = updated-IsBelow;
    distinct = updated_distinct;
    indexed = updated_indexed fresh;
    ranged = updated_ranged fresh;
  }
