-- ===== src/Sessions/Handles.antt =====
-- Which handle a new session gets, and that there is one while a place is left. src/tpm/core/session.rs.
use swtrust.Base.{
  ℕ, zero, suc, ◌+◌, ◌%◌, ◌^◌, ◌≤◌, ◌<◌, ◌≡◌, ◌≢◌, ◌⊎◌, inl, inr, refl, ap, ◌∙◌, true, false, ◌||◌,
  List, [], ◌∷◌, ◌++◌, ◌==◌, if◌then◌else◌, length, arith, Bool-cases, ==→eq, length-append,
}
use swtrust.Base.Bits.{bit_and_mask}
use swtrust.Base.Maps.{Map, lookup, keys, contains_key}
use swtrust.Constants.Se
use swtrust.Error.{ok, err, TpmResult-cases}
use swtrust.Sessions.Slots.{
  SessionSlots, active, contains, index_of, any_index, context_id_taken, first_free,
  allocate_handle,
}
use swtrust.Sessions.Moves.{in_range}

pub index_of_mod : (h : ℕ) → index_of h ≡ h % 2 ^ 24
unfolding index_of
index_of_mod h = bit_and_mask 24 h

any_index-append :
    (xs ys : List ℕ) (i : ℕ) → any_index (xs ++ ys) i ≡ (any_index xs i || any_index ys i)
any_index-append [] ys i = refl
any_index-append (x ∷ xs) ys i = ground (arith, any_index-append xs ys i)

key_index :
    {V : Type 0} (k : ℕ) (m : Map V)
    → contains_key k m ≡ true
    → any_index (keys m) (index_of k) ≡ true
unfolding contains_key lookup keys
key_index k [] h = cc
key_index k ((j, w) ∷ m) h = elim (Bool-cases (j == k)) [
  | inl e ↦ rw (==→eq j k e) (ground arith)
  | inr n ↦ ground (arith, key_index k m (rw n at h))
]

-- The index of an active handle is taken.
pub contains-taken :
    (s : SessionSlots) (k : ℕ) → contains s k ≡ true → context_id_taken s (index_of k) ≡ true
unfolding contains context_id_taken
contains-taken s k h = ground (
  arith,
  any_index-append (keys s.sessions) (keys s.saved) (index_of k),
  key_index k s.sessions,
  key_index k s.saved,
)

module _ (s : SessionSlots) (base : ℕ) where
  -- The first index from `i` on that is not taken.
  first_free_ok :
      (left i h : ℕ)
      → first_free s base i left ≡ ok h
      → (j : ℕ) × (h ≡ base + j) × (j < i + left) × (context_id_taken s j ≡ false)
  unfolding first_free
  first_free_ok zero i h e = cc
  first_free_ok (suc left) i h e = elim (Bool-cases (context_id_taken s i)) [
    | inl taken ↦
        let (j, p, q, r) = first_free_ok left (i + 1) h (rw taken at e) in (j, p, omega arith, r)
    | inr free ↦ (i, ground arith, omega arith, free)
  ]

  first_free_err :
      (left i e : ℕ)
      → first_free s base i left ≡ err e
      → (j : ℕ) → i ≤ j
      → j < i + left
      → context_id_taken s j ≡ true
  unfolding first_free
  first_free_err zero i e h j p q = absurd (omega arith)
  first_free_err (suc left) i e h j p q = elim (Bool-cases (context_id_taken s i)) [
    | inl taken ↦ elim (Bool-cases (i == j)) [
      | inl here ↦ rw (← ==→eq i j here) taken
      | inr later ↦ first_free_err left (i + 1) e (rw taken at h) j (ground arith) (omega arith)
    ]
    | inr free ↦ ground arith
  ]

-- The handles without those of one index.
drop_index : ℕ → List ℕ → List ℕ
drop_index i [] = []
drop_index i (h ∷ hs) = if index_of h == i then drop_index i hs else h ∷ drop_index i hs

length-drop_index-le : (i : ℕ) (hs : List ℕ) → length (drop_index i hs) ≤ length hs
unfolding drop_index
length-drop_index-le i [] = omega arith
length-drop_index-le i (h ∷ hs) = ground (arith, length-drop_index-le i hs)

length-drop_index :
    (i : ℕ) (hs : List ℕ) → any_index hs i ≡ true → length (drop_index i hs) + 1 ≤ length hs
unfolding drop_index
length-drop_index i [] h = cc
length-drop_index i (x ∷ hs) h = ground (arith, length-drop_index-le i hs, length-drop_index i hs)

any_index-drop_index :
    (i j : ℕ) (hs : List ℕ) → i ≢ j → any_index (drop_index i hs) j ≡ any_index hs j
unfolding drop_index
any_index-drop_index i j [] n = refl
any_index-drop_index i j (x ∷ hs) n = ground (arith, any_index-drop_index i j hs)

-- As many indices as are taken, as many handles are there.
pigeonhole : (n : ℕ) (hs : List ℕ) → ((i : ℕ) → i < n → any_index hs i ≡ true) → n ≤ length hs
pigeonhole zero hs h = omega arith
pigeonhole (suc n) hs h = omega (
  arith,
  length-drop_index n hs (h n (omega arith)),
  pigeonhole n (drop_index n hs)
      (λ i p. any_index-drop_index n i hs (λ e. omega arith) ∙ h i (omega arith)),
)

length-keys : {V : Type 0} (m : Map V) → length (keys m) ≡ length m
unfolding keys
length-keys [] = refl
length-keys ((k, v) ∷ m) = ap suc (length-keys m)

-- The first handle of the range that a session type has.
abbrev pub first_of : ℕ → ℕ
first_of session_type =
    if session_type == Se.hmac then Se.hmac_session_first else Se.policy_session_first

pub first_of-cases : (t : ℕ) → (first_of t ≡ 0x0200_0000) ⊎ (first_of t ≡ 0x0300_0000)
first_of-cases t = ground arith

-- A handle that is allocated is in the range of its type, and its index is free.
pub allocate_handle_ok :
    (s : SessionSlots) (session_type h : ℕ)
    → allocate_handle s session_type ≡ ok h
    → (in_range (first_of session_type) h ≡ true) × (context_id_taken s (index_of h) ≡ false)
unfolding allocate_handle
allocate_handle_ok s t h e =
    let (j, place, small, free) = first_free_ok s (first_of t) 64 0 h e in
    let index : index_of h ≡ j = omega (arith, index_of_mod h, first_of-cases t) in
    (ground arith, rw index free)

pub fresh_index :
    (s : SessionSlots) (h k : ℕ)
    → context_id_taken s (index_of h) ≡ false
    → contains s k ≡ true
    → index_of h ≢ index_of k
fresh_index s h k free there e =
    let taken : context_id_taken s (index_of h) ≡ true = rw e (contains-taken s k there) in cc

full : (s : SessionSlots) → ((j : ℕ) → j < 64 → context_id_taken s j ≡ true) → 64 ≤ active s
unfolding context_id_taken active
full s h = omega (
  arith,
  pigeonhole 64 (keys s.sessions ++ keys s.saved) h,
  length-append (keys s.sessions) (keys s.saved),
  length-keys s.sessions,
  length-keys s.saved,
)

none_left : (s : SessionSlots) (t e : ℕ) → allocate_handle s t ≡ err e → 64 ≤ active s
unfolding allocate_handle
none_left s t e h =
    full s (λ j p. first_free_err s (first_of t) 64 0 e h j (omega arith) (omega arith))

-- While fewer than 64 sessions are active, a new session of either type gets a handle. It lies in the
-- range of its type, and no active session of either type has the same lower three octets.
pub allocate_handle_total :
    (s : SessionSlots) (session_type : ℕ)
    → active s < 64
    → (h : ℕ) × (allocate_handle s session_type ≡ ok h)
      × (in_range (first_of session_type) h ≡ true)
      × ((k : ℕ) → contains s k ≡ true → index_of h ≢ index_of k)
allocate_handle_total s t room = decide (TpmResult-cases (allocate_handle s t))
  where
    decide :
        ((h : ℕ) × (allocate_handle s t ≡ ok h)) ⊎ ((e : ℕ) × (allocate_handle s t ≡ err e))
        → (h : ℕ) × (allocate_handle s t ≡ ok h)
          × (in_range (first_of t) h ≡ true)
          × ((k : ℕ) → contains s k ≡ true → index_of h ≢ index_of k)
    decide (inl (h, e)) =
        let (range, free) = allocate_handle_ok s t h e in
        (h, e, range, λ k there. fresh_index s h k free there)
    decide (inr (code, e)) = absurd (omega (arith, none_left s t code e))
