-- ===== src/Sessions/Histories.antt =====
-- Every history of the session slots: since the start, and between two points without a TPM Reset.
-- src/tpm/core/session.rs.
use swtrust.Base.{ℕ, ◌^◌, ◌≤◌, ◌<◌, ◌≡◌, ◌⊎◌, none, some}
use swtrust.Error.{ok}
use swtrust.Sessions.Session.{Session}
use swtrust.Sessions.Slots.{SessionSlots, new, next_object_id, allocate_handle, load_new, get, put}
use swtrust.Sessions.Moves.{
  remove_session, flush, save, restore, clear, saved_contexts, restore_saved_contexts, flush_loaded,
}
use swtrust.Sessions.Status.{status, id_of, IsNumbered}
use swtrust.Sessions.Coherent.{IsCoherent}

-- The slots over a power cycle that is no TPM Reset: the record of the saved contexts comes back from
-- the state file.
abbrev pub power_cycled : SessionSlots → SessionSlots
power_cycled s = restore_saved_contexts new (saved_contexts s) s.context_counter s.object_counter

-- One operation, as the commands use them: a new session carries the handle that was allocated for
-- it, and a session that is changed in place keeps its handle.
pub data Step (s : SessionSlots) : SessionSlots → Type 0 where
  started :
      {s' : SessionSlots} (x : Session) (h : ℕ)
      → allocate_handle s x.session_type ≡ ok x.handle
      → load_new s x ≡ ok (h, s')
      → Step s s'
  changed : (h : ℕ) (x y : Session) → get s h ≡ ok y → x.handle ≡ h → Step s (put s h x)
  stored :
      {s' : SessionSlots} (h : ℕ) (y : Session) (id : ℕ) → save s h ≡ ok ((y, id), s') → Step s s'
  brought_back : {s' : SessionSlots} (x : Session) (id : ℕ) → restore s x id ≡ ok s' → Step s s'
  flushed : (h : ℕ) → Step s (flush s h).1
  dropped : (h : ℕ) → Step s (remove_session s h).1
  numbered : Step s (next_object_id s).1
  unloaded : Step s (flush_loaded s)
  cycled : Step s (power_cycled s)

-- Any number of operations without a TPM Reset.
pub data Run (s : SessionSlots) : SessionSlots → Type 0 where
  done : Run s s
  more : {t u : SessionSlots} → Run s t → Step t u → Run s u

-- Any number of operations and TPM Resets since the slots were new.
pub data Reach : SessionSlots → Type 0 where
  start : Reach new
  step : {s t : SessionSlots} → Reach s → Step s t → Reach t
  reset : {s : SessionSlots} → Reach s → Reach (clear s)

-- The maps hang together, and the numbers and handles of the active sessions are as the record
-- `IsNumbered` says.
pub record IsValid (s : SessionSlots) : Type 0 where
  pub coherent : IsCoherent s
  pub numbers : IsNumbered (status s) s.context_counter
  pub word : s.context_counter < 2 ^ 64

-- What an operation may do to the number that a handle has: take it away, keep it, or give the one
-- that the counter stands at.
pub record Moves (s t : SessionSlots) : Type 0 where
  pub onward : s.context_counter ≤ t.context_counter
  pub renumbers :
      (k : ℕ)
      → (id_of (status t k) ≡ none)
        ⊎ (id_of (status t k) ≡ id_of (status s k))
        ⊎ (id_of (status t k) ≡ some s.context_counter)

abbrev pub Keeps : SessionSlots → SessionSlots → Type 0
Keeps s t = IsValid t × Moves s t
