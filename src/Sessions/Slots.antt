-- ===== src/Sessions/Slots.antt =====
-- `SessionSlots` of src/tpm/core/session.rs: the loaded sessions, the record of the saved ones, and the
-- counters that number their contexts.
use swtrust.Base.{
  ℕ, zero, suc, ◌+◌, ◌-◌, ◌^◌, min, Bool, false, ◌||◌, Option, none, some, List, [], ◌∷◌, ◌++◌,
  ◌==◌, ltb, leb, if◌then◌else◌, length, bit_and,
}
use swtrust.Base.Maps.{Map, lookup, insert, keys, contains_key}
use swtrust.Constants.Config
use swtrust.Constants.Rc
use swtrust.Constants.Se
use swtrust.Error.{TpmResult, ok, err, ◌>>◌, refuse_if}
use swtrust.Sessions.Session.{Session}

pub record SessionSlots : Type 0 where
  pub sessions : Map Session
  pub saved : Map ℕ
  pub version : Map ℕ
  pub context_counter : ℕ  -- u64
  pub object_counter : ℕ  -- u64

unfoldable pub new : SessionSlots
new = record { sessions = []; saved = []; version = []; context_counter = 1; object_counter = 1 }

-- `len` and `loaded`
unfoldable pub loaded : SessionSlots → ℕ
loaded s = length s.sessions

unfoldable pub active : SessionSlots → ℕ
active s = length s.sessions + length s.saved

-- `saturating_add(1)` on a `u64`.
abbrev pub stepped : ℕ → ℕ
stepped n = min (n + 1) (2 ^ 64 - 1)

unfoldable pub next_object_id : SessionSlots → ℕ × SessionSlots
next_object_id s = (s.object_counter, record s { object_counter = stepped s.object_counter })

-- `values().min()` with a smallest value so far.
abbrev pub least : Option ℕ → Map ℕ → Option ℕ
least so_far [] = so_far
least none ((h, id) ∷ m) = least (some id) m
least (some so_far) ((h, id) ∷ m) = least (some (min so_far id)) m

unfoldable pub oldest_active : SessionSlots → Option ℕ
oldest_active s = least (least none s.saved) s.version

unfoldable pub oldest_saved : SessionSlots → Option ℕ
oldest_saved s = least none s.saved

abbrev pub or_else : Option ℕ → Option ℕ → Option ℕ
or_else none o = o
or_else (some v) o = some v

unfoldable pub saved_version : SessionSlots → ℕ → Option ℕ
saved_version s handle = or_else (lookup handle s.version) (lookup handle s.saved)

abbrev pub gap_from : ℕ → Option ℕ → Bool
gap_from counter none = false
gap_from counter (some oldest) = ltb Config.context_gap_max (counter - oldest)

-- `saturating_sub` is the subtraction of ℕ.
unfoldable pub at_context_gap : SessionSlots → Bool
at_context_gap s = gap_from s.context_counter (oldest_active s)

unfoldable pub check_gap : SessionSlots → TpmResult (Unit {0})
check_gap s = refuse_if (at_context_gap s) Rc.context_gap

unfoldable pub counters_exhausted : SessionSlots → Bool
counters_exhausted s = s.context_counter == 2 ^ 64 - 1 || s.object_counter == 2 ^ 64 - 1

unfoldable pub next_context_id : SessionSlots → ℕ × SessionSlots
next_context_id s = (s.context_counter, record s { context_counter = stepped s.context_counter })

-- `h & 0x00FF_FFFF`
unfoldable pub index_of : ℕ → ℕ
index_of handle = bit_and handle 0x00ff_ffff

abbrev pub any_index : List ℕ → ℕ → Bool
any_index [] index = false
any_index (h ∷ hs) index = index_of h == index || any_index hs index

unfoldable pub context_id_taken : SessionSlots → ℕ → Bool
context_id_taken s index = any_index (keys s.sessions ++ keys s.saved) index

-- The loop of `allocate_handle` from `i` on, `left` rounds of it.
unfoldable pub first_free : SessionSlots → ℕ → ℕ → ℕ → TpmResult ℕ
first_free s base i zero = err Rc.session_handles
first_free s base i (suc left) =
    let later = first_free s base (i + 1) left in
    if context_id_taken s i then later else ok (base + i)

unfoldable pub allocate_handle : SessionSlots → ℕ → TpmResult ℕ
allocate_handle s session_type =
    first_free s
      (if session_type == Se.hmac then Se.hmac_session_first else Se.policy_session_first) 0
      Config.max_active_sessions

abbrev pub insert_session : SessionSlots → Session → SessionSlots
insert_session s x =
    let (id, s') = next_context_id s in
    record s' { version = insert x.handle id s'.version; sessions = insert x.handle x s'.sessions }

-- `SessionSlots::insert`
unfoldable pub load_new : SessionSlots → Session → TpmResult (ℕ × SessionSlots)
unfolding next_context_id
load_new s x = do
  refuse_if (leb Config.max_loaded_sessions (length s.sessions)) Rc.session_memory
  refuse_if (leb Config.max_active_sessions (active s)) Rc.session_handles
  check_gap s
  refuse_if (counters_exhausted s) Rc.too_many_contexts
  ok (x.handle, insert_session s x)

abbrev pub ok_or_handle {ℓ} : {A : Type ℓ} → Option A → TpmResult A
ok_or_handle none = err Rc.handle
ok_or_handle (some x) = ok x

unfoldable pub get : SessionSlots → ℕ → TpmResult Session
get s handle = ok_or_handle (lookup handle s.sessions)

-- A session that `get_mut` gave is written back under its handle.
unfoldable pub put : SessionSlots → ℕ → Session → SessionSlots
put s handle x = record s { sessions = insert handle x s.sessions }

-- `contains`
unfoldable pub contains : SessionSlots → ℕ → Bool
contains s handle = contains_key handle s.sessions || contains_key handle s.saved
