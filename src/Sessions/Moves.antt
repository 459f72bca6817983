-- ===== src/Sessions/Moves.antt =====
-- What takes sessions away, puts them away and brings them back: the rest of `SessionSlots` of
-- src/tpm/core/session.rs, and the tests on handles beside it.
use swtrust.Base.{
  ℕ, ◌+◌, ◌-◌, Bool, true, false, ◌&&◌, ◌||◌, Option, none, some, List, [], ◌∷◌, ◌==◌, ltb, leb,
  if◌then◌else◌, length, bit_and, bit_or,
}
use swtrust.Base.Maps.{Map, lookup, insert, remove, keys}
use swtrust.Constants.Config
use swtrust.Constants.Rc
use swtrust.Constants.Se
use swtrust.Error.{TpmResult, ok, err, ◌>>=◌, ◌>>◌, refuse_if}
use swtrust.Sessions.Session.{Session}
use swtrust.Sessions.Slots.{SessionSlots, next_context_id, index_of, contains, ok_or_handle}

-- The record of a handle goes, whether or not the session is loaded.
abbrev pub without : SessionSlots → ℕ → SessionSlots
without s handle = record s {
  sessions = remove handle s.sessions;
  saved = remove handle s.saved;
  version = remove handle s.version;
}

-- `SessionSlots::remove`
unfoldable pub remove_session : SessionSlots → ℕ → TpmResult Session × SessionSlots
remove_session s handle = (ok_or_handle (lookup handle s.sessions), without s handle)

-- `(base & 0xFF00_0000) | index`
abbrev pub aliased : ℕ → ℕ → ℕ
aliased base handle = bit_or (bit_and base 0xff00_0000) (index_of handle)

abbrev pub push_alias : SessionSlots → ℕ → ℕ → List ℕ → List ℕ
push_alias s handle candidate more =
    if candidate == handle then more else if contains s candidate then candidate ∷ more else more

unfoldable pub flush_candidates : SessionSlots → ℕ → List ℕ
flush_candidates s handle =
    handle
    ∷ push_alias s handle (aliased Se.hmac_session_first handle)
        (push_alias s handle (aliased Se.policy_session_first handle) [])

-- The loop of `flush`.
unfoldable pub flush_first : SessionSlots → List ℕ → TpmResult ℕ × SessionSlots
flush_first s [] = (err Rc.handle, s)
flush_first s (candidate ∷ more) =
    let later = flush_first (without s candidate) more in
    if contains s candidate then (ok candidate, without s candidate) else later

unfoldable pub flush : SessionSlots → ℕ → TpmResult ℕ × SessionSlots
unfolding flush_first
flush s handle = flush_first s (flush_candidates s handle)

abbrev pub unwrap_or : Option ℕ → ℕ → ℕ
unwrap_or none d = d
unwrap_or (some v) d = v

abbrev pub put_away : SessionSlots → ℕ → ℕ → SessionSlots
put_away s handle id = record s {
  sessions = remove handle s.sessions;
  version = remove handle s.version;
  saved = insert handle id s.saved;
}

unfoldable pub save : SessionSlots → ℕ → TpmResult ((Session × ℕ) × SessionSlots)
save s handle = do
  session ← ok_or_handle (lookup handle s.sessions)
  let id = unwrap_or (lookup handle s.version) s.context_counter
  ok ((session, id), put_away s handle id)

-- The guard of `restore` on the record of the saved context.
abbrev pub check_version : Option ℕ → ℕ → TpmResult (Unit {0})
check_version none version = err Rc.handle
check_version (some current) version = if current == version then ok tt else err Rc.value

unfoldable pub restore : SessionSlots → Session → ℕ → TpmResult SessionSlots
unfolding next_context_id
restore s x version = do
  check_version (lookup x.handle s.saved) version
  refuse_if (leb Config.max_loaded_sessions (length s.sessions)) Rc.session_memory
  let (id, s') = next_context_id s
  ok (record s' {
    version = insert x.handle id s'.version;
    saved = remove x.handle s'.saved;
    sessions = insert x.handle x s'.sessions;
  })

unfoldable pub clear : SessionSlots → SessionSlots
clear s = record {
  sessions = [];
  saved = [];
  version = [];
  context_counter = 1;
  object_counter = 1;
}

-- `saved_contexts`, `loaded_handles` and `saved_handles` read the maps in key order.
unfoldable pub saved_contexts : SessionSlots → List (ℕ × ℕ)
saved_contexts s = s.saved

unfoldable pub loaded_handles : SessionSlots → List ℕ
loaded_handles s = keys s.sessions

unfoldable pub saved_handles : SessionSlots → List ℕ
saved_handles s = keys s.saved

-- `into_iter().collect()`: a later pair replaces an earlier one with its key.
unfoldable pub collect : Map ℕ → List (ℕ × ℕ) → Map ℕ
collect m [] = m
collect m ((h, id) ∷ more) = collect (insert h id m) more

unfoldable pub restore_saved_contexts : SessionSlots → List (ℕ × ℕ) → ℕ → ℕ → SessionSlots
restore_saved_contexts s contexts counter object_counter = record s {
  saved = collect [] contexts;
  context_counter = counter;
  object_counter = object_counter;
}

unfoldable pub flush_loaded : SessionSlots → SessionSlots
flush_loaded s = record s { sessions = []; version = [] }

abbrev pub in_range : ℕ → ℕ → Bool
in_range first handle = leb first handle && leb handle (first + Config.max_active_sessions - 1)

unfoldable pub is_session_handle : ℕ → Bool
is_session_handle handle =
    in_range Se.hmac_session_first handle || in_range Se.policy_session_first handle

-- `ObjectSlots::is_transient`: 32 handles from TRANSIENT_FIRST on.
unfoldable pub is_transient : ℕ → Bool
is_transient handle = leb 0x8000_0000 handle && leb handle 0x8000_001f

unfoldable pub is_flushable_session : ℕ → Bool
unfolding is_session_handle is_transient
is_flushable_session handle =
    if is_session_handle handle
    then true
    else if is_transient handle
    then false
    else ltb (index_of handle) Config.max_active_sessions
