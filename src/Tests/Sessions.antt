-- ===== src/Tests/Sessions.antt =====
-- Sessions: loaded, put away, brought back and flushed.
use swtrust.Base.{ℕ, ◌≡◌, ◌≢◌, ◌⊎◌, refl, true, false, none, some, List, [], ◌∷◌, arith, ◌+◌, ◌≤◌}
use swtrust.Constants.Alg
use swtrust.Constants.Rc
use swtrust.Constants.Se
use swtrust.Error.{ok, err}
use swtrust.Marshal.Read.{from_bytes}
use swtrust.Marshal.Write.{to_bytes}
use swtrust.Structures.Schemes.{SymDef_null}
use swtrust.Sessions.Policy.{PolicyState, marshal, unmarshal}
use swtrust.Sessions.Contexts.{IsStored, policy_round_trip}
use swtrust.Sessions.Session.{Session}
use swtrust.Sessions.Slots
use swtrust.Sessions.Slots.{
  SessionSlots, allocate_handle, load_new, get, saved_version, contains, index_of, active,
  at_context_gap, counters_exhausted, insert_session,
}
use swtrust.Sessions.Moves.{save, restore, flush, without, put_away, in_range}
use swtrust.Sessions.Status.{status, loaded}
use swtrust.Sessions.Coherent.{restored}
use swtrust.Sessions.Histories.{
  IsValid, Step, started, stored, brought_back, Reach, start, step, done, more,
}
use swtrust.Sessions.Replay.{restore_once, slots-IsValid}
use swtrust.Sessions.Refines.{Change, Step-Change}
use swtrust.Sessions.Handles.{first_of, allocate_handle_total}
use swtrust.Sessions.Progress.{Finds, flush_answers, session_starts, restore-save, load_new_gap}

abbrev handle : ℕ
handle = 0x0200_0000

abbrev asserted : PolicyState
asserted = record {
  digest = 7 ∷ 8 ∷ [];
  command_code = some 0x16c;
  cp_hash = none;
  name_hash = some (9 ∷ []);
  locality = some 4;
  pcr_update_counter = none;
  auth_value_needed = true;
  password_needed = false;
  nv_written = some false;
  template_hash = none;
  parameters_hash = none;
  physical_presence_required = false;
  secure_channel_required = false;
  secure_channel_key_hash = none;
  expiration = some 5000;
  timeout_nonce = [];
}

abbrev pub session : Session
session = record {
  handle = handle;
  session_type = Se.hmac;
  auth_hash = Alg.sha256;
  nonce_tpm = 1 ∷ 2 ∷ [];
  nonce_caller = 3 ∷ 4 ∷ [];
  session_key = 5 ∷ 6 ∷ [];
  bind = 0x4000_0007;
  bind_name = [];
  bind_uses_lockout = false;
  start_time = 0;
  time_epoch = 0;
  symmetric = SymDef_null;
  policy = asserted;
  audit = record { is_audit = false; digest = [] };
  attributes = 0;
}

abbrev fresh : SessionSlots
fresh = Slots.new

abbrev one : SessionSlots
one = insert_session fresh session

first_handle : allocate_handle fresh Se.hmac ≡ ok handle
unfolding allocate_handle Slots.new Slots.next_context_id Slots.first_free Slots.context_id_taken
    swtrust.Base.Maps.keys
first_handle = refl

load_one : load_new fresh session ≡ ok (handle, one)
unfolding load_new Slots.new Slots.next_context_id active Slots.check_gap at_context_gap
    Slots.oldest_active counters_exhausted
load_one = refl

-- The session put away under number one, and brought back under number two.
abbrev away : SessionSlots
away = put_away one handle 1

save-one : save one handle ≡ ok ((session, 1), away)
unfolding save Slots.new swtrust.Base.Maps.lookup swtrust.Base.Maps.insert Slots.next_context_id
save-one = refl

abbrev back : SessionSlots
back = restored away session

restore_one : restore away session 1 ≡ ok back
unfolding restore Slots.new Slots.next_context_id swtrust.Base.Maps.lookup swtrust.Base.Maps.insert
    swtrust.Base.Maps.remove
restore_one = refl

Step-one : Step fresh one
Step-one = started session handle first_handle load_one

Reach-away : Reach away
Reach-away = step (step start Step-one) (stored handle session 1 save-one)

Reach-back : Reach back
Reach-back = step Reach-away (brought_back session 1 restore_one)

save-back : save back handle ≡ ok ((session, 2), put_away back handle 2)
unfolding save Slots.new swtrust.Base.Maps.lookup swtrust.Base.Maps.insert swtrust.Base.Maps.remove
    Slots.next_context_id
save-back = refl

-- The first blob, once more, after a second one was saved.
restore_once_example :
    (restore (put_away back handle 2) session 1 ≡ err Rc.value)
    ⊎ (restore (put_away back handle 2) session 1 ≡ err Rc.handle)
unfolding Slots.new Slots.next_context_id
restore_once_example =
    restore_once away back (put_away back handle 2) session session 1 Reach-away (omega arith)
      restore_one (more done (stored handle session 2 save-back)) refl

slots-IsValid_example : IsValid back
slots-IsValid_example = slots-IsValid Reach-back

Step-Change_example : Change (status one) (status away) one.context_counter away.context_counter
Step-Change_example = Step-Change (step start Step-one) (stored handle session 1 save-one)

-- By a handle of the other range.
found_one : Finds one 0x0300_0000 (some handle)
unfolding contains index_of Slots.new Slots.next_context_id swtrust.Base.Maps.insert
    swtrust.Base.Maps.contains_key swtrust.Base.Maps.lookup
found_one = (refl, refl)

flush_answers_example : flush one 0x0300_0000 ≡ (ok handle, without one handle)
flush_answers_example = flush_answers one 0x0300_0000 (some handle) (step start Step-one) found_one

session_starts_example :
    (h : ℕ) × (s' : SessionSlots) × (allocate_handle one Se.policy ≡ ok h)
    × (load_new one (record session { handle = h }) ≡ ok (h, s'))
    × (status s' h ≡ loaded 2)
    × (get s' h ≡ ok (record session { handle = h }))
unfolding Slots.new Slots.next_context_id active at_context_gap counters_exhausted
    Slots.oldest_active swtrust.Base.Maps.insert
session_starts_example = session_starts one Se.policy session (omega arith) (omega arith) refl refl

restore-save_example :
    (t : SessionSlots) × (restore away session 1 ≡ ok t)
    × (get t handle ≡ ok session)
    × (status t handle ≡ loaded 2)
    × ((k : ℕ) → handle ≢ k → status t k ≡ status one k)
unfolding Slots.new Slots.next_context_id
restore-save_example = restore-save one away handle session 1 (step start Step-one) save-one

abbrev second : Session
second = record session { handle = 0x0300_0001 }

load_second : load_new one second ≡ ok (0x0300_0001, insert_session one second)
unfolding load_new Slots.new Slots.next_context_id active Slots.check_gap at_context_gap
    Slots.oldest_active counters_exhausted swtrust.Base.Maps.insert
load_second = refl

first_version : saved_version one handle ≡ some 1
unfolding saved_version Slots.new Slots.next_context_id swtrust.Base.Maps.insert
    swtrust.Base.Maps.lookup
first_version = refl

load_new_gap_example :
    (saved_version (insert_session one second) 0x0300_0001 ≡ some 2) × (2 ≤ 1 + 65535)
unfolding Slots.new Slots.next_context_id
load_new_gap_example =
    load_new_gap one (insert_session one second) second 0x0300_0001 handle 1 load_second
      first_version

allocate_handle_total_example :
    (h : ℕ) × (allocate_handle one Se.trial ≡ ok h)
    × (in_range (first_of Se.trial) h ≡ true)
    × ((k : ℕ) → contains one k ≡ true → index_of h ≢ index_of k)
unfolding Slots.new Slots.next_context_id active swtrust.Base.Maps.insert
allocate_handle_total_example = allocate_handle_total one Se.trial (omega arith)

asserted-IsStored : IsStored asserted
asserted-IsStored = record {
  digest = omega arith;
  command_code = omega arith;
  cp_hash = tt;
  name_hash = omega arith;
  pcr_update_counter = tt;
  template_hash = tt;
  parameters_hash = tt;
  secure_channel_key_hash = tt;
  expiration = omega arith;
  timeout_nonce = omega arith;
}

policy_round_trip_example : from_bytes unmarshal (to_bytes (marshal asserted)) ≡ ok asserted
policy_round_trip_example = policy_round_trip asserted asserted-IsStored
