-- ===== src/Tests/Policies.antt =====
-- Policy assertions, keys of sessions, and the command table.
use swtrust.Base.{
  ℕ, ◌≡◌, ◌↔◌, ◌⊎◌, ◌≤◌, ◌%◌, ◌^◌, refl, true, false, none, some, List, [], ◌∷◌, arith, length,
  replicate, not, ltb, leb, ◌==◌,
}
use swtrust.Constants.Alg
use swtrust.Constants.Eo
use swtrust.Marshal.Bytes.{from_be_bytes}
use swtrust.Commands.Policy.Authorizations.{compare}
use swtrust.Commands.Policy.Orders.{compare_numbers}
use swtrust.Constants.Cc
use swtrust.Constants.Se
use swtrust.Error.{ok}
use swtrust.Crypto.Hash
use swtrust.Sessions.Session
use swtrust.Commands.Policy.Steps
use swtrust.Commands.Policy.Assertions
use swtrust.Crypto.Hash.{IsSupported}
use swtrust.Sessions.Session.{
  is_trial, derive_session_key, hmac_key, session_value, bind_id, auth_hmac_accepted,
  parameter_encryption_key,
}
use swtrust.Sessions.Keys.{hmac_key_padding, auth_hmac_accepted_iff, parameter_encryption_key_total}
use swtrust.Commands.Table.{CommandInfo, lookup, attributes, command_index, handles_of}
use swtrust.Commands.Shape.{lookup_shape}
use swtrust.Structures.Attributes.{has}
use swtrust.Commands.Policy.Plans.{asserted, Assertion, locality, command_code, auth_value}
use swtrust.Commands.Policy.Trials.{assert_all, trial_computes}
use swtrust.Commands.Policy.Restricted.{Restricts, IsExclusive}
use swtrust.Commands.Policy.Restrictions.{restrictions_stay}
use swtrust.Tests.Fixtures.{test_crypto, sha256-IsSupported}
use swtrust.Tests.Sessions.{session}

abbrev pub real : Session.Session
real = record session {
  session_type = Se.policy;
  policy = record (session.policy) {
    digest = replicate 32 0;
    locality = none;
    command_code = none;
  };
}

abbrev trial : Session.Session
trial = record real { session_type = Se.trial }

trial_is_one : is_trial trial ≡ true
unfolding is_trial
trial_is_one = refl

abbrev policy_list : List Assertion
policy_list = locality 3 ∷ command_code true Cc.sign ∷ auth_value ∷ []

real_is_none : is_trial real ≡ false
unfolding is_trial
real_is_none = refl

list_accepted : (assert_all test_crypto policy_list real).0 ≡ ok tt
unfolding asserted Steps.policy_locality Session.extend_policy Hash.digest_parts Hash.new
    Hash.algorithm Steps.policy_command_code is_trial Session.set_policy_digest
    Assertions.policy_auth_value
list_accepted = refl

trial_computes_example :
    ((assert_all test_crypto policy_list trial).0 ≡ ok tt)
    × ((assert_all test_crypto policy_list trial).1.policy.digest
        ≡ (assert_all test_crypto policy_list real).1.policy.digest)
trial_computes_example =
    trial_computes test_crypto real trial policy_list sha256-IsSupported real_is_none trial_is_one
      refl refl (tt, (tt, (tt, tt))) list_accepted

real-IsExclusive : IsExclusive real
real-IsExclusive = record { slot = omega arith; proof = refl }

restrictions_stay_example :
    Restricts real.policy (assert_all test_crypto policy_list real).1.policy
    × IsExclusive (assert_all test_crypto policy_list real).1
restrictions_stay_example =
    restrictions_stay test_crypto real policy_list sha256-IsSupported real_is_none real-IsExclusive

abbrev expected_mac : List ℕ
expected_mac = 1 ∷ 2 ∷ []

abbrev no_octets : List ℕ
no_octets = []

abbrev short : List ℕ
short = 1 ∷ []

hmac_key_padding_example :
    (hmac_key session [] (1 ∷ 0 ∷ []) ≡ hmac_key session [] (1 ∷ []))
    × (session_value session (1 ∷ 0 ∷ []) ≡ session_value session (1 ∷ []))
    × (bind_id [] (1 ∷ 0 ∷ []) ≡ bind_id [] (1 ∷ []))
    × (derive_session_key test_crypto Alg.sha256 false (1 ∷ 0 ∷ []) (5 ∷ []) [] []
        ≡ derive_session_key test_crypto Alg.sha256 false (1 ∷ []) (5 ∷ []) [] [])
    × (parameter_encryption_key test_crypto Alg.sha256 (6 ∷ []) (1 ∷ 0 ∷ []) [] [] 128 16
        ≡ parameter_encryption_key test_crypto Alg.sha256 (6 ∷ []) (1 ∷ []) [] [] 128 16)
hmac_key_padding_example =
    hmac_key_padding test_crypto Alg.sha256 session [] (1 ∷ []) 1 false (5 ∷ []) (6 ∷ []) [] [] 128
      16

auth_hmac_accepted_iff_example :
    (auth_hmac_accepted [] (1 ∷ 2 ∷ []) [] ≡ true)
    ↔ ((no_octets ≡ []) × (no_octets ≡ []) ⊎ (expected_mac ≡ []))
auth_hmac_accepted_iff_example = auth_hmac_accepted_iff [] (1 ∷ 2 ∷ []) []

parameter_encryption_key_total_example :
    (key : List ℕ) × (iv : List ℕ) × (parameter_encryption_key test_crypto Alg.sha256
        (5 ∷ [])
        []
        (1 ∷ [])
        (2 ∷ [])
        128
        16
      ≡ ok (key, iv))
    × (length key ≡ 16)
    × (length iv ≡ 16)
parameter_encryption_key_total_example =
    parameter_encryption_key_total test_crypto Alg.sha256 (5 ∷ []) [] (1 ∷ []) (2 ∷ []) 128 16
      sha256-IsSupported refl (omega arith)

abbrev create_loaded : CommandInfo
create_loaded = record {
  code = Cc.create_loaded;
  handles = 1;
  auth_handles = 1;
  nv = false;
  extensive = false;
  flushed = false;
  response_handle = true;
}

create_loaded_listed : lookup Cc.create_loaded ≡ some create_loaded
unfolding lookup swtrust.Commands.Table.commands
create_loaded_listed = refl

lookup_shape_example :
    (Cc.create_loaded ≡ Cc.create_loaded)
    × (1 ≤ 1)
    × (1 ≤ 3)
    × (command_index (attributes create_loaded) ≡ Cc.create_loaded % 2 ^ 16)
    × (handles_of (attributes create_loaded) ≡ 1)
    × (has (attributes create_loaded) 22 ≡ false)
    × (has (attributes create_loaded) 23 ≡ false)
    × (has (attributes create_loaded) 24 ≡ false)
    × (has (attributes create_loaded) 28 ≡ true)
lookup_shape_example = lookup_shape Cc.create_loaded create_loaded create_loaded_listed

-- -1 and 1 as octets.
abbrev minus_one : List ℕ
minus_one = 255 ∷ []

abbrev plus_one : List ℕ
plus_one = 1 ∷ []

compare_numbers_example :
    (compare minus_one plus_one Eo.eq ≡ some (from_be_bytes minus_one == from_be_bytes plus_one))
    × (compare minus_one plus_one Eo.neq
        ≡ some (not (from_be_bytes minus_one == from_be_bytes plus_one)))
    × (compare minus_one plus_one Eo.unsigned_lt
        ≡ some (ltb (from_be_bytes minus_one) (from_be_bytes plus_one)))
    × (compare minus_one plus_one Eo.unsigned_gt
        ≡ some (ltb (from_be_bytes plus_one) (from_be_bytes minus_one)))
    × (compare minus_one plus_one Eo.unsigned_le
        ≡ some (leb (from_be_bytes minus_one) (from_be_bytes plus_one)))
    × (compare minus_one plus_one Eo.unsigned_ge
        ≡ some (leb (from_be_bytes plus_one) (from_be_bytes minus_one)))
    × (compare minus_one plus_one Eo.signed_lt
        ≡ some (ltb (from_be_bytes (127 ∷ [])) (from_be_bytes (129 ∷ []))))
    × (compare minus_one plus_one Eo.signed_gt
        ≡ some (ltb (from_be_bytes (129 ∷ [])) (from_be_bytes (127 ∷ []))))
    × (compare minus_one plus_one Eo.signed_le
        ≡ some (leb (from_be_bytes (127 ∷ [])) (from_be_bytes (129 ∷ []))))
    × (compare minus_one plus_one Eo.signed_ge
        ≡ some (leb (from_be_bytes (129 ∷ [])) (from_be_bytes (127 ∷ []))))
compare_numbers_example =
    compare_numbers minus_one plus_one (omega arith, tt) (omega arith, tt) refl
