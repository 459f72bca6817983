-- ===== src/Tests/Counters.antt =====
-- Commit values.
use swtrust.Base.{ℕ, ◌-◌, ◌≤◌, ◌<◌, ◌≡◌, refl, true, false, List, [], ◌∷◌, All, replicate, arith}
use swtrust.Constants.Alg
use swtrust.Error.{ok}
use swtrust.Crypto.Hash.{algorithm, digest_size, block_size, digest, new, update, finish}
use swtrust.Crypto.Hmac.{
  kdfa, kdfa_rounds, hmac_parts, hmac_new, hmac_update, hmac_update_all, hmac_finish, out_len_of,
  mask_first,
}
use swtrust.Commits.{
  Commits, take, next, derive, use_counter, full_counter, age, is_set, set_used, index, is_ready,
}
use swtrust.Commits.Slots.{AreSlots, replicate-AreSlots, set_used-AreSlots}
use swtrust.Commits.SingleUse.{
  Reach, started, took, redeemed, fresh, Distinct, single_use, full_counter_reached,
}
use swtrust.Commits.RoundTrip.{takes, use_counter-next}
use swtrust.Tests.Fixtures.{test_crypto}

abbrev nonce : List ℕ
nonce = replicate 32 9

abbrev name : List ℕ
name = 1 ∷ 2 ∷ 3 ∷ []

-- The first commit is outstanding.
abbrev one : Commits
one = record { random = nonce; count = 1; used = 1 ∷ replicate 15 0 }

-- It was used.
abbrev none_left : Commits
none_left = record { random = nonce; count = 1; used = replicate 16 0 }

abbrev value : List ℕ
value = replicate 32 96

one-Reach : Reach test_crypto nonce 1 one []
unfolding take set_used index
one-Reach = took 0 started

one-full : full_counter one 0 ≡ ok 0
unfolding full_counter age is_set index
one-full = refl

one-use : use_counter test_crypto one Alg.sha256 name 0 256 ≡ ok (value, none_left)
unfolding use_counter full_counter age is_set index derive is_ready kdfa out_len_of digest_size
    algorithm kdfa_rounds hmac_parts hmac_new block_size digest new update finish hmac_update
    hmac_update_all hmac_finish mask_first set_used
one-use = refl

one-Slots : AreSlots one.used
unfolding take set_used index
one-Slots = set_used-AreSlots (replicate 16 0) 0 true replicate-AreSlots

single_use_example : Distinct (0 ∷ []) × All (λ f. f < 1) (0 ∷ [])
single_use_example =
    single_use (redeemed Alg.sha256 name 0 256 0 value one-Reach (omega arith) one-full one-use)
      (omega arith)

full_counter_reached_example : (age one 0 ≤ 1) × (full_counter one 0 ≡ ok (1 - age one 0))
unfolding age is_set index
full_counter_reached_example =
    full_counter_reached 0 one-Reach (omega arith) (omega arith) (omega arith) (omega arith) refl

first-next : next test_crypto (fresh nonce) Alg.sha256 name 256 ≡ ok (value, 0)
unfolding next derive is_ready kdfa out_len_of digest_size algorithm kdfa_rounds hmac_parts hmac_new
    block_size digest new update finish hmac_update hmac_update_all hmac_finish mask_first
first-next = refl

use_counter-next_example :
    use_counter test_crypto (takes 5 (take (fresh nonce) 0)) Alg.sha256 name 0 256
    ≡ ok (
      value,
      record (takes 5 (take (fresh nonce) 0)) {
        used = set_used (takes 5 (take (fresh nonce) 0)).used 0 false;
      },
    )
use_counter-next_example =
    use_counter-next test_crypto (fresh nonce) Alg.sha256 name 256 5 value 0 replicate-AreSlots
      (omega arith) (omega arith) first-next
