-- ===== src/Commits.antt =====
-- Commit values for split ECC operations, src/tpm/core/commit.rs: the nonce, the counter and the
-- array of outstanding counters, and the operations of `impl Commits`.
pub mod Slots
pub mod Window
pub mod SingleUse
pub mod RoundTrip
use swtrust.Base.{
  ℕ, zero, suc, ◌+◌, ◌-◌, ◌*◌, ◌/◌, ◌%◌, ◌^◌, ◌≡◌, Bool, true, false, not, ◌&&◌, ◌||◌, Option, none,
  some, List, [], ◌∷◌, ◌++◌, ◌==◌, ltb, leb, if◌then◌else◌, length, get_elem?, set, replicate,
  bit_and, bit_or,
}
use swtrust.Base.Bits.{complement}
use swtrust.Constants.Rc
use swtrust.Constants.Config
use swtrust.Error.{TpmResult, ok, err, ◌>>=◌, ◌>>◌, refuse_if}
use swtrust.Marshal.Bytes.{to_be_bytes}
use swtrust.Crypto.Hash.{Crypto}
use swtrust.Crypto.Hmac.{kdfa}
use swtrust.Crypto.Rand.{Rng}

pub record Commits : Type 0 where
  pub random : List ℕ
  pub count : ℕ  -- u64
  pub used : List ℕ  -- octets

unfoldable pub new : Commits
new = record { random = []; count = 0; used = [] }

module _ (rng : Rng) where
  open rng use {State, bytes}

  -- An error of the generator leaves the commits as they were.
  unfoldable pub reset : Commits → State → TpmResult (Unit {0}) × Commits × State
  reset c s =
      let (drawn, s') = bytes s Config.commit_nonce_bytes in
      elim drawn [
        | ok nonce ↦ (
          ok tt,
          record {
            random = nonce;
            count = 0;
            used = replicate (Config.max_commit_sequences / 8) 0;
          },
          s',
        )
        | err e ↦ (err e, c, s')
      ]

abbrev pub is_nil : List ℕ → Bool
is_nil [] = true
is_nil (x ∷ xs) = false

unfoldable pub is_ready : Commits → Bool
is_ready c = not (is_nil c.random) && not (is_nil c.used)

-- `counter as usize & (MAX_COMMIT_SEQUENCES - 1)`; a `usize` has 64 bits.
unfoldable pub index : ℕ → ℕ
index counter = bit_and counter (Config.max_commit_sequences - 1)

-- `b & (1 << k) != 0`, where there is an octet.
abbrev pub octet_bit : Option ℕ → ℕ → Bool
octet_bit none k = false
octet_bit (some b) k = not (bit_and b (2 ^ k) == 0)

-- `b |= 1 << k` and `b &= !(1 << k)`; an octet has 8 bits, so `!` is the complement on 8.
abbrev pub put_bit : ℕ → ℕ → Bool → ℕ
put_bit b k on = if on then bit_or b (2 ^ k) else bit_and b (complement 8 (2 ^ k))

abbrev pub put_octet : List ℕ → ℕ → Option ℕ → ℕ → Bool → List ℕ
put_octet used at none k on = used
put_octet used at (some b) k on = set used at (put_bit b k on)

unfoldable pub is_set : List ℕ → ℕ → Bool
is_set used counter = let i = index counter in octet_bit (get_elem? used (i / 8)) (i % 8)

-- `set(counter, on)`
unfoldable pub set_used : List ℕ → ℕ → Bool → List ℕ
set_used used counter on =
    let i = index counter in put_octet used (i / 8) (get_elem? used (i / 8)) (i % 8) on

-- The label "ECDAA Commit".
abbrev pub label : List ℕ
label = 69 ∷ 67 ∷ 68 ∷ 65 ∷ 65 ∷ 32 ∷ 67 ∷ 111 ∷ 109 ∷ 109 ∷ 105 ∷ 116 ∷ []

-- Equation 60.
unfoldable pub derive : Crypto → Commits → ℕ → List ℕ → ℕ → ℕ → TpmResult (List ℕ)
derive crypto c name_alg name counter bits = do
  refuse_if (not (is_ready c)) Rc.no_result
  kdfa crypto name_alg c.random label name (to_be_bytes 8 counter) bits

-- `self.count as u16` is the count modulo `2 ^ 16`.
unfoldable pub next : Crypto → Commits → ℕ → List ℕ → ℕ → TpmResult (List ℕ × ℕ)
next crypto c name_alg name bits = do
  refuse_if (not (is_ready c)) Rc.no_result
  r ← derive crypto c name_alg name c.count bits
  ok (r, c.count % 2 ^ 16)

-- `wrapping_add` on a `u64`. The argument only serves a debug assertion.
unfoldable pub take : Commits → ℕ → Commits
take c counter = record c { used = set_used c.used c.count true; count = (c.count + 1) % 2 ^ 64 }

-- `t.wrapping_sub(counter)` on `u16`.
unfoldable pub age : Commits → ℕ → ℕ
age c counter = (c.count % 2 ^ 16 + 2 ^ 16 - counter) % 2 ^ 16

unfoldable pub full_counter : Commits → ℕ → TpmResult ℕ
full_counter c counter = do
  let back = age c counter
  refuse_if (back == 0 || leb Config.max_commit_sequences back) Rc.range
  refuse_if (not (is_set c.used counter)) Rc.value
  if ltb c.count back then err Rc.value else ok (c.count - back)

-- On an error the commits are as they were.
unfoldable pub use_counter : Crypto → Commits → ℕ → List ℕ → ℕ → ℕ → TpmResult (List ℕ × Commits)
use_counter crypto c name_alg name counter bits = do
  full ← full_counter c counter
  r ← derive crypto c name_alg name full bits
  ok (r, record c { used = set_used c.used full false })

-- What the state file carries.
unfoldable pub parts : Commits → List ℕ × ℕ × List ℕ
parts c = (c.random, c.count, c.used)

-- What `parts` reported is put back; nothing of the commits before stays.
unfoldable pub restore : Commits → List ℕ → ℕ → List ℕ → Commits
restore c random count used = record c { random = random; count = count; used = used }

unfoldable pub peek : Crypto → Commits → ℕ → List ℕ → ℕ → ℕ → TpmResult (List ℕ)
peek crypto c name_alg name counter bits = do
  full ← full_counter c counter
  derive crypto c name_alg name full bits
