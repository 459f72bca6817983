-- ===== src/Crypto/Rand.antt =====
-- The trait `Rng` of src/tpm/crypto/rand.rs: an interface that the clients take as an argument.
use swtrust.Base.{ℕ, ◌≡◌, List, length}
use swtrust.Error.{TpmResult, ok}

-- `bytes` gives as many octets as it is asked for, or an error, and moves the generator on.
pub record Rng : Type 1 where
  pub State : Type 0
  pub bytes : State → ℕ → TpmResult (List ℕ) × State
  pub length-bytes : (s : State) (n : ℕ) (b : List ℕ) → (bytes s n).0 ≡ ok b → length b ≡ n
