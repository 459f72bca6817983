-- ===== src/Tests/Fixtures.antt =====
-- A cryptographic library for tests: a digest whose octets are the length of what it was taken of.
use swtrust.Base.{ℕ, ◌%◌, ◌≡◌, refl, false, List, length, replicate, length-replicate}
use swtrust.Constants.Alg
use swtrust.Crypto.Hash.{Crypto, output_len, algorithm, IsSupported}

abbrev pub lengths : ℕ → List ℕ → List ℕ
lengths a b = replicate (output_len a) (length b % 256)

pub length-lengths : (a : ℕ) (b : List ℕ) → length (lengths a b) ≡ output_len a
length-lengths a b = length-replicate (output_len a) (length b % 256)

abbrev pub test_crypto : Crypto
test_crypto = record { strict = false; sha = lengths; length-sha = length-lengths }

pub sha256-IsSupported : IsSupported test_crypto Alg.sha256
unfolding algorithm
sha256-IsSupported = refl
