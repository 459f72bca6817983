-- ===== src/Crypto/Hash.antt =====
-- Hash algorithms, src/tpm/crypto/hash.rs. The digests are those of aws-lc-rs, a parameter.
use swtrust.Base.{
  ℕ, ◌≤◌, ◌≡◌, Bool, List, [], ◌∷◌, ◌++◌, ◌&&◌, ◌||◌, ◌==◌, if◌then◌else◌, length, arith,
}
use swtrust.Constants.Rc
use swtrust.Constants.Alg
use swtrust.Error.{TpmResult, ok, err, ◌>>=◌}

-- `Algorithm::output_len` of aws-lc-rs, for the algorithms that `algorithm` maps.
abbrev pub output_len : ℕ → ℕ
output_len a =
    if a == Alg.sha1
    then 20
    else if a == Alg.sha256 || a == Alg.sha3_256
    then 32
    else if a == Alg.sha384 || a == Alg.sha3_384
    then 48
    else 64

-- What this code takes from outside: the profile in force (`profile::is_strict()`), and the
-- digests, whose documented length is that of their algorithm.
pub record Crypto : Type 0 where
  pub strict : Bool
  pub sha : ℕ → List ℕ → List ℕ
  pub length-sha : (a : ℕ) (b : List ℕ) → length (sha a b) ≡ output_len a

abbrev pub is_sha : ℕ → Bool
is_sha a =
    a == Alg.sha1
    || a == Alg.sha256
    || a == Alg.sha384
    || a == Alg.sha512
    || a == Alg.sha3_256
    || a == Alg.sha3_384
    || a == Alg.sha3_512

-- An algorithm of aws-lc-rs is named by its TPM_ALG_ID.
unfoldable pub algorithm : Crypto → ℕ → TpmResult ℕ
algorithm c a =
    if a == Alg.sha1 && c.strict then err Rc.hash else if is_sha a then ok a else err Rc.hash

unfoldable pub digest_size : Crypto → ℕ → TpmResult ℕ
digest_size c a = do alg ← algorithm c a; ok (output_len alg)

unfoldable pub block_size : Crypto → ℕ → TpmResult ℕ
block_size c a =
    if a == Alg.sha1 && c.strict
    then err Rc.hash
    else if a == Alg.sha1 || a == Alg.sha256
    then ok 64
    else if a == Alg.sha384 || a == Alg.sha512
    then ok 128
    else if a == Alg.sha3_256
    then ok 136
    else if a == Alg.sha3_384
    then ok 104
    else if a == Alg.sha3_512
    then ok 72
    else err Rc.hash

unfoldable pub digest : Crypto → ℕ → List ℕ → TpmResult (List ℕ)
digest c a b = do alg ← algorithm c a; ok (c.sha alg b)

-- An incremental hash: the context of aws-lc-rs stands for the octets that it has absorbed.
pub record Hasher : Type 0 where
  pub hash_alg : ℕ
  pub absorbed : List ℕ

unfoldable pub new : Crypto → ℕ → TpmResult Hasher
new c a = do alg ← algorithm c a; ok (record { hash_alg = alg; absorbed = [] })

unfoldable pub update : Hasher → List ℕ → Hasher
update h b = record h { absorbed = h.absorbed ++ b }

unfoldable pub finish : Crypto → Hasher → List ℕ
finish c h = c.sha h.hash_alg h.absorbed

unfoldable pub update_all : Hasher → List (List ℕ) → Hasher
update_all h [] = h
update_all h (p ∷ ps) = update_all (update h p) ps

unfoldable pub digest_parts : Crypto → ℕ → List (List ℕ) → TpmResult (List ℕ)
digest_parts c a parts = do h ← new c a; ok (finish c (update_all h parts))

-- An algorithm that is implemented under the profile in force.
abbrev pub IsSupported : Crypto → ℕ → Type 0
IsSupported c a = algorithm c a ≡ ok a

pub output_len_pos : (a : ℕ) → 20 ≤ output_len a
output_len_pos a = ground arith
