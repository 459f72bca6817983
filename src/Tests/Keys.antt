-- ===== src/Tests/Keys.antt =====
-- HMAC and KDFa.
use swtrust.Base.{ℕ, ◌+◌, ◌/◌, ◌%◌, ◌^◌, ◌<◌, ◌≡◌, ◌⊎◌, List, [], ◌∷◌, length, get_or, arith}
use swtrust.Constants.Alg
use swtrust.Error.{ok}
use swtrust.Crypto.Hmac.{kdfa}
use swtrust.Crypto.Hmac.Laws.{kdfa_total}
use swtrust.Tests.Fixtures.{test_crypto, sha256-IsSupported}

abbrev key : List ℕ
key = 1 ∷ 2 ∷ 3 ∷ []

-- A length that is no multiple of 8.
kdfa_total_example :
    (out : List ℕ) × (kdfa test_crypto Alg.sha256 key (68 ∷ []) (4 ∷ []) [] 521 ≡ ok out)
    × (length out ≡ (521 + 7) / 8)
    × ((521 % 8 ≡ 0) ⊎ (get_or out 0 0 < 2 ^ (521 % 8)))
kdfa_total_example =
    kdfa_total test_crypto Alg.sha256 key (68 ∷ []) (4 ∷ []) [] 521 sha256-IsSupported (omega arith)
