-- ===== src/Tests/Seeds.antt =====
-- Hierarchies.
use swtrust.Base.{
  ℕ, ◌+◌, ◌%◌, ◌≡◌, refl, sym, ap, ◌∙◌, true, List, [], ◌∷◌, length, replicate, length-replicate,
}
use swtrust.Constants.Handles
use swtrust.Error.{TpmResult, ok}
use swtrust.Crypto.Rand.{Rng}
use swtrust.Structures.Base.{TpmtHa_null}
use swtrust.Hierarchies.State.{Hierarchy, Hierarchies, seed_of, proof_of}
use swtrust.Hierarchies.Changes.{on_clear, regenerate, regenerate_proof}
use swtrust.Hierarchies.Seeds.{error_of, refusal, seed_answers}
use swtrust.Hierarchies.Cleared.{Renewed, on_clear_renews}
use swtrust.Tests.Fixtures.{test_crypto}

abbrev counting : ℕ → ℕ → TpmResult (List ℕ) × ℕ
counting s n = (ok (replicate n (s % 256)), s + 1)

length-counting : (s n : ℕ) (b : List ℕ) → (counting s n).0 ≡ ok b → length b ≡ n
length-counting s n b e =
    let same : replicate n (s % 256) ≡ b = cc e in
    ap length (sym same) ∙ length-replicate n (s % 256)

abbrev test_rng : Rng
test_rng = record { State = ℕ; bytes = counting; length-bytes = length-counting }

abbrev hierarchy : ℕ → Hierarchy
hierarchy k = record {
  seed = replicate 32 k;
  proof = replicate 32 (k + 1);
  auth = k ∷ [];
  policy = TpmtHa_null;
  enabled = true;
}

abbrev hierarchies : Hierarchies
hierarchies = record {
  platform = hierarchy 1;
  owner = hierarchy 3;
  endorsement = hierarchy 5;
  null = hierarchy 7;
  platform_nv_enabled = true;
  bootloader_secret = replicate 32 9;
  firmware_code = [];
}

seed_answers_example :
    (error_of (seed_of test_crypto Handles.fw_owner hierarchies) ≡ refusal Handles.fw_owner)
    × (error_of (proof_of test_crypto Handles.fw_owner hierarchies) ≡ refusal Handles.fw_owner)
seed_answers_example = seed_answers test_crypto Handles.fw_owner hierarchies

cleared : (on_clear test_rng hierarchies 0).0 ≡ ok tt
unfolding on_clear regenerate regenerate_proof
cleared = refl

on_clear_renews_example :
    (seed : List ℕ) × (s1 : ℕ) × (counting 0 32 ≡ (ok seed, s1))
    × (length seed ≡ 32)
    × (proof : List ℕ) × (s2 : ℕ) × (counting s1 32 ≡ (ok proof, s2))
    × Renewed proof (on_clear test_rng hierarchies 0).1.owner
    × ((on_clear test_rng hierarchies 0).1.owner.seed ≡ seed)
    × (endorsed : List ℕ) × (counting s2 32 ≡ (ok endorsed, (on_clear test_rng hierarchies 0).2))
    × Renewed endorsed (on_clear test_rng hierarchies 0).1.endorsement
on_clear_renews_example = on_clear_renews test_rng hierarchies 0 cleared
