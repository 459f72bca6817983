-- ===== src/Hierarchies/Changes.antt =====
-- The methods of `Hierarchy` and `Hierarchies` that change them, src/tpm/core/hierarchy.rs. An error
-- of the generator ends a method; what was changed before it stays changed.
use swtrust.Base.{ℕ, Bool, true, List, [], if◌then◌else◌}
use swtrust.Constants.Config
use swtrust.Error.{TpmResult, ok, err}
use swtrust.Crypto.Rand.{Rng}
use swtrust.Structures.Base.{TpmtHa_null}
use swtrust.Hierarchies.State.{Hierarchy, Hierarchies}

unfoldable pub clear_authorization : Hierarchy → Hierarchy
clear_authorization h = record h { auth = []; policy = TpmtHa_null }

abbrev pub with_enabled : Bool → Hierarchy → Hierarchy
with_enabled on h = record h { enabled = on }

module _ (rng : Rng) where
  open rng use {State, bytes}

  -- A result, what the method leaves, and the generator that it leaves.
  abbrev pub Changed : Type 0 → Type 0
  Changed A = TpmResult (Unit {0}) × A × State

  abbrev pub draw : State → TpmResult (List ℕ) × State
  draw s = bytes s Config.primary_seed_size

  abbrev pub put_proof : Hierarchy → TpmResult (List ℕ) × State → Changed Hierarchy
  put_proof h (err e, s) = (err e, h, s)
  put_proof h (ok proof, s) = (ok tt, record h { proof = proof }, s)

  unfoldable pub regenerate_proof : Hierarchy → State → Changed Hierarchy
  regenerate_proof h s = put_proof h (draw s)

  abbrev pub put_seed : Hierarchy → TpmResult (List ℕ) × State → Changed Hierarchy
  put_seed h (err e, s) = (err e, h, s)
  put_seed h (ok seed, s) = put_proof (record h { seed = seed }) (draw s)

  unfoldable pub regenerate : Hierarchy → State → Changed Hierarchy
  regenerate h s = put_seed h (draw s)

  -- A hierarchy with a fresh seed and a fresh proof.
  abbrev made : List ℕ → TpmResult (List ℕ) × State → TpmResult Hierarchy × State
  made seed (err e, s) = (err e, s)
  made seed (ok proof, s) = (
    ok (record { seed = seed; proof = proof; auth = []; policy = TpmtHa_null; enabled = true }),
    s,
  )

  abbrev made_from : TpmResult (List ℕ) × State → TpmResult Hierarchy × State
  made_from (err e, s) = (err e, s)
  made_from (ok seed, s) = made seed (draw s)

  unfoldable pub new_hierarchy : State → TpmResult Hierarchy × State
  new_hierarchy s = made_from (draw s)

  -- The end of `on_reset`: everything is enabled, and the platform's authorization is gone.
  abbrev pub enabled_all : Hierarchies → Hierarchies
  enabled_all hs = record hs {
    platform = clear_authorization (with_enabled true hs.platform);
    owner = with_enabled true hs.owner;
    endorsement = with_enabled true hs.endorsement;
    platform_nv_enabled = true;
  }

  abbrev pub reset_null : Hierarchies → Changed Hierarchy → Changed Hierarchies
  reset_null hs (err e, null, s) = (err e, record hs { null = null }, s)
  reset_null hs (ok u, null, s) =
      (ok tt, enabled_all (record hs { null = clear_authorization null }), s)

  unfoldable pub on_reset : Bool → Hierarchies → State → Changed Hierarchies
  on_reset full_reset hs s =
      if full_reset then reset_null hs (regenerate hs.null s) else (ok tt, enabled_all hs, s)

  abbrev pub clear_endorsement : Hierarchies → Changed Hierarchy → Changed Hierarchies
  clear_endorsement hs (err e, h, s) = (err e, record hs { endorsement = h }, s)
  clear_endorsement hs (ok u, h, s) = (
    ok tt,
    record hs {
      owner = with_enabled true hs.owner;
      endorsement = with_enabled true (clear_authorization h);
    },
    s,
  )

  abbrev pub clear_owner : Hierarchies → Changed Hierarchy → Changed Hierarchies
  clear_owner hs (err e, h, s) = (err e, record hs { owner = h }, s)
  clear_owner hs (ok u, h, s) =
      clear_endorsement (record hs { owner = clear_authorization h })
        (regenerate_proof hs.endorsement s)

  unfoldable pub on_clear : Hierarchies → State → Changed Hierarchies
  on_clear hs s = clear_owner hs (regenerate hs.owner s)
