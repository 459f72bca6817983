-- ===== src/Hierarchies/Cleared.antt =====
-- What a clear and a reset leave of the hierarchies. src/tpm/core/hierarchy.rs.
use swtrust.Base.{ℕ, ◌≡◌, refl, sym, ap, subst, true, List, [], length}
use swtrust.Constants.Config
use swtrust.Error.{TpmResult, ok, err}
use swtrust.Crypto.Rand.{Rng}
use swtrust.Structures.Base.{TpmtHa_null}
use swtrust.Hierarchies.State.{Hierarchy, Hierarchies}
use swtrust.Hierarchies.Changes.{
  Changed, clear_authorization, with_enabled, regenerate_proof, regenerate, on_clear, clear_owner,
  clear_endorsement, put_proof, put_seed, draw,
}

-- What a clear leaves of a hierarchy: no authorization, enabled, and the proof that was drawn.
pub record Renewed (drawn : List ℕ) (h : Hierarchy) : Type 0 where
  auth : h.auth ≡ []
  policy : h.policy ≡ TpmtHa_null
  enabled : h.enabled ≡ true
  proof : h.proof ≡ drawn
  size : length h.proof ≡ Config.primary_seed_size

-- What `on_clear` keeps, whatever it answers.
record Kept (a b : Hierarchies) : Type 0 where
  platform : b.platform ≡ a.platform
  null : b.null ≡ a.null
  nv : b.platform_nv_enabled ≡ a.platform_nv_enabled
  secret : b.bootloader_secret ≡ a.bootloader_secret
  seed : b.endorsement.seed ≡ a.endorsement.seed

module _ (rng : Rng) where
  open rng use {State, bytes, length-bytes}

  -- The endorsement hierarchy of a clear that gets so far.
  endorsed-Kept :
      (a hs : Hierarchies) (p : TpmResult (List ℕ) × State)
      → Kept a hs
      → Kept a (clear_endorsement rng hs (put_proof rng hs.endorsement p)).1
  unfolding clear_authorization
  endorsed-Kept a hs (err e, s) k = record {
    platform = k.platform;
    null = k.null;
    nv = k.nv;
    secret = k.secret;
    seed = k.seed;
  }
  endorsed-Kept a hs (ok b, s) k = record {
    platform = k.platform;
    null = k.null;
    nv = k.nv;
    secret = k.secret;
    seed = k.seed;
  }

  owned-Kept : (hs : Hierarchies) (o : Changed rng Hierarchy) → Kept hs (clear_owner rng hs o).1
  unfolding regenerate_proof
  owned-Kept hs (err e, h, s) = record {
    platform = refl;
    null = refl;
    nv = refl;
    secret = refl;
    seed = refl;
  }
  owned-Kept hs (ok u, h, s) =
      endorsed-Kept hs (record hs { owner = clear_authorization h }) (draw rng s)
        (record { platform = refl; null = refl; nv = refl; secret = refl; seed = refl })

  -- A clear, refused or not, keeps the platform and null hierarchies, the NV switch, the bootloader's
  -- secret and the endorsement seed, so that the endorsement keys come back after it.
  pub on_clear_keeps :
      (hs : Hierarchies) (s : State)
      → let hs' = (on_clear rng hs s).1 in
        (hs'.platform ≡ hs.platform)
        × (hs'.null ≡ hs.null)
        × (hs'.platform_nv_enabled ≡ hs.platform_nv_enabled)
        × (hs'.bootloader_secret ≡ hs.bootloader_secret)
        × (hs'.endorsement.seed ≡ hs.endorsement.seed)
  unfolding on_clear
  on_clear_keeps hs s =
      let k = owned-Kept hs (regenerate rng hs.owner s) in
      (k.platform, k.null, k.nv, k.secret, k.seed)

  size_of : (s s' : State) (b : List ℕ) → draw rng s ≡ (ok b, s') → length b ≡ 32
  size_of s s' b e = length-bytes s Config.primary_seed_size b (ap (λ p. p.0) e)

  -- The last draw is the endorsement proof.
  abbrev IsEndorsed : State → Changed rng Hierarchies → Type 0
  IsEndorsed s o =
      (endorsed : List ℕ) × (bytes s 32 ≡ (ok endorsed, o.2)) × Renewed endorsed o.1.endorsement

  -- Before it the owner proof is drawn.
  abbrev IsProved : List ℕ → State → Changed rng Hierarchies → Type 0
  IsProved seed s o =
      (proof : List ℕ) × (s' : State) × (bytes s 32 ≡ (ok proof, s'))
      × Renewed proof o.1.owner
      × (o.1.owner.seed ≡ seed)
      × IsEndorsed s' o

  clear_endorsement-IsEndorsed :
      (hs : Hierarchies) (s : State) (p : TpmResult (List ℕ) × State)
      → draw rng s ≡ p
      → let o = clear_endorsement rng hs (put_proof rng hs.endorsement p) in
        o.0 ≡ ok tt → (o.1.owner ≡ with_enabled true hs.owner) × IsEndorsed s o
  unfolding clear_authorization
  clear_endorsement-IsEndorsed hs s (err e, s') d q = cc q
  clear_endorsement-IsEndorsed hs s (ok b, s') d q = (
    refl,
    (
      b,
      d,
      record { auth = refl; policy = refl; enabled = refl; proof = refl; size = size_of s s' b d },
    ),
  )

  clear_owner-IsProved :
      (hs : Hierarchies) (h : Hierarchy) (s : State) (p : TpmResult (List ℕ) × State)
      → draw rng s ≡ p
      → (clear_owner rng hs (put_proof rng h p)).0 ≡ ok tt
      → IsProved h.seed s (clear_owner rng hs (put_proof rng h p))
  unfolding regenerate_proof clear_authorization
  clear_owner-IsProved hs h s (err e, s') d q = cc q
  clear_owner-IsProved hs h s (ok b, s') d q =
      let (o, rest) =
        clear_endorsement-IsEndorsed
          (record hs { owner = clear_authorization (record h { proof = b }) }) s' (draw rng s') refl
          q in
      (
        b,
        s',
        d,
        subst (Renewed b) (sym o) (record {
          auth = refl;
          policy = refl;
          enabled = refl;
          proof = refl;
          size = size_of s s' b d;
        }),
        ap (λ (x : Hierarchy). x.seed) o,
        rest,
      )

  seeded-Renewed :
      (hs : Hierarchies) (s : State) (p : TpmResult (List ℕ) × State)
      → draw rng s ≡ p
      → (clear_owner rng hs (put_seed rng hs.owner p)).0 ≡ ok tt
      → (seed : List ℕ) × (s' : State) × (bytes s 32 ≡ (ok seed, s'))
        × (length seed ≡ 32)
        × IsProved seed s' (clear_owner rng hs (put_seed rng hs.owner p))
  seeded-Renewed hs s (err e, s') d q = cc q
  seeded-Renewed hs s (ok b, s') d q = (
    b,
    s',
    d,
    size_of s s' b d,
    clear_owner-IsProved hs (record (hs.owner) { seed = b }) s' (draw rng s') refl q,
  )

  -- After a clear that succeeds the owner and endorsement hierarchies are enabled, with an empty
  -- authorization value and no policy. Three draws of 32 octets, each from the state that the one
  -- before left, are the owner seed, the owner proof and the endorsement proof, and the generator is
  -- left as the third left it.
  pub on_clear_renews :
      (hs : Hierarchies) (s : State)
      → (on_clear rng hs s).0 ≡ ok tt
      → (seed : List ℕ) × (s1 : State) × (bytes s 32 ≡ (ok seed, s1))
        × (length seed ≡ 32)
        × (proof : List ℕ) × (s2 : State) × (bytes s1 32 ≡ (ok proof, s2))
        × Renewed proof (on_clear rng hs s).1.owner
        × ((on_clear rng hs s).1.owner.seed ≡ seed)
        × (endorsed : List ℕ) × (bytes s2 32 ≡ (ok endorsed, (on_clear rng hs s).2))
        × Renewed endorsed (on_clear rng hs s).1.endorsement
  unfolding on_clear regenerate
  on_clear_renews hs s q =
      let (seed, s1, e1, size, (proof, s2, e2, owner, kept, (endorsed, e3, renewed))) =
        seeded-Renewed hs s (draw rng s) refl q in
      (seed, s1, e1, size, proof, s2, e2, owner, kept, endorsed, e3, renewed)
