-- ===== src/Pcr/Extend.antt =====
-- `PcrBanks::extend` of src/tpm/core/pcr.rs: the loop over the digests, and the whole operation.
use swtrust.Base.{
  ℕ, ◌+◌, ◌%◌, ◌^◌, ◌≡◌, refl, ap, sym, ◌∙◌, subst, true, false, not, some, List, [], ◌∷◌,
  if◌then◌else◌, length, All, inl, inr, Bool-cases, eq-cases, eq→==, ne→==,
}
use swtrust.Constants.Rc
use swtrust.Error.{TpmResult, ok, err, TpmResult-cases}
use swtrust.Crypto.Hash.{Crypto, output_len}
use swtrust.Structures.Base.{digest_size}
use swtrust.Pcr.Profile.{is_implemented, no_increment, refuses_locality, attributes}
use swtrust.Pcr.Banks.{PcrBanks, Outcome, has_bank}
use swtrust.Pcr.Update.{
  extend_digest, extend_each, go_on, extend, check_digests, check_size, push_new, and_count_all,
}
use swtrust.Pcr.Valid.{IsValid, digest_size-IsSupported}
use swtrust.Pcr.Digest.{
  Extended, Extended-nil, Extended-cons, Extended-skip, extend_digest-Extended, has_bank-lookup,
}

-- A digest for a bank that is there has that bank's size.
abbrev pub Fits : Crypto → PcrBanks → ℕ × List ℕ → Type 0
Fits c b (a, value) = has_bank b a ≡ true → length value ≡ output_len a

-- The banks that the digests name, each once.
unfoldable pub named : PcrBanks → List ℕ → List (ℕ × List ℕ) → List ℕ
named b counted [] = counted
named b counted ((a, value) ∷ rest) =
    if has_bank b a then named b (push_new counted a) rest else named b counted rest

named_same :
    (b b' : PcrBanks) (counted : List ℕ) (ds : List (ℕ × List ℕ))
    → ((x : ℕ) → has_bank b' x ≡ has_bank b x)
    → named b' counted ds ≡ named b counted ds
unfolding named
named_same b b' counted [] h = refl
named_same b b' counted ((a, value) ∷ rest) h =
    rw (h a, named_same b b' (push_new counted a) rest h, named_same b b' counted rest h)

Fits-same :
    (c : Crypto) (b b' : PcrBanks) (ds : List (ℕ × List ℕ))
    → ((x : ℕ) → has_bank b' x ≡ has_bank b x)
    → All (Fits c b) ds
    → All (Fits c b') ds
Fits-same c b b' [] h f = tt
Fits-same c b b' ((a, value) ∷ rest) h f = ((λ k. f.0 (sym (h a) ∙ k)), Fits-same c b b' rest h f.1)

extend_each-step :
    (c : Crypto) (index : ℕ) (counted : List ℕ) (a : ℕ) (value : List ℕ) (rest : List (ℕ × List ℕ))
    (b b' : PcrBanks)
    → has_bank b a ≡ true
    → extend_digest c a index value b ≡ (ok tt, b')
    → extend_each c index counted ((a, value) ∷ rest) b
      ≡ extend_each c index (push_new counted a) rest b'
unfolding extend_each
extend_each-step c index counted a value rest b b' p e =
    rw p (ap (go_on (extend_each c index (push_new counted a) rest)) e)

extend_each-skip :
    (c : Crypto) (index : ℕ) (counted : List ℕ) (a : ℕ) (value : List ℕ) (rest : List (ℕ × List ℕ))
    (b : PcrBanks)
    → has_bank b a ≡ false
    → extend_each c index counted ((a, value) ∷ rest) b ≡ extend_each c index counted rest b
unfolding extend_each
extend_each-skip c index counted a value rest b n = rw n

named-step :
    (b : PcrBanks) (counted : List ℕ) (a : ℕ) (value : List ℕ) (rest : List (ℕ × List ℕ))
    → named b counted ((a, value) ∷ rest)
      ≡ (if has_bank b a then named b (push_new counted a) rest else named b counted rest)
unfolding named
named-step b counted a value rest = refl

extend_each-nil :
    (c : Crypto) (index : ℕ) (counted : List ℕ) (b : PcrBanks)
    → extend_each c index counted [] b ≡ (ok (named b counted []), b)
unfolding extend_each named
extend_each-nil c index counted b = refl

pub extend_each-Extended :
    (c : Crypto) (index : ℕ) (counted : List ℕ) (ds : List (ℕ × List ℕ)) (b : PcrBanks)
    → IsValid c b
    → is_implemented index ≡ true
    → All (Fits c b) ds
    → (b' : PcrBanks) × (extend_each c index counted ds b ≡ (ok (named b counted ds), b'))
      × Extended c index ds b b'
extend_each-Extended c index counted [] b h i f =
    (b, extend_each-nil c index counted b, Extended-nil c index b h)
extend_each-Extended c index counted ((a, value) ∷ rest) b h i f =
    elim (Bool-cases (has_bank b a)) [
      | inr n ↦
          let (b', e, k) = extend_each-Extended c index counted rest b h i f.1 in
          (
            b',
            rw (named-step b counted a value rest, n)
                (extend_each-skip c index counted a value rest b n ∙ e),
            Extended-skip c index a value rest b b' n k,
          )
      | inl p ↦
          let (b1, e1, k1) = extend_digest-Extended c a index value b h i p (f.0 p) in
          let (b2, e2, k2) =
            extend_each-Extended c index (push_new counted a) rest b1 k1.valid i
              (Fits-same c b b1 rest k1.has f.1) in
          (
            b2,
            rw (named-step b counted a value rest, p)
                (extend_each-step c index counted a value rest b b1 p e1
                  ∙ e2
                  ∙ ap (λ l. (ok l, b2)) (named_same b b1 (push_new counted a) rest k1.has)),
            Extended-cons c index a value rest b b1 b2 k1 k2,
          )
    ]

check_size-eq :
    (n m : ℕ) (others : TpmResult (Unit {0}))
    → check_size (some m) n others ≡ ok tt
    → (n ≡ m) × (others ≡ ok tt)
check_size-eq n m others e = elim (eq-cases n m) [
  | inl q ↦ (q, subst (λ t. (if not t then err Rc.size else others) ≡ ok tt) (eq→== n m q) e)
  | inr q ↦
      let wrong : err Rc.size ≡ ok tt =
        subst (λ t. (if not t then err Rc.size else others) ≡ ok tt) (ne→== n m q) e in
      cc wrong
]

pub check_digests-Fits :
    (c : Crypto) (b : PcrBanks) (ds : List (ℕ × List ℕ))
    → IsValid c b
    → check_digests c.strict b ds ≡ ok tt
    → All (Fits c b) ds
unfolding check_digests
check_digests-Fits c b [] h e = tt
check_digests-Fits c b ((a, value) ∷ rest) h e = elim (Bool-cases (has_bank b a)) [
  | inl p ↦
      let (r, q) = has_bank-lookup b a p in
      let (fits, others) =
        check_size-eq (length value) (output_len a) (check_digests c.strict b rest) (
          subst (λ o. check_size o (length value) (check_digests c.strict b rest) ≡ ok tt)
            (digest_size-IsSupported c a (h.bank a q).supported)
            (subst
              (λ t.
                (if not t
                  then check_digests c.strict b rest
                  else check_size (digest_size c.strict a) (length value)
                      (check_digests c.strict b rest))
                ≡ ok tt)
              p e)) in
      ((λ k. fits), check_digests-Fits c b rest h others)
  | inr n ↦ (
    (λ k. cc),
    check_digests-Fits c b rest h (
        subst
          (λ t.
            (if not t
              then check_digests c.strict b rest
              else check_size (digest_size c.strict a) (length value)
                  (check_digests c.strict b rest))
            ≡ ok tt)
          n e),
  )
]

-- The counter after an extend that is not refused: it advances by the banks named.
abbrev pub counted : ℕ → ℕ → List ℕ → ℕ
counted index n names = if no_increment index then n else (n + length names) % 2 ^ 32

-- What an extend answers, and what it leaves, in both cases.
pub data Extends (c : Crypto) (index : ℕ) (ds : List (ℕ × List ℕ)) (b : PcrBanks)
    : Outcome → Type 0 where
  refused : (e : ℕ) → Extends c index ds b (err e, b)
  done :
      (b' b'' : PcrBanks)
      → Extended c index ds b b'
      → is_implemented index ≡ true
      → b'' ≡ record b' { update_counter = counted index b.update_counter (named b [] ds) }
      → Extends c index ds b (ok tt, b'')

and_count_all-eq :
    (index : ℕ) (names : List ℕ) (b : PcrBanks) (n : ℕ)
    → b.update_counter ≡ n
    → and_count_all index (ok names, b)
      ≡ (ok tt, record b { update_counter = counted index n names })
and_count_all-eq index names b n e = elim (Bool-cases (no_increment index)) [
  | inl p ↦ rw (p, sym e)
  | inr p ↦ rw (p, sym e)
]

pub extend-Extends :
    (c : Crypto) (index locality : ℕ) (ds : List (ℕ × List ℕ)) (b : PcrBanks)
    → IsValid c b
    → Extends c index ds b (extend c index locality ds b)
unfolding extend
extend-Extends c index locality ds b h = elim (Bool-cases (is_implemented index)) [
  | inr n ↦ rw n (refused Rc.value)
  | inl i ↦ elim (Bool-cases (refuses_locality (attributes index).extend_locality locality)) [
    | inl l ↦ rw (i, l) (refused Rc.locality)
    | inr l ↦ elim (TpmResult-cases (check_digests c.strict b ds)) [
      | inr (e, q) ↦ rw (i, l, q) (refused e)
      | inl (u, q) ↦
          let (b', e, k) =
            extend_each-Extended c index [] ds b h i (check_digests-Fits c b ds h q) in
          rw (i, l, q, e, and_count_all-eq index (named b [] ds) b' b.update_counter k.counter)
            (done b' _ k i refl)
    ]
  ]
]
