-- ===== src/Pcr/Histories.antt =====
-- Every history of `PcrBanks` of src/tpm/core/pcr.rs, as a relation, and the invariant of the banks
-- in each.
use swtrust.Base.{
  ℕ, ◌≡◌, refl, sym, ap, ◌∙◌, subst, Bool, Option, List, [], ◌∷◌, All, ◌==◌, length, set, replicate,
  inl, inr, Option-cases, Bool-cases, ==→eq, length-replicate,
}
use swtrust.Base.Maps.{lookup}
use swtrust.Error.{TpmResult, ok, err}
use swtrust.Crypto.Hash.{Crypto, output_len}
use swtrust.Structures.Base.{digest_size}
use swtrust.Pcr.Profile.{no_increment, is_implemented}
use swtrust.Pcr.Banks.{
  PcrBanks, Outcome, default, or_zero, allocate, algorithms, count_change, bump_update_counter,
  reset_all_but, on_resume,
}
use swtrust.Pcr.Update.{
  extend, event, event_digests, report, extend_event, reset, set_register, drtm_reset,
}
use swtrust.Pcr.Valid.{IsValid, digest_size-IsSupported, put_register-IsBank, put_register-IsValid}
use swtrust.Pcr.Promises.{State, extend-IsValid}
use swtrust.Pcr.Rewrite.{banks-IsValid}
use swtrust.Pcr.Clear.{Resets, unchanged, zeroes, zeroed, reset-Resets}
use swtrust.Pcr.Requests.{AreHashes, allocate-IsValid, default-IsValid}
use swtrust.Pcr.Preserved.{reset_all_but-IsValid, on_resume-IsValid, drtm_reset-IsValid}

count_change-IsValid :
    (c : Crypto) (index : ℕ) (b : PcrBanks) → IsValid c b → IsValid c (count_change index b)
unfolding count_change bump_update_counter
count_change-IsValid c index b h = elim (Bool-cases (no_increment index)) [
  | inl e ↦ rw e h
  | inr e ↦ rw e (record { bank = h.bank; flagged = h.flagged })
]

zeroed-IsValid :
    (c : Crypto) (index : ℕ) (b : PcrBanks) → IsValid c b → IsValid c (zeroed c.strict index b)
zeroed-IsValid c index b h =
    banks-IsValid c (λ a bank. set bank index (replicate (or_zero (digest_size c.strict a)) 0)) b h
      λ a r k. put_register-IsBank c a index _ r k (
        length-replicate (or_zero (digest_size c.strict a)) 0
        ∙ ap or_zero (digest_size-IsSupported c a k.supported))

Resets-IsValid :
    (c : Crypto) (index locality : ℕ) (b : PcrBanks) (o : Outcome)
    → IsValid c b
    → Resets c.strict index locality b o
    → IsValid c (State o)
Resets-IsValid c index locality b o h (unchanged r) = h
Resets-IsValid c index locality b o h (zeroes l) =
    count_change-IsValid c index _ (zeroed-IsValid c index b h)

reset-IsValid :
    (c : Crypto) (index locality : ℕ) (b : PcrBanks)
    → IsValid c b
    → IsValid c (reset c.strict index locality b).1
reset-IsValid c index locality b h =
    Resets-IsValid c index locality b _ h (reset-Resets c.strict index locality b)

report-state : (digests : List (ℕ × List ℕ)) (o : Outcome) → (report digests o).1 ≡ State o
report-state digests (ok u, b) = refl
report-state digests (err e, b) = refl

extend_event-IsValid :
    (c : Crypto) (index locality : ℕ) (b : PcrBanks) (r : TpmResult (List (ℕ × List ℕ)))
    → IsValid c b
    → IsValid c (extend_event c index locality b r).1
extend_event-IsValid c index locality b (err e) h = h
extend_event-IsValid c index locality b (ok ds) h =
    subst (IsValid c) (sym (report-state ds (extend c index locality ds b)))
      (extend-IsValid c index locality ds b h)

event-IsValid :
    (c : Crypto) (index locality : ℕ) (octets : List ℕ) (b : PcrBanks)
    → IsValid c b
    → IsValid c (event c index locality octets b).1
unfolding event
event-IsValid c index locality octets b h =
    extend_event-IsValid c index locality b (event_digests c octets (algorithms b)) h

-- The registers that a write leaves: none changed, or one of the size of its bank.
set_register-IsValid :
    (c : Crypto) (a index : ℕ) (value : List ℕ) (b : PcrBanks)
    → IsValid c b
    → IsValid c (set_register c.strict a index value b).1
unfolding set_register
set_register-IsValid c a index value b h = elim (Bool-cases (is_implemented index)) [
  | inr n ↦ rw n h
  | inl i ↦ elim (Option-cases (lookup a b.banks)) [
    | inr (r, q) ↦
        let k = h.bank a q in
        elim (Bool-cases (length value == output_len a)) [
          | inr m ↦ rw (i, digest_size-IsSupported c a k.supported, m) h
          | inl m ↦
              rw (i, digest_size-IsSupported c a k.supported, m, q)
                (count_change-IsValid c index _ (
                  put_register-IsValid c a index value r b h q
                    (==→eq (length value) (output_len a) m)))
        ]
    | inl q ↦ elim (Option-cases (digest_size c.strict a)) [
      | inl d ↦ rw (i, d) h
      | inr (n, d) ↦ elim (Bool-cases (length value == n)) [
        | inl m ↦ rw (i, d, m, q) h
        | inr m ↦ rw (i, d, m) h
      ]
    ]
  ]
]

-- The banks that any number of operations lead to, from no bank at all. Every operation may be asked
-- for anything, and its answer may be an error. `asked` are the allocations asked for, the newest
-- first.
pub data Reach (c : Crypto) : List (List (ℕ × List Bool)) → PcrBanks → Type 0 where
  started : Reach c [] default
  allocated :
      {asked : List (List (ℕ × List Bool))} {b : PcrBanks} (allocation : List (ℕ × List Bool))
      → Reach c asked b
      → Reach c (allocation ∷ asked) (allocate c.strict allocation b).1
  extended :
      {asked : List (List (ℕ × List Bool))} {b : PcrBanks} (index locality : ℕ)
      (ds : List (ℕ × List ℕ))
      → Reach c asked b
      → Reach c asked (extend c index locality ds b).1
  recorded :
      {asked : List (List (ℕ × List Bool))} {b : PcrBanks} (index locality : ℕ) (octets : List ℕ)
      → Reach c asked b
      → Reach c asked (event c index locality octets b).1
  cleared :
      {asked : List (List (ℕ × List Bool))} {b : PcrBanks} (index locality : ℕ)
      → Reach c asked b
      → Reach c asked (reset c.strict index locality b).1
  written :
      {asked : List (List (ℕ × List Bool))} {b : PcrBanks} (a index : ℕ) (value : List ℕ)
      → Reach c asked b
      → Reach c asked (set_register c.strict a index value b).1
  restarted :
      {asked : List (List (ℕ × List Bool))} {b : PcrBanks} (keep : Option ℕ) (locality : ℕ)
      → Reach c asked b
      → Reach c asked (reset_all_but c.strict keep locality b)
  resumed :
      {asked : List (List (ℕ × List Bool))} {b : PcrBanks}
      → Reach c asked b
      → Reach c asked (on_resume c.strict b)
  launched :
      {asked : List (List (ℕ × List Bool))} {b : PcrBanks}
      → Reach c asked b
      → Reach c asked (drtm_reset c.strict b)

-- In every history of allocations, startups, resumes, D-RTM events, extends, events, resets and
-- writes that starts from no bank, refused operations included, the banks are well formed, as long
-- as no allocation names SM3_256, which has a digest size and no implementation: each bank is of an
-- implemented algorithm and has 24 registers of the size of its digest, and there is a bank for
-- every allocation.
pub Reach-IsValid :
    {c : Crypto} {asked : List (List (ℕ × List Bool))} {b : PcrBanks}
    → Reach c asked b
    → All AreHashes asked
    → IsValid c b
Reach-IsValid {c} started s = default-IsValid c
Reach-IsValid {c} (allocated {b = b} allocation h) s =
    allocate-IsValid c allocation b s.0 (Reach-IsValid h s.1)
Reach-IsValid {c} (extended {b = b} index locality ds h) s =
    extend-IsValid c index locality ds b (Reach-IsValid h s)
Reach-IsValid {c} (recorded {b = b} index locality octets h) s =
    event-IsValid c index locality octets b (Reach-IsValid h s)
Reach-IsValid {c} (cleared {b = b} index locality h) s =
    reset-IsValid c index locality b (Reach-IsValid h s)
Reach-IsValid {c} (written {b = b} a index value h) s =
    set_register-IsValid c a index value b (Reach-IsValid h s)
Reach-IsValid {c} (restarted {b = b} keep locality h) s =
    reset_all_but-IsValid c keep locality b (Reach-IsValid h s)
Reach-IsValid {c} (resumed {b = b} h) s = on_resume-IsValid c b (Reach-IsValid h s)
Reach-IsValid {c} (launched {b = b} h) s = drtm_reset-IsValid c b (Reach-IsValid h s)
