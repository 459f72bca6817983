-- ===== src/Tests/Registers.antt =====
-- Platform Configuration Registers.
use swtrust.Base.{
  ℕ, ◌≡◌, refl, false, Bool, List, [], ◌∷◌, some, inl, ◌==◌, ltb, leb, if◌then◌else◌, replicate,
  not, arith, ◌≢◌,
}
use swtrust.Constants.Alg
use swtrust.Constants.Rc
use swtrust.Error.{ok, err}
use swtrust.Base.Maps.{insert, map_values, lookup}
use swtrust.Crypto.Hash.{output_len, algorithm, digest_parts, new}
use swtrust.Structures.Base.{digest_size}
use swtrust.Pcr.Profile.{attributes, is_implemented, no_increment, refuses_locality}
use swtrust.Pcr.Banks.{
  PcrBanks, default, allocate, allocate_from, reset_all, reset_all_but, whole_banks, map_from, read,
  has_pcr, has_bank, on_resume, is_kept,
}
use swtrust.Base.Maps.{contains_key}
use swtrust.Pcr.Update.{extend, extend_each, extend_digest, check_digests, drtm_reset, reset}
use swtrust.Pcr.After.{after}
use swtrust.Pcr.Extend.{counted, named}
use swtrust.Pcr.Valid.{IsValid}
use swtrust.Pcr.Promises.{extend_registers, extend_answers, permitted}
use swtrust.Pcr.Clear.{reset_static}
use swtrust.Pcr.Allocation.{AreSupported, allocate_total}
use swtrust.Pcr.Reset.{
  on_resume_registers, reset_all_but_registers, drtm_reset_registers, is_dynamic, last_of,
}
use swtrust.Pcr.Rewrite.{map_ok}
use swtrust.Pcr.Requests.{AreHashes}
use swtrust.Pcr.Histories.{Reach, started, allocated, extended, Reach-IsValid}
use swtrust.Tests.Fixtures.{test_crypto, sha256-IsSupported}

-- One bank, with every register allocated.
abbrev pub allocation : List (ℕ × List Bool)
unfolding whole_banks
allocation = whole_banks (Alg.sha256 ∷ [])

allocation-AreSupported : AreSupported test_crypto allocation
unfolding allocation
allocation-AreSupported = (sha256-IsSupported, tt)

abbrev pub banks : PcrBanks
unfolding allocate
banks = (allocate false allocation default).1

banks-Reach : Reach test_crypto (allocation ∷ []) banks
unfolding allocate
banks-Reach = allocated allocation started

allocation-AreHashes : AreHashes allocation
unfolding allocation
allocation-AreHashes = (omega arith, tt)

pub banks-IsValid : IsValid test_crypto banks
banks-IsValid = Reach-IsValid banks-Reach (allocation-AreHashes, tt)

abbrev measured : List (ℕ × List ℕ)
measured = (Alg.sha256, replicate 32 7) ∷ []

-- A digest that is an octet short.
abbrev short : List (ℕ × List ℕ)
short = (Alg.sha256, replicate 31 7) ∷ []

abbrev later : PcrBanks
unfolding extend
later = (extend test_crypto 10 0 measured banks).1

extend-measured : extend test_crypto 10 0 measured banks ≡ (ok tt, later)
unfolding extend is_implemented refuses_locality attributes check_digests has_bank contains_key
    lookup allocate allocate_from insert digest_size reset_all reset_all_but map_values extend_each
    extend_digest has_pcr digest_parts new algorithm no_increment allocation map_from
extend-measured = refl

extend_registers_example :
    ((x j : ℕ)
      → read later x j ≡ after test_crypto 10 measured x j (has_pcr banks x 10) (read banks x j))
    × (later.update_counter ≡ counted 10 banks.update_counter (named banks [] measured))
    × (later.allocated ≡ banks.allocated)
extend_registers_example =
    extend_registers test_crypto 10 0 measured banks later banks-IsValid extend-measured

abbrev refused : PcrBanks
unfolding extend
refused = (extend test_crypto 10 0 short banks).1

extend-short : extend test_crypto 10 0 short banks ≡ (err Rc.size, refused)
unfolding extend is_implemented refuses_locality attributes check_digests has_bank contains_key
    lookup allocate allocate_from insert digest_size reset_all reset_all_but map_values allocation
extend-short = refl

extend_answers_example : (extend test_crypto 18 1 measured banks).0 ≡ (
    if not (ltb 18 24)
    then err Rc.value
    else if not (permitted 18 1)
    then err Rc.locality
    else check_digests false banks measured)
extend_answers_example = extend_answers test_crypto 18 1 measured banks banks-IsValid

Reach-IsValid_example : IsValid test_crypto (extend test_crypto 10 0 measured banks).1
Reach-IsValid_example =
    Reach-IsValid (extended 10 0 measured banks-Reach) (allocation-AreHashes, tt)

other : ◌≢◌ {A = ℕ} 16 17
other = omega arith

reset_static_example : read (reset false 16 0 banks).1 Alg.sha256 17 ≡ read banks Alg.sha256 17
reset_static_example = reset_static false 16 0 banks Alg.sha256 17 (inl other)

allocate_total_example :
    (b' : PcrBanks) × (allocate false allocation default ≡ (ok tt, b'))
    × IsValid test_crypto b'
    × (b'.update_counter ≡ default.update_counter)
allocate_total_example = allocate_total test_crypto allocation default allocation-AreSupported

on_resume_registers_example : read (on_resume false later) Alg.sha256 18 ≡ (
    if leb 18 15
    then read later Alg.sha256 18
    else map_ok
        (λ x. replicate (output_len Alg.sha256) (if is_dynamic 18 then 0xff else 0))
        (read later Alg.sha256 18))
on_resume_registers_example = on_resume_registers test_crypto later Alg.sha256 18 sha256-IsSupported

reset_all_but_registers_example : read (reset_all_but false (some 0) 4 later) Alg.sha256 10 ≡ (
    if is_kept (some 0) 10
    then read later Alg.sha256 10
    else map_ok
        (λ x.
          if 10 == 0
          then last_of (output_len Alg.sha256) 4
          else replicate (output_len Alg.sha256) (if is_dynamic 10 then 0xff else 0))
        (read later Alg.sha256 10))
reset_all_but_registers_example =
    reset_all_but_registers test_crypto (some 0) 4 later Alg.sha256 10 sha256-IsSupported

drtm_reset_registers_example : read (drtm_reset false later) Alg.sha256 17 ≡ (
    if is_dynamic 17
    then map_ok (λ x. replicate (output_len Alg.sha256) 0) (read later Alg.sha256 17)
    else read later Alg.sha256 17)
drtm_reset_registers_example =
    drtm_reset_registers test_crypto later Alg.sha256 17 sha256-IsSupported
