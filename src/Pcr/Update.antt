-- ===== src/Pcr/Update.antt =====
-- The methods of `PcrBanks` that change registers, src/tpm/core/pcr.rs.
use swtrust.Base.{
  ℕ, ◌+◌, ◌%◌, ◌^◌, Bool, true, false, not, ◌&&◌, ◌||◌, Option, none, some, List, [], ◌∷◌, ◌++◌,
  ◌==◌, if◌then◌else◌, length, get_elem?, set, replicate,
}
use swtrust.Base.Maps.{Map, lookup, insert, map_values}
use swtrust.Constants.Rc
use swtrust.Error.{TpmResult, ok, err, ◌>>=◌}
use swtrust.Crypto.Hash.{Crypto, digest, digest_parts}
use swtrust.Structures.Base.{digest_size}
use swtrust.Pcr.Profile.{attributes, is_implemented, no_increment, refuses_locality}
use swtrust.Pcr.Banks.{
  PcrBanks, Outcome, count_change, bump_update_counter, map_from, or_zero, has_pcr, algorithms,
  has_bank,
}

-- `bank[index] = value` in the bank of `a`, which is there.
unfoldable pub put_register : ℕ → ℕ → List ℕ → List (List ℕ) → PcrBanks → PcrBanks
put_register a index value bank b = record b { banks = insert a (set bank index value) b.banks }

-- `set`; the bank is looked up last.
unfoldable pub set_register : Bool → ℕ → ℕ → List ℕ → PcrBanks → Outcome
set_register strict a index value b =
    if not (is_implemented index) then (err Rc.value, b) else elim (digest_size strict a) [
      | none ↦ (err Rc.hash, b)
      | some size ↦
          if not (length value == size) then (err Rc.size, b) else elim (lookup a b.banks) [
            | none ↦ (err Rc.value, b)
            | some bank ↦ (ok tt, count_change index (put_register a index value bank b))
          ]
    ]

-- The end of `extend_digest`: the register is written if the hash succeeds.
abbrev pub store_digest : ℕ → ℕ → PcrBanks → List (List ℕ) → TpmResult (List ℕ) → Outcome
store_digest a index b bank (err e) = (err e, b)
store_digest a index b bank (ok next) = (ok tt, put_register a index next bank b)

-- The bank and the register are found.
abbrev pub extend_register :
    Crypto → ℕ → ℕ → List ℕ → PcrBanks → List (List ℕ) → Option (List ℕ) → Outcome
extend_register c a index value b bank none = (err Rc.value, b)
extend_register c a index value b bank (some current) =
    store_digest a index b bank (digest_parts c a (current ∷ value ∷ []))

-- `bank[index]` panics on a missing register, which well-formed banks do not have; the model answers
-- it like a missing bank.
unfoldable pub extend_digest : Crypto → ℕ → ℕ → List ℕ → PcrBanks → Outcome
extend_digest c a index value b =
    if not (has_pcr b a index)
    then (ok tt, b)
    else if not (is_implemented index)
    then (err Rc.value, b)
    else elim (digest_size c.strict a) [
      | none ↦ (err Rc.hash, b)
      | some size ↦
          if not (length value == size) then (err Rc.size, b) else elim (lookup a b.banks) [
            | none ↦ (err Rc.value, b)
            | some bank ↦ extend_register c a index value b bank (get_elem? bank index)
          ]
    ]

abbrev pub and_count : ℕ → Outcome → Outcome
and_count index (err e, b) = (err e, b)
and_count index (ok u, b) = (ok u, count_change index b)

unfoldable pub extend_one : Crypto → ℕ → ℕ → List ℕ → PcrBanks → Outcome
extend_one c a index value b = and_count index (extend_digest c a index value b)

-- `if value.len() != size { return Err(..) }`, before the others are checked.
abbrev pub check_size : Option ℕ → ℕ → TpmResult (Unit {0}) → TpmResult (Unit {0})
check_size none n others = err Rc.hash
check_size (some size) n others = if not (n == size) then err Rc.size else others

-- The first loop of `extend`: every digest is checked before a register changes.
unfoldable pub check_digests : Bool → PcrBanks → List (ℕ × List ℕ) → TpmResult (Unit {0})
check_digests strict b [] = ok tt
check_digests strict b ((a, value) ∷ rest) =
    let others = check_digests strict b rest in
    if not (has_bank b a) then others else check_size (digest_size strict a) (length value) others

abbrev pub contains : List ℕ → ℕ → Bool
contains [] a = false
contains (x ∷ xs) a = x == a || contains xs a

abbrev pub push_new : List ℕ → ℕ → List ℕ
push_new counted a = if contains counted a then counted else counted ++ a ∷ []

-- `self.extend_digest(..)?`, and the rest of the loop on the banks that it leaves.
abbrev pub go_on :
    (PcrBanks → TpmResult (List ℕ) × PcrBanks) → Outcome → TpmResult (List ℕ) × PcrBanks
go_on more (err e, b) = (err e, b)
go_on more (ok u, b) = more b

-- The second loop: what it has counted, and the banks.
unfoldable pub extend_each :
    Crypto → ℕ → List ℕ → List (ℕ × List ℕ) → PcrBanks → TpmResult (List ℕ) × PcrBanks
extend_each c index counted [] b = (ok counted, b)
extend_each c index counted ((a, value) ∷ rest) b =
    let passed = extend_each c index counted rest b in
    let more = λ (b' : PcrBanks). extend_each c index (push_new counted a) rest b' in
    if not (has_bank b a) then passed else go_on more (extend_digest c a index value b)

abbrev pub and_count_all : ℕ → TpmResult (List ℕ) × PcrBanks → Outcome
and_count_all index (err e, b) = (err e, b)
and_count_all index (ok counted, b) = (
  ok tt,
  if no_increment index
      then b
      else record b { update_counter = (b.update_counter + length counted) % 2 ^ 32 },
)

abbrev pub extend_checked :
    Crypto → ℕ → List (ℕ × List ℕ) → PcrBanks → TpmResult (Unit {0}) → Outcome
extend_checked c index digests b (err e) = (err e, b)
extend_checked c index digests b (ok u) = and_count_all index (extend_each c index [] digests b)

unfoldable pub extend : Crypto → ℕ → ℕ → List (ℕ × List ℕ) → PcrBanks → Outcome
extend c index locality digests b =
    if not (is_implemented index)
    then (err Rc.value, b)
    else if refuses_locality (attributes index).extend_locality locality
    then (err Rc.locality, b)
    else extend_checked c index digests b (check_digests c.strict b digests)

-- The digests that `event` computes, one for each bank.
unfoldable pub event_digests : Crypto → List ℕ → List ℕ → TpmResult (List (ℕ × List ℕ))
event_digests c octets [] = ok []
event_digests c octets (a ∷ rest) = do
  d ← digest c a octets
  ds ← event_digests c octets rest
  ok ((a, d) ∷ ds)

abbrev pub report : List (ℕ × List ℕ) → Outcome → TpmResult (List (ℕ × List ℕ)) × PcrBanks
report digests (err e, b) = (err e, b)
report digests (ok u, b) = (ok digests, b)

-- Once the digests are there, they are extended and reported.
abbrev pub extend_event :
    Crypto
    → ℕ
    → ℕ
    → PcrBanks
    → TpmResult (List (ℕ × List ℕ))
    → TpmResult (List (ℕ × List ℕ)) × PcrBanks
extend_event c index locality b (err e) = (err e, b)
extend_event c index locality b (ok digests) = report digests (extend c index locality digests b)

unfoldable pub event : Crypto → ℕ → ℕ → List ℕ → PcrBanks → TpmResult (List (ℕ × List ℕ)) × PcrBanks
event c index locality octets b =
    extend_event c index locality b (event_digests c octets (algorithms b))

abbrev pub any_has_pcr : PcrBanks → ℕ → List ℕ → Bool
any_has_pcr b index [] = false
any_has_pcr b index (a ∷ rest) = has_pcr b a index || any_has_pcr b index rest

unfoldable pub reset : Bool → ℕ → ℕ → PcrBanks → Outcome
reset strict index locality b =
    if not (any_has_pcr b index (algorithms b))
    then (ok tt, b)
    else if not (is_implemented index)
    then (err Rc.value, b)
    else if refuses_locality (attributes index).reset_locality locality
    then (err Rc.locality, b)
    else (
      ok tt,
      count_change index (record b {
        banks =
            map_values (λ a bank. set bank index (replicate (or_zero (digest_size strict a)) 0))
              b.banks;
      }),
    )

abbrev pub eq_octets : List ℕ → List ℕ → Bool
eq_octets [] [] = true
eq_octets [] (y ∷ ys) = false
eq_octets (x ∷ xs) [] = false
eq_octets (x ∷ xs) (y ∷ ys) = x == y && eq_octets xs ys

-- The value that a D-RTM event leaves in a register.
abbrev pub drtm_value : ℕ → ℕ → List ℕ → List ℕ
drtm_value size index reg = if (attributes index).starts_at_ones then replicate size 0 else reg

-- Whether a register that counts changes, in one bank and in all.
unfoldable pub bank_changes : ℕ → ℕ → List (List ℕ) → Bool
bank_changes size i [] = false
bank_changes size i (reg ∷ regs) =
    ((attributes i).starts_at_ones
      && not (eq_octets reg (replicate size 0))
      && not (no_increment i))
    || bank_changes size (i + 1) regs

unfoldable pub any_changes : Bool → Map (List (List ℕ)) → Bool
any_changes strict [] = false
any_changes strict ((a, bank) ∷ m) =
    bank_changes (or_zero (digest_size strict a)) 0 bank || any_changes strict m

-- The loop writes a register only where it differs, which leaves the same registers as writing it.
unfoldable pub drtm_reset : Bool → PcrBanks → PcrBanks
drtm_reset strict b =
    let after = record b {
      banks =
          map_values (λ a bank. map_from 0 (drtm_value (or_zero (digest_size strict a))) bank)
            b.banks;
    } in
    if any_changes strict b.banks then bump_update_counter after else after
