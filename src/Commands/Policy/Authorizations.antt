-- ===== src/Commands/Policy/Authorizations.antt =====
-- What the policy commands of src/tpm/commands/policy.rs share that carry an authorization or compare
-- octets.
use swtrust.Base.{
  ℕ, ◌+◌, ◌-◌, ◌*◌, ◌%◌, ◌^◌, min, Bool, true, false, not, ◌&&◌, Option, none, some, List, [], ◌∷◌,
  ◌==◌, ltb, if◌then◌else◌, length, bit_and, bit_or,
}
use swtrust.Constants.Eo
use swtrust.Constants.Rc
use swtrust.Error.{TpmResult, ok, err}
use swtrust.Marshal.Bytes.{to_be_bytes, from_be_bytes}
use swtrust.Crypto.Hash.{Crypto, digest_size, digest_parts}
use swtrust.Sessions.Policy.{PolicyState}
use swtrust.Sessions.Session.{Session, is_trial, eq_octets, is_empty}
use swtrust.Commands.Policy.Steps
use swtrust.Commands.Policy.Steps.{Step, ◌>>=◌, ◌>>◌, reads, assign, extend, sized_as, is_value}

-- Two hashes, one behind the other.
unfoldable pub policy_authorization_update : Crypto → ℕ → List ℕ → List ℕ → Step (Unit {0})
unfolding extend
policy_authorization_update c command_code auth_name policy_ref = do
  extend c command_code auth_name
  digest ← reads (λ s. digest_parts c s.auth_hash (s.policy.digest ∷ policy_ref ∷ []))
  assign (λ p. record p { digest = digest })

abbrev pub expires_on_reset : ℕ
expires_on_reset = 2 ^ 63

-- An expiration that is negative is given by its size: none stands for one that is not.
unfoldable pub authorization_timeout : ℕ → Option ℕ → Bool → List ℕ
authorization_timeout session_start_time none without_nonce = []
authorization_timeout session_start_time (some seconds) without_nonce =
    let limit = seconds * 1000 in
    to_be_bytes 8 (
      if without_nonce
      then bit_or limit expires_on_reset
      else min (session_start_time + limit) (2 ^ 64 - 1))

abbrev pub against : Option (List ℕ) → List ℕ → TpmResult ℕ → TpmResult (Unit {0})
against (some current) cp_hash_a wanted =
    if not (eq_octets current cp_hash_a) then err Rc.cphash else ok tt
against none cp_hash_a wanted = sized_as wanted (length cp_hash_a) 2

unfoldable pub check_cp_hash : Crypto → Session → List ℕ → TpmResult (Unit {0})
check_cp_hash c s cp_hash_a =
    if is_empty cp_hash_a
    then ok tt
    else if is_trial s
    then ok tt
    else against s.policy.cp_hash cp_hash_a (digest_size c s.auth_hash)

unfoldable pub set_cp_hash : List ℕ → Step (Unit {0})
set_cp_hash cp_hash_a =
    assign (λ p. if not (is_empty cp_hash_a) then record p { cp_hash = some cp_hash_a } else p)

-- The top bit is left out.
unfoldable pub timeout_value : List ℕ → Option ℕ
timeout_value timeout =
    if not (length timeout == 8) then none else some (from_be_bytes timeout % expires_on_reset)

abbrev pub lowered : Option ℕ → ℕ → ℕ
lowered none expires = expires
lowered (some current) expires = min current expires

abbrev pub expiring : Option ℕ → PolicyState → PolicyState
expiring none p = p
expiring (some expires) p = record p { expiration = some (lowered p.expiration expires) }

unfoldable pub record_expiration : List ℕ → Step (Unit {0})
unfolding timeout_value
record_expiration timeout = assign (expiring (timeout_value timeout))

-- `std::cmp::Ordering`, and the order of octet strings.
pub data Order : Type 0 where
  less : Order
  equal : Order
  greater : Order

unfoldable pub order : List ℕ → List ℕ → Order
order [] [] = equal
order [] (y ∷ ys) = less
order (x ∷ xs) [] = greater
order (x ∷ xs) (y ∷ ys) =
    let later = order xs ys in if ltb x y then less else if ltb y x then greater else later

-- The sign of an operand is the top bit of its first octet.
abbrev pub by_sign : Bool → Bool → Order → Order
by_sign true false unsigned = less
by_sign false true unsigned = greater
by_sign true true unsigned = unsigned
by_sign false false unsigned = unsigned

abbrev pub is_negative : ℕ → Bool
is_negative x = not (bit_and x 0x80 == 0)

unfoldable pub signed_order : List ℕ → List ℕ → Order
unfolding order
signed_order [] b = equal
signed_order (x ∷ xs) [] = greater
signed_order (x ∷ xs) (y ∷ ys) = by_sign (is_negative x) (is_negative y) (order (x ∷ xs) (y ∷ ys))

abbrev pub is_less : Order → Bool
is_less less = true
is_less equal = false
is_less greater = false

abbrev pub is_greater : Order → Bool
is_greater less = false
is_greater equal = false
is_greater greater = true

abbrev pub is_equal : Order → Bool
is_equal less = false
is_equal equal = true
is_equal greater = false

abbrev pub all_set : List ℕ → List ℕ → Bool
all_set [] b = true
all_set (x ∷ xs) [] = true
all_set (x ∷ xs) (y ∷ ys) = bit_and x y == y && all_set xs ys

abbrev pub all_clear : List ℕ → List ℕ → Bool
all_clear [] b = true
all_clear (x ∷ xs) [] = true
all_clear (x ∷ xs) (y ∷ ys) = bit_and x y == 0 && all_clear xs ys

unfoldable pub compare : List ℕ → List ℕ → ℕ → Option Bool
unfolding order signed_order
compare a b operation =
    let unsigned = order a b in
    let signed = signed_order a b in
    if not (length a == length b)
    then none
    else if operation == Eo.eq
    then some (is_equal unsigned)
    else if operation == Eo.neq
    then some (not (is_equal unsigned))
    else if operation == Eo.signed_gt
    then some (is_greater signed)
    else if operation == Eo.unsigned_gt
    then some (is_greater unsigned)
    else if operation == Eo.signed_lt
    then some (is_less signed)
    else if operation == Eo.unsigned_lt
    then some (is_less unsigned)
    else if operation == Eo.signed_ge
    then some (not (is_less signed))
    else if operation == Eo.unsigned_ge
    then some (not (is_less unsigned))
    else if operation == Eo.signed_le
    then some (not (is_greater signed))
    else if operation == Eo.unsigned_le
    then some (not (is_greater unsigned))
    else if operation == Eo.bitset
    then some (all_set a b)
    else if operation == Eo.bitclear
    then some (all_clear a b)
    else none

unfoldable pub is_operation : ℕ → Bool
unfolding compare
is_operation operation = Steps.is_some (compare [] [] operation)
