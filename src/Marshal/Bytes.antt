-- ===== src/Marshal/Bytes.antt =====
-- `to_be_bytes` and `from_be_bytes` of Rust's unsigned integers, on octets as numbers.
use swtrust.Base.{
  ℕ, zero, suc, ◌+◌, ◌*◌, ◌/◌, ◌%◌, ◌^◌, ◌<◌, ◌≡◌, refl, List, [], ◌∷◌, ◌++◌, arith, length, All,
  length-append, All-append,
}
use native.Mathlib.Nat.{pow-suc}

abbrev pub IsByte : ℕ → Type 0
IsByte b = b < 256

abbrev pub AreBytes : List ℕ → Type 0
AreBytes = All IsByte

-- The `n` octets of `v`, the most significant first.
unfoldable pub to_be_bytes : ℕ → ℕ → List ℕ
to_be_bytes zero v = []
to_be_bytes (suc n) v = to_be_bytes n (v / 256) ++ (v % 256) ∷ []

unfoldable pub from_be : ℕ → List ℕ → ℕ
from_be acc [] = acc
from_be acc (b ∷ bs) = from_be (acc * 256 + b) bs

unfoldable pub from_be_bytes : List ℕ → ℕ
unfolding from_be
from_be_bytes bs = from_be 0 bs

pub length-to_be_bytes : (n v : ℕ) → length (to_be_bytes n v) ≡ n
unfolding to_be_bytes
length-to_be_bytes zero v = refl
length-to_be_bytes (suc n) v = omega (
  arith,
  length-append (to_be_bytes n (v / 256)) ((v % 256) ∷ []),
  length-to_be_bytes n (v / 256),
)

pub to_be_bytes-AreBytes : (n v : ℕ) → AreBytes (to_be_bytes n v)
unfolding to_be_bytes
to_be_bytes-AreBytes zero v = tt
to_be_bytes-AreBytes (suc n) v =
    All-append IsByte (to_be_bytes n (v / 256)) _ (to_be_bytes-AreBytes n (v / 256)) (omega arith)

from_be-append :
    (acc : ℕ) (xs : List ℕ) (b : ℕ) → from_be acc (xs ++ b ∷ []) ≡ from_be acc xs * 256 + b
unfolding from_be
from_be-append acc [] b = refl
from_be-append acc (x ∷ xs) b = from_be-append (acc * 256 + x) xs b

pub from_be_bytes-to_be_bytes : (n v : ℕ) → v < 256 ^ n → from_be_bytes (to_be_bytes n v) ≡ v
unfolding from_be_bytes to_be_bytes
from_be_bytes-to_be_bytes zero v h = omega arith
from_be_bytes-to_be_bytes (suc n) v h = omega (
  arith,
  from_be-append 0 (to_be_bytes n (v / 256)) (v % 256),
  from_be_bytes-to_be_bytes n (v / 256) (omega (arith, pow-suc 256 n)),
)

from_be-lt :
    (n acc : ℕ) (bs : List ℕ) → AreBytes bs → acc < 256 ^ n → from_be acc bs < 256 ^ (n + length bs)
unfolding from_be
from_be-lt n acc [] h l = let e : n ≡ n + 0 = omega arith in rw e at l
from_be-lt n acc (b ∷ bs) h l =
    let e : suc n + length bs ≡ n + suc (length bs) = omega arith in
    rw (← e) (from_be-lt (suc n) (acc * 256 + b) bs h.1 (omega (arith, h.0, pow-suc 256 n)))

pub from_be_bytes-lt : (bs : List ℕ) → AreBytes bs → from_be_bytes bs < 256 ^ length bs
unfolding from_be_bytes
from_be_bytes-lt bs h =
    let e : 0 + length bs ≡ length bs = omega arith in rw (← e) (from_be-lt 0 0 bs h (omega arith))

-- The octets of a list of items, one behind the other.
abbrev pub encode_items {ℓ} : {A : Type ℓ} → (A → List ℕ) → List A → List ℕ
encode_items encode [] = []
encode_items encode (x ∷ xs) = encode x ++ encode_items encode xs
