-- ===== src/Marshal/Read.antt =====
-- `Reader` of src/tpm/marshal.rs.
pub mod Laws
use swtrust.Base.{
  ℕ, zero, suc, ◌+◌, ◌-◌, ◌*◌, ◌≤◌, ◌<◌, ◌≡◌, Bool, true, false, List, [], ◌∷◌, ◌++◌, ◌==◌, ltb,
  if◌then◌else◌, length, take, drop, get_or,
}
use swtrust.Constants.Rc
use swtrust.Error.{TpmRc, TpmResult, ok, err}
use swtrust.Marshal.Bytes.{from_be_bytes}

pub record Reader : Type 0 where
  pub buf : List ℕ
  pub pos : ℕ

-- A method of `&mut Reader`: what it returns, and the reader that it leaves behind.
abbrev pub Read {ℓ} : Type ℓ → Type ℓ
Read A = Reader → TpmResult A × Reader

-- The `?` operator: an error ends the method, and what was consumed stays consumed.
abbrev pub continue {ℓ κ} :
    {A : Type ℓ} {B : Type κ} → TpmResult A × Reader → (A → Read B) → TpmResult B × Reader
continue (ok x, r) f = f x r
continue (err e, r) f = (err e, r)

infixl 5 ◌>>=◌ ◌>>◌
abbrev pub ◌>>=◌ {ℓ κ} : {A : Type ℓ} {B : Type κ} → Read A → (A → Read B) → Read B
◌>>=◌ m f r = continue (m r) f

abbrev pub ◌>>◌ {ℓ} : {B : Type ℓ} → Read (Unit {0}) → Read B → Read B
m >> k = m >>= λ _. k

abbrev pub pure {ℓ} : {A : Type ℓ} → A → Read A
pure a r = (ok a, r)

abbrev pub fail {ℓ} : {A : Type ℓ} → TpmRc → Read A
fail e r = (err e, r)

abbrev pub refuse_if : Bool → TpmRc → Read (Unit {0})
refuse_if bad e = if bad then fail e else pure tt

unfoldable pub new : List ℕ → Reader
new buf = record { buf = buf; pos = 0 }

-- `pos` never passes the end, so the subtraction is exact.
unfoldable pub remaining : Reader → ℕ
remaining r = length r.buf - r.pos

unfoldable pub is_empty : Reader → Bool
unfolding remaining
is_empty r = remaining r == 0

unfoldable pub expect_end : Reader → TpmResult (Unit {0})
unfolding remaining
expect_end r = if remaining r == 0 then ok tt else err Rc.size

unfoldable pub rest : Reader → List ℕ
rest r = drop r.pos r.buf

-- `Reader::take`
unfoldable pub read : ℕ → Read (List ℕ)
unfolding remaining
read n r =
    if ltb (remaining r) n
    then (err Rc.insufficient, r)
    else (ok (take n (drop r.pos r.buf)), record r { pos = r.pos + n })

unfoldable pub take_rest : Reader → List ℕ × Reader
take_rest r = (drop r.pos r.buf, record r { pos = length r.buf })

unfoldable pub sub : ℕ → Read Reader
unfolding read new
sub n = do bytes ← read n; pure (new bytes)

-- The slice that `take` gives has the length asked for, so that the octets named one by one in
-- the source are the whole of it.
unfoldable pub read_u8 : Read ℕ
unfolding read
read_u8 = do bytes ← read 1; pure (get_or bytes 0 0)

unfoldable pub read_u16 : Read ℕ
unfolding read from_be_bytes
read_u16 = do bytes ← read 2; pure (from_be_bytes bytes)

unfoldable pub read_u32 : Read ℕ
unfolding read from_be_bytes
read_u32 = do bytes ← read 4; pure (from_be_bytes bytes)

unfoldable pub read_u64 : Read ℕ
unfolding read from_be_bytes
read_u64 = do bytes ← read 8; pure (from_be_bytes bytes)

abbrev whole {ℓ} : {A : Type ℓ} → TpmResult A × Reader → TpmResult A
whole (err e, r) = err e
whole (ok x, r) = if is_empty r then ok x else err Rc.size

-- `Unmarshal::from_bytes`: the whole slice has to be consumed.
unfoldable pub from_bytes {ℓ} : {A : Type ℓ} → Read A → List ℕ → TpmResult A
unfolding new is_empty
from_bytes unmarshal b = whole (unmarshal (new b))

-- The loop of `unmarshal_list`, `count` rounds of it.
unfoldable pub unmarshal_items {ℓ} : {A : Type ℓ} → Read A → ℕ → Read (List A)
unmarshal_items unmarshal zero = pure []
unmarshal_items unmarshal (suc count) = do
  x ← unmarshal
  xs ← unmarshal_items unmarshal count
  pure (x ∷ xs)

unfoldable pub unmarshal_list {ℓ} : {A : Type ℓ} → Read A → ℕ → Read (List A)
unfolding read_u32 unmarshal_items
unmarshal_list unmarshal limit = do
  count ← read_u32
  refuse_if (ltb limit count) Rc.size
  unmarshal_items unmarshal count
