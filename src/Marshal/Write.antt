-- ===== src/Marshal/Write.antt =====
-- `Writer` of src/tpm/marshal.rs. A method of `&mut Writer` returns the writer that it leaves.
pub mod Laws
use swtrust.Base.{
  ℕ, zero, suc, ◌+◌, ◌-◌, ◌%◌, ◌^◌, ◌≡◌, Bool, true, false, List, [], ◌∷◌, ◌++◌, leb, if◌then◌else◌,
  length, take, drop,
}
use swtrust.Constants.Rc
use swtrust.Error.{TpmResult, ok, err}
use swtrust.Marshal.Bytes.{to_be_bytes}

pub record Writer : Type 0 where
  pub buf : List ℕ
  pub overflow : Bool

unfoldable pub new : Writer
new = record { buf = []; overflow = false }

unfoldable pub finish : Writer → TpmResult (List ℕ)
finish w = if w.overflow then err Rc.size else ok w.buf

unfoldable pub bytes : List ℕ → Writer → Writer
bytes b w = record w { buf = w.buf ++ b }

unfoldable pub write_u8 : ℕ → Writer → Writer
write_u8 v w = record w { buf = w.buf ++ v ∷ [] }

unfoldable pub write_u16 : ℕ → Writer → Writer
write_u16 v w = record w { buf = w.buf ++ to_be_bytes 2 v }

unfoldable pub write_u32 : ℕ → Writer → Writer
write_u32 v w = record w { buf = w.buf ++ to_be_bytes 4 v }

unfoldable pub write_u64 : ℕ → Writer → Writer
write_u64 v w = record w { buf = w.buf ++ to_be_bytes 8 v }

unfoldable pub sized16 : List ℕ → Writer → Writer
sized16 body w =
    if leb (length body) 0xffff
    then bytes body (write_u16 (length body) w)
    else bytes body (write_u16 0 (record w { overflow = true }))

-- `dst[at..at + src.len()].copy_from_slice(src)`
unfoldable pub copy_from_slice : List ℕ → ℕ → List ℕ → List ℕ
copy_from_slice dst at src = take at dst ++ src ++ drop (at + length src) dst

-- The end of `sized16_with`: the field at `at` gets the number of octets from `start` on.
unfoldable pub fill_length : ℕ → ℕ → Writer → Writer
fill_length at start w =
    let n = length w.buf - start in
    if leb n 0xffff
    then record w { buf = copy_from_slice w.buf at (to_be_bytes 2 n) }
    else record w { overflow = true }

unfoldable pub sized16_with : (Writer → Writer) → Writer → Writer
sized16_with f w =
    let reserved = write_u16 0 w in fill_length (length w.buf) (length reserved.buf) (f reserved)

-- `Marshal::to_bytes`
unfoldable pub to_bytes : (Writer → Writer) → List ℕ
unfolding new
to_bytes marshal = (marshal new).buf

unfoldable pub marshal_items {ℓ} : {A : Type ℓ} → (A → Writer → Writer) → List A → Writer → Writer
marshal_items marshal [] w = w
marshal_items marshal (x ∷ xs) w = marshal_items marshal xs (marshal x w)

-- `items.len() as u32` keeps the low 32 bits.
unfoldable pub marshal_list {ℓ} : {A : Type ℓ} → (A → Writer → Writer) → List A → Writer → Writer
marshal_list marshal items w = marshal_items marshal items (write_u32 (length items % 2 ^ 32) w)
