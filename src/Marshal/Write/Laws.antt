-- ===== src/Marshal/Write/Laws.antt =====
-- What a writer method appends, and the two forms of a sized field. src/tpm/marshal.rs.
use swtrust.Base.{
  ℕ, ◌-◌, ◌^◌, ◌%◌, ◌≤◌, ◌<◌, ◌≡◌, refl, sym, ap, ◌∙◌, true, List, [], ◌∷◌, ◌++◌, leb, length,
  arith, length-append, append_assoc, append-nil, take-append, drop-append, drop-drop,
}
use swtrust.Constants.Rc
use swtrust.Error.{err}
use swtrust.Marshal.Bytes.{encode_items, to_be_bytes, length-to_be_bytes}
use swtrust.Marshal.Write.{
  Writer, new, bytes, write_u8, write_u16, write_u32, write_u64, sized16, sized16_with, to_bytes,
  copy_from_slice, marshal_items, marshal_list, finish, fill_length,
}

-- `f` appends exactly the octets `bs`, and records no overflow.
abbrev pub Writes : (Writer → Writer) → List ℕ → Type 0
Writes f bs = (w : Writer) → f w ≡ bytes bs w

pub bytes-bytes : (bs cs : List ℕ) (w : Writer) → bytes cs (bytes bs w) ≡ bytes (bs ++ cs) w
unfolding bytes
bytes-bytes bs cs w = ground (arith, append_assoc w.buf bs cs)

pub Writes_then :
    (f g : Writer → Writer) (bs cs : List ℕ)
    → Writes f bs
    → Writes g cs
    → Writes (λ w. g (f w)) (bs ++ cs)
Writes_then f g bs cs h k w = rw (h w, k (bytes bs w)) (bytes-bytes bs cs w)

pub Writes-write_u8 : (v : ℕ) → Writes (write_u8 v) (v ∷ [])
unfolding write_u8 bytes
Writes-write_u8 v w = refl

pub Writes-write_u16 : (v : ℕ) → Writes (write_u16 v) (to_be_bytes 2 v)
unfolding write_u16 bytes
Writes-write_u16 v w = refl

pub Writes-write_u32 : (v : ℕ) → Writes (write_u32 v) (to_be_bytes 4 v)
unfolding write_u32 bytes
Writes-write_u32 v w = refl

pub Writes-write_u64 : (v : ℕ) → Writes (write_u64 v) (to_be_bytes 8 v)
unfolding write_u64 bytes
Writes-write_u64 v w = refl

pub Writes-sized16 :
    (body : List ℕ)
    → length body < 2 ^ 16
    → Writes (sized16 body) (to_be_bytes 2 (length body) ++ body)
unfolding sized16
Writes-sized16 body h w =
    let fits : leb (length body) 0xffff ≡ true = ground arith in
    rw (fits, Writes-write_u16 (length body) w) (bytes-bytes (to_be_bytes 2 (length body)) body w)

pub to_bytes-Writes : (f : Writer → Writer) (bs : List ℕ) → Writes f bs → to_bytes f ≡ bs
unfolding to_bytes bytes new
to_bytes-Writes f bs h = ap (λ (w : Writer). w.buf) (h new)

-- A body that a UINT16 cannot measure is an error, however it was written.
pub finish-sized16 :
    (body : List ℕ) (w : Writer) → 2 ^ 16 ≤ length body → finish (sized16 body w) ≡ err Rc.size
unfolding finish sized16 bytes write_u16
finish-sized16 body w h = ground arith

-- Filling the reserved field in gives what writing it first would have.
backfill :
    (pre reserved field body : List ℕ)
    → length reserved ≡ length field
    → copy_from_slice ((pre ++ reserved) ++ body) (length pre) field ≡ (pre ++ field) ++ body
unfolding copy_from_slice
backfill pre reserved field body h = rw (
  append_assoc pre reserved body,
  take-append pre (reserved ++ body),
  drop-drop (length pre) (length field) (pre ++ (reserved ++ body)),
  drop-append pre (reserved ++ body),
  ← h,
  drop-append reserved body,
)

filled :
    (body : List ℕ) (w : Writer)
    → fill_length (length w.buf) (length (write_u16 0 w).buf) (bytes body (write_u16 0 w))
      ≡ sized16 body w
unfolding fill_length sized16 bytes write_u16
filled body w =
    let reserved = to_be_bytes 2 0 in
    let n : length ((w.buf ++ reserved) ++ body) - length (w.buf ++ reserved) ≡ length body =
      omega (arith, length-append (w.buf ++ reserved) body) in
    let two : length reserved ≡ length (to_be_bytes 2 (length body)) =
      length-to_be_bytes 2 0 ∙ sym (length-to_be_bytes 2 (length body)) in
    rw n (ground (arith, backfill w.buf reserved (to_be_bytes 2 (length body)) body two))

-- Reserving a length field, running `f` and filling the length in is `sized16` on the octets that
-- `f` appends: the same buffer, and an overflow in the same cases.
pub sized16_with-sized16 :
    (f : Writer → Writer) (body : List ℕ) (w : Writer)
    → Writes f body
    → sized16_with f w ≡ sized16 body w
unfolding sized16_with
sized16_with-sized16 f body w h = rw (h (write_u16 0 w)) (filled body w)

module _ {ℓ} {A : Type ℓ} (marshal : A → Writer → Writer) (encode : A → List ℕ) where
  pub Writes-marshal_items :
      ((x : A) → Writes (marshal x) (encode x))
      → (xs : List A) → Writes (marshal_items marshal xs) (encode_items encode xs)
  unfolding marshal_items bytes
  Writes-marshal_items h [] w = rw append-nil
  Writes-marshal_items h (x ∷ xs) w = rw (h x w) (
      Writes-marshal_items h xs (bytes (encode x) w)
      ∙ bytes-bytes (encode x) (encode_items encode xs) w)

  pub Writes-marshal_list :
      ((x : A) → Writes (marshal x) (encode x))
      → (xs : List A) → length xs < 2 ^ 32
      → Writes (marshal_list marshal xs) (to_be_bytes 4 (length xs) ++ encode_items encode xs)
  unfolding marshal_list
  Writes-marshal_list h xs word w =
      let e : length xs % 2 ^ 32 ≡ length xs = omega arith in
      rw e (
        Writes_then (write_u32 (length xs)) (marshal_items marshal xs) _ (encode_items encode xs)
          (Writes-write_u32 (length xs)) (Writes-marshal_items h xs) w)
