-- ===== src/Nv/Access.antt =====
-- Writing an Index and reading it back. src/tpm/core/nv.rs.
use swtrust.Base.{
  ℕ, ◌+◌, ◌≤◌, ◌≡◌, refl, sym, ap, ◌∙◌, subst, true, false, not, ◌&&◌, List, ◌++◌, ◌==◌, ltb,
  length, take, drop, arith, length-append, length-take, length-drop, length-replicate, take-append,
  drop-append, Bool-cases, inl, inr, ==→eq, append_assoc,
}
use swtrust.Constants.Rc
use swtrust.Error.{TpmResult, ok, err}
use swtrust.Marshal.Write.{copy_from_slice}
use swtrust.Structures.Attributes
use swtrust.Structures.Attributes.{has, with_bit, set_bit, has-set_bit}
use swtrust.Nv.Index.{NvIndex, Changed, written, set_written, with_data, sized_data, write, read}

length-sized_data : (i : NvIndex) → length (sized_data i) ≡ i.public.data_size
length-sized_data i = elim (Bool-cases (length i.octets == i.public.data_size)) [
  | inl e ↦ rw e (==→eq (length i.octets) i.public.data_size e)
  | inr e ↦ rw e (length-replicate i.public.data_size 0)
]

length-copy_from_slice :
    (dst : List ℕ) (at : ℕ) (src : List ℕ)
    → at + length src ≤ length dst
    → length (copy_from_slice dst at src) ≡ length dst
unfolding copy_from_slice
length-copy_from_slice dst at src h = omega (
  arith,
  length-append (take at dst ++ src) (drop (at + length src) dst),
  length-append (take at dst) src,
  length-take at dst,
  length-drop (at + length src) dst,
)

slice-copy_from_slice :
    (dst : List ℕ) (at : ℕ) (src : List ℕ)
    → at + length src ≤ length dst
    → take (length src) (drop at (copy_from_slice dst at src)) ≡ src
unfolding copy_from_slice
slice-copy_from_slice dst at src h =
    let front : length (take at dst) ≡ at = omega (arith, length-take at dst) in
    let rest = src ++ drop (at + length src) dst in
    let back : drop at (take at dst ++ rest) ≡ rest =
      ap (λ n. drop n (take at dst ++ rest)) (sym front) ∙ drop-append (take at dst) rest in
    rw (append_assoc (take at dst) src (drop (at + length src) dst), back)
      (take-append src (drop (at + length src) dst))

written-set_written : (i : NvIndex) → written (set_written i) ≡ true
unfolding written set_written with_bit set_bit
written-set_written i =
    has-set_bit i.public.attributes Attributes.written Attributes.written true (omega arith)
      (omega arith)

abbrev stored : ℕ → List ℕ → NvIndex → NvIndex
stored offset value i = set_written (with_data (copy_from_slice (sized_data i) offset value) i)

read-ok :
    (offset size : ℕ) (i : NvIndex)
    → written i ≡ true
    → offset + size ≤ i.public.data_size
    → offset + size ≤ length i.octets
    → read offset size i ≡ ok (take size (drop offset i.octets))
unfolding read
read-ok offset size i w h k =
    let a : ltb i.public.data_size (offset + size) ≡ false = ground arith in
    let b : ltb (length i.octets) (offset + size) ≡ false = ground arith in rw (w, a, b)

stored-octets :
    (offset : ℕ) (value : List ℕ) (i : NvIndex)
    → (stored offset value i).octets ≡ copy_from_slice (sized_data i) offset value
unfolding set_written
stored-octets offset value i = refl

stored-size :
    (offset : ℕ) (value : List ℕ) (i : NvIndex)
    → (stored offset value i).public.data_size ≡ i.public.data_size
unfolding set_written
stored-size offset value i = refl

read-stored :
    (offset : ℕ) (value : List ℕ) (i : NvIndex)
    → offset + length value ≤ i.public.data_size
    → read offset (length value) (stored offset value i) ≡ ok value
read-stored offset value i h =
    let n = length-sized_data i in
    let fits : offset + length value ≤ length (sized_data i) = omega (arith, n) in
    let all : length (stored offset value i).octets ≡ i.public.data_size =
      ap length (stored-octets offset value i)
      ∙ length-copy_from_slice (sized_data i) offset value fits
      ∙ n in
    read-ok offset (length value) (stored offset value i) (written-set_written _)
      (omega (arith, stored-size offset value i)) (omega (arith, all))
    ∙ ap ok (
        ap (λ o. take (length value) (drop offset o)) (stored-octets offset value i)
        ∙ slice-copy_from_slice (sized_data i) offset value fits)

abbrev answer : Changed (Unit {0}) → TpmResult (Unit {0})
answer (r, i) = r

abbrev left : Changed (Unit {0}) → NvIndex
left (r, i) = i

-- What a write answers and leaves: it is refused and nothing changes, or it is in range.
data Writes (offset : ℕ) (value : List ℕ) (i : NvIndex) : Changed (Unit {0}) → Type 0 where
  refused : Writes offset value i (err Rc.nv_range, i)
  done :
      offset + length value ≤ i.public.data_size
      → Writes offset value i (ok tt, stored offset value i)

write-Writes :
    (offset : ℕ) (value : List ℕ) (i : NvIndex) → Writes offset value i (write offset value i)
unfolding write
write-Writes offset value i = elim (Bool-cases (ltb i.public.data_size (offset + length value))) [
  | inl t ↦ rw t refused
  | inr a ↦
      elim (Bool-cases
        (has i.public.attributes Attributes.writeall && not (length value == i.public.data_size))) [
          | inl t ↦ rw (a, t) refused
          | inr b ↦ rw (a, b) (done (ground arith))
        ]
]

Writes-read :
    (offset : ℕ) (value : List ℕ) (i : NvIndex) (o : Changed (Unit {0}))
    → Writes offset value i o
    → (i' : NvIndex) → o ≡ (ok tt, i')
    → (read offset (length value) i' ≡ ok value) × (written i' ≡ true)
Writes-read offset value i o refused i' q = cc (ap answer q)
Writes-read offset value i o (done h) i' q =
    subst (λ x. (read offset (length value) x ≡ ok value) × (written x ≡ true)) (ap left q)
      (read-stored offset value i h, written-set_written _)

-- What is written is read back: after a write that succeeds, reading as many octets at its offset
-- gives the octets, whatever the Index held before, and the Index is written.
pub write-read :
    (offset : ℕ) (value : List ℕ) (i i' : NvIndex)
    → write offset value i ≡ (ok tt, i')
    → (read offset (length value) i' ≡ ok value) × (written i' ≡ true)
write-read offset value i i' q = Writes-read offset value i _ (write-Writes offset value i) i' q
