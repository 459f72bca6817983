-- ===== src/Nv/Increment.antt =====
-- What an increment that succeeds gives and leaves. src/tpm/core/nv.rs.
use swtrust.Base.{
  ℕ, ◌+◌, ◌-◌, ◌%◌, ◌^◌, ◌<◌, ◌≡◌, ◌⊎◌, refl, sym, ap, ◌∙◌, true, false, not, Option, none, some,
  ◌==◌, if◌then◌else◌, max, min, inl, inr, Bool-cases,
}
use swtrust.Base.Maps.{lookup, insert}
use swtrust.Constants.Rc
use swtrust.Error.{TpmResult, ok, err, ◌>>=◌, >>=-eq-ok}
use swtrust.Marshal.Bytes.{to_be_bytes, from_be_bytes-to_be_bytes, length-to_be_bytes}
use swtrust.Structures.Attributes
use swtrust.Structures.Attributes.{has, set_bit, has-set_bit}
use swtrust.Nv.Index.{
  NvIndex, Changed, index_type, written, set_written, counter_value, with_data, next_value,
  store_value,
}
use swtrust.Nv.Index
use swtrust.Nv.Store.{NvStore, increment, increment_at, incremented}

abbrev pub answer : Changed ℕ → TpmResult ℕ
answer (r, i) = r

abbrev pub left : Changed ℕ → NvIndex
left (r, i) = i

pub stored-eq :
    (v : ℕ) (i i' : NvIndex) (r : TpmResult ℕ)
    → store_value i r ≡ (ok v, i')
    → (r ≡ ok v) × (i' ≡ set_written (with_data (to_be_bytes 8 v) i))
stored-eq v i i' (err e) q = cc (ap answer q)
stored-eq v i i' (ok u) q =
    let same : u ≡ v = cc (ap answer q) in
    (
      ap (λ x. ok x) same,
      sym (ap left q) ∙ ap (λ x. set_written (with_data (to_be_bytes 8 x) i)) same,
    )

-- What a counter Index answers and leaves when it is incremented.
pub increment-eq :
    (floor v : ℕ) (i i' : NvIndex)
    → Index.increment floor i ≡ (ok v, i')
    → (next_value floor i ≡ ok v) × (i' ≡ set_written (with_data (to_be_bytes 8 v) i))
unfolding Index.increment
increment-eq floor v i i' e = elim (Bool-cases (index_type i == Attributes.counter)) [
  | inr n ↦
      let wrong : err Rc.attributes ≡ ok v = ap answer (
        sym
          (ap (λ t. if not t then (err Rc.attributes, i) else store_value i (next_value floor i)) n)
        ∙ e) in
      cc wrong
  | inl t ↦ stored-eq v i i' (next_value floor i) (
      sym (ap (λ t. if not t then (err Rc.attributes, i) else store_value i (next_value floor i)) t)
      ∙ e)
]

abbrev pub store_answer : TpmResult ℕ × NvStore → TpmResult ℕ
store_answer (r, s) = r

abbrev pub store_left : TpmResult ℕ × NvStore → NvStore
store_left (r, s) = s

-- The store after `v` was given.
abbrev pub after : ℕ → ℕ → NvIndex → NvStore → NvStore
after handle v i s = record {
  indices = insert handle (set_written (with_data (to_be_bytes 8 v) i)) s.indices;
  highest_counter = max s.highest_counter v;
}

pub incremented-eq :
    (handle v : ℕ) (s s' : NvStore) (i : NvIndex) (r : Changed ℕ)
    → Index.increment s.highest_counter i ≡ r
    → incremented handle s r ≡ (ok v, s')
    → (next_value s.highest_counter i ≡ ok v) × (s' ≡ after handle v i s)
incremented-eq handle v s s' i (err x, j) p q = cc (ap store_answer q)
incremented-eq handle v s s' i (ok u, j) p q =
    let same : u ≡ v = cc (ap store_answer q) in
    let (n, k) = increment-eq s.highest_counter v i j (p ∙ ap (λ x. (ok x, j)) same) in
    (
      n,
      sym (ap store_left q)
          ∙ ap
              (λ x. record {
                indices = insert handle j s.indices;
                highest_counter = max s.highest_counter x;
              })
              same
          ∙ ap
              (λ x. record {
                indices = insert handle x s.indices;
                highest_counter = max s.highest_counter v;
              })
              k,
    )

pub found-eq :
    (handle v : ℕ) (s s' : NvStore) (o : Option NvIndex)
    → increment_at handle s o ≡ (ok v, s')
    → (i : NvIndex) × (o ≡ some i)
      × (next_value s.highest_counter i ≡ ok v)
      × (s' ≡ after handle v i s)
found-eq handle v s s' none q = cc (ap store_answer q)
found-eq handle v s s' (some i) q =
    let (n, p) = incremented-eq handle v s s' i (Index.increment s.highest_counter i) refl q in
    (i, refl, n, p)

pub increment_at-eq :
    (handle : ℕ) (s s' : NvStore) (v : ℕ)
    → increment handle s ≡ (ok v, s')
    → (i : NvIndex) × (lookup handle s.indices ≡ some i)
      × (next_value s.highest_counter i ≡ ok v)
      × (s' ≡ after handle v i s)
unfolding increment
increment_at-eq handle s s' v e = found-eq handle v s s' (lookup handle s.indices) e

-- The next value of a counter: one past its own, or one past the mark if it has none.
pub next_value-eq :
    (floor v : ℕ) (i : NvIndex)
    → next_value floor i ≡ ok v
    → ((written i ≡ true) × (w : ℕ) × (counter_value i ≡ ok w) × (v ≡ (w + 1) % 2 ^ 64))
      ⊎ ((written i ≡ false) × (v ≡ min (floor + 1) (2 ^ 64 - 1)))
unfolding next_value
next_value-eq floor v i e = elim (Bool-cases (written i)) [
  | inl t ↦
      let (w, c, q) =
        >>=-eq-ok (counter_value i) (λ x. ok ((x + 1) % 2 ^ 64))
          (sym (
              ap
                (λ t.
                  if t
                  then (counter_value i >>= λ x. ok ((x + 1) % 2 ^ 64))
                  else ok (min (floor + 1) (2 ^ 64 - 1)))
                t)
            ∙ e) in
      let same : v ≡ (w + 1) % 2 ^ 64 = cc q in inl (t, w, c, same)
  | inr n ↦
      let q : ok (min (floor + 1) (2 ^ 64 - 1)) ≡ ok v =
        sym (
          ap
            (λ t.
              if t
              then (counter_value i >>= λ x. ok ((x + 1) % 2 ^ 64))
              else ok (min (floor + 1) (2 ^ 64 - 1)))
            n)
        ∙ e in
      let same : v ≡ min (floor + 1) (2 ^ 64 - 1) = cc q in inr (n, same)
]

pub counter_value-stored :
    (v : ℕ) (i : NvIndex)
    → v < 2 ^ 64
    → counter_value (set_written (with_data (to_be_bytes 8 v) i)) ≡ ok v
unfolding counter_value set_written
counter_value-stored v i h = rw (length-to_be_bytes 8 v, from_be_bytes-to_be_bytes 8 v h)
