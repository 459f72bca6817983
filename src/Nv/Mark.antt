-- ===== src/Nv/Mark.antt =====
-- What defining and removing an Index does to the mark and to the Indices. src/tpm/core/nv.rs.
use swtrust.Base.{
  ℕ, ◌≤◌, ◌≡◌, ◌≢◌, ◌⊎◌, refl, sym, ap, ◌∙◌, Bool, true, false, ◌&&◌, none, some, ◌==◌, ltb,
  if◌then◌else◌, arith, inl, inr, Bool-cases, eq-cases, eq→==, ne→==,
}
use swtrust.Base.Maps.{Map, lookup, insert, remove, contains_key, lookup-insert, lookup-remove}
use swtrust.Error.{TpmResult, ok, err}
use swtrust.Structures.Attributes
use swtrust.Structures.Attributes.{has, set_bit, has-set_bit}
use swtrust.Nv.Index.{
  NvIndex, Changed, index_type, written, set_written, counter_value, with_data, next_value,
  store_value,
}
use swtrust.Nv.Index
use swtrust.Nv.Store.{NvStore, define, keep_mark, is_nv_handle, available, raise_to}

pub raised_mark :
    (t : Bool) (r : TpmResult ℕ) (s : NvStore)
    → s.highest_counter ≤ (if t then raise_to s r else s).highest_counter
raised_mark true (ok v) s = omega arith
raised_mark true (err e) s = omega arith
raised_mark false r s = omega arith

pub raised_indices :
    (t : Bool) (r : TpmResult ℕ) (s : NvStore) → (if t then raise_to s r else s).indices ≡ s.indices
raised_indices true (ok v) s = refl
raised_indices true (err e) s = refl
raised_indices false r s = refl

pub keep_mark-mark :
    (i : NvIndex) (s : NvStore) → s.highest_counter ≤ (keep_mark i s).highest_counter
unfolding keep_mark
keep_mark-mark i s =
    raised_mark ((index_type i == Attributes.counter) && written i) (counter_value i) s

pub keep_mark-indices : (i : NvIndex) (s : NvStore) → (keep_mark i s).indices ≡ s.indices
unfolding keep_mark
keep_mark-indices i s =
    raised_indices ((index_type i == Attributes.counter) && written i) (counter_value i) s

-- What a lookup finds after an insert: what was inserted, or what was there.
pub found_inserted :
    (handle k : ℕ) (j i : NvIndex) (m : Map NvIndex)
    → lookup handle (insert k j m) ≡ some i
    → ((k ≡ handle) × (j ≡ i)) ⊎ (k ≢ handle) × (lookup handle m ≡ some i)
found_inserted handle k j i m q = elim (eq-cases k handle) [
  | inl e ↦
      let q' : some j ≡ some i =
        sym (ap (λ t. if t then some j else lookup handle m) (eq→== k handle e))
        ∙ sym (lookup-insert k handle j m)
        ∙ q in
      inl (e, cc q')
  | inr n ↦ inr (
    n,
    sym (ap (λ t. if t then some j else lookup handle m) (ne→== k handle n))
        ∙ sym (lookup-insert k handle j m)
        ∙ q,
  )
]

pub found_removed :
    (handle k : ℕ) (i : NvIndex) (m : Map NvIndex)
    → lookup handle (remove k m) ≡ some i
    → lookup handle m ≡ some i
found_removed handle k i m q = elim (Bool-cases (k == handle)) [
  | inl e ↦
      let wrong : none ≡ some i =
        sym (ap (λ t. if t then none else lookup handle m) e)
        ∙ sym (lookup-remove k handle m)
        ∙ q in
      cc wrong
  | inr e ↦
      sym (ap (λ t. if t then none else lookup handle m) e) ∙ sym (lookup-remove k handle m) ∙ q
]

-- A definition: the store is one with the mark raised, or one with the Index put in as well.
pub data Defines (i : NvIndex) (s : NvStore) : NvStore → Type 0 where
  refused : Defines i s (keep_mark i s)
  put :
      Defines i s
        (record (keep_mark i s) { indices = insert i.public.nv_index i (keep_mark i s).indices })

pub define-Defines : (i : NvIndex) (s : NvStore) → Defines i s (define i s).1
unfolding define
define-Defines i s = elim (Bool-cases (is_nv_handle i.public.nv_index)) [
  | inr n ↦ rw n refused
  | inl a ↦ elim (Bool-cases (contains_key i.public.nv_index (keep_mark i s).indices)) [
    | inl b ↦ rw (a, b) refused
    | inr b ↦ elim (Bool-cases (ltb (available (keep_mark i s)) (Index.footprint i))) [
      | inl d ↦ rw (a, b, d) refused
      | inr d ↦ rw (a, b, d) put
    ]
  ]
]
