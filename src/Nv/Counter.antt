-- ===== src/Nv/Counter.antt =====
-- The values that a counter Index gives out, over every life of its handle. src/tpm/core/nv.rs.
use swtrust.Base.{
  ℕ, ◌+◌, ◌^◌, ◌≤◌, ◌<◌, ◌≡◌, ◌≢◌, ◌⊎◌, refl, sym, ap, ◌∙◌, subst, true, false, Option, none, some,
  List, [], ◌∷◌, max, All, arith, inl, inr,
}
use swtrust.Base.Maps.{lookup, remove}
use swtrust.Error.{ok, err}
use swtrust.Marshal.Bytes.{to_be_bytes}
use swtrust.Nv.Index.{
  NvIndex, Changed, index_type, written, set_written, counter_value, with_data, next_value,
  store_value,
}
use swtrust.Nv.Index
use swtrust.Nv.Store.{
  NvStore, new, define, undefine, increment, increment_at, incremented, keep_mark, removed,
}
use swtrust.Nv.Mark.{
  keep_mark-mark, keep_mark-indices, found_inserted, found_removed, Defines, refused, put,
  define-Defines,
}
use swtrust.Nv.Increment.{increment_at-eq, next_value-eq, counter_value-stored}

-- The store after the operations, and what the increments at `handle` gave, the newest first.
-- Indices are defined unwritten, as TPM2_NV_DefineSpace does; the mark does not reach the end of
-- 64 bits.
pub data Reach (handle : ℕ) : NvStore → List ℕ → Type 0 where
  empty : Reach handle new []
  defined :
      {s : NvStore} {given : List ℕ} (i : NvIndex)
      → Reach handle s given
      → written i ≡ false
      → Reach handle (define i s).1 given
  undefined :
      {s : NvStore} {given : List ℕ} (other : ℕ)
      → Reach handle s given
      → Reach handle (undefine other s).1 given
  counted :
      {s s' : NvStore} {given : List ℕ} (value : ℕ)
      → Reach handle s given
      → s.highest_counter + 1 < 2 ^ 64
      → increment handle s ≡ (ok value, s')
      → Reach handle s' (value ∷ given)
  counted_other :
      {s : NvStore} {given : List ℕ} (other : ℕ)
      → Reach handle s given
      → other ≢ handle
      → Reach handle (increment other s).1 given

-- Each value is greater than those before it.
abbrev pub Rises : List ℕ → Type 0
Rises [] = Unit {0}
Rises (v ∷ vs) = All (λ w. w < v) vs × Rises vs

record Inv (handle : ℕ) (s : NvStore) (given : List ℕ) : Type 0 where
  marked : All (λ v. v ≤ s.highest_counter) given
  current :
      (i : NvIndex) (w : ℕ)
      → lookup handle s.indices ≡ some i
      → written i ≡ true
      → counter_value i ≡ ok w
      → All (λ v. v ≤ w) given × (w ≤ s.highest_counter)
  rises : Rises given

All-le : (m n : ℕ) (vs : List ℕ) → m ≤ n → All (λ v. v ≤ m) vs → All (λ v. v ≤ n) vs
All-le m n [] h a = tt
All-le m n (v ∷ vs) h a = (omega (arith, a.0), All-le m n vs h a.1)

All-lt : (m n : ℕ) (vs : List ℕ) → m < n → All (λ v. v ≤ m) vs → All (λ v. v < n) vs
All-lt m n [] h a = tt
All-lt m n (v ∷ vs) h a = (omega (arith, a.0), All-lt m n vs h a.1)

-- The mark may rise, and the Index at the handle may stay or go.
Inv-weaken :
    (handle : ℕ) (s s' : NvStore) (given : List ℕ)
    → Inv handle s given
    → s.highest_counter ≤ s'.highest_counter
    → ((i : NvIndex)
        → lookup handle s'.indices ≡ some i
        → (lookup handle s.indices ≡ some i) ⊎ (written i ≡ false))
    → Inv handle s' given
Inv-weaken handle s s' given h up same = record {
  marked = All-le s.highest_counter s'.highest_counter given up h.marked;
  current = λ i w e t v. elim (same i e) [
    | inl e' ↦ let (a, b) = h.current i w e' t v in (a, omega (arith, b, up))
    | inr f ↦ cc
  ];
  rises = h.rises;
}

All-lt_le : (m n : ℕ) (vs : List ℕ) → m ≤ n → All (λ v. v < m) vs → All (λ v. v ≤ n) vs
All-lt_le m n [] h a = tt
All-lt_le m n (v ∷ vs) h a = (omega (arith, a.0), All-lt_le m n vs h a.1)

Inv-define :
    (handle : ℕ) (i : NvIndex) (s s' : NvStore) (given : List ℕ)
    → Inv handle s given
    → written i ≡ false
    → Defines i s s'
    → Inv handle s' given
Inv-define handle i s s' given h f refused =
    Inv-weaken handle s (keep_mark i s) given h (keep_mark-mark i s)
      λ j e. inl (sym (ap (lookup handle) (keep_mark-indices i s)) ∙ e)
Inv-define handle i s s' given h f put = Inv-weaken handle s _ given h (keep_mark-mark i s) λ j e.
    elim (found_inserted handle i.public.nv_index i j (keep_mark i s).indices e) [
      | inl p ↦ inr (subst (λ x. written x ≡ false) p.1 f)
      | inr p ↦ inl (sym (ap (lookup handle) (keep_mark-indices i s)) ∙ p.1)
    ]

Inv-removed :
    (handle other : ℕ) (s : NvStore) (given : List ℕ) (o : Option NvIndex)
    → Inv handle s given
    → Inv handle (removed other s o).1 given
Inv-removed handle other s given none h = h
Inv-removed handle other s given (some i) h =
    let t : NvStore = record s { indices = remove other s.indices } in
    Inv-weaken handle s (keep_mark i t) given h (keep_mark-mark i t) λ j e. inl (
      found_removed handle other j s.indices (sym (ap (lookup handle) (keep_mark-indices i t)) ∙ e))

Inv-undefine :
    (handle other : ℕ) (s : NvStore) (given : List ℕ)
    → Inv handle s given
    → Inv handle (undefine other s).1 given
unfolding undefine
Inv-undefine handle other s given h = Inv-removed handle other s given (lookup other s.indices) h

-- Incrementing another Index.
Inv-incremented :
    (handle other : ℕ) (s : NvStore) (given : List ℕ) (r : Changed ℕ)
    → Inv handle s given
    → other ≢ handle
    → Inv handle (incremented other s r).1 given
Inv-incremented handle other s given (ok v, i) h n =
    Inv-weaken handle s _ given h (omega arith) λ j e.
      elim (found_inserted handle other i j s.indices e) [
        | inl p ↦ absurd (n p.0)
        | inr p ↦ inl p.1
      ]
Inv-incremented handle other s given (err x, i) h n =
    Inv-weaken handle s _ given h (omega arith) λ j e.
      elim (found_inserted handle other i j s.indices e) [
        | inl p ↦ absurd (n p.0)
        | inr p ↦ inl p.1
      ]

Inv-increment_at :
    (handle other : ℕ) (s : NvStore) (given : List ℕ) (o : Option NvIndex)
    → Inv handle s given
    → other ≢ handle
    → Inv handle (increment_at other s o).1 given
Inv-increment_at handle other s given none h n = h
Inv-increment_at handle other s given (some i) h n =
    Inv-incremented handle other s given (Index.increment s.highest_counter i) h n

Inv-increment :
    (handle other : ℕ) (s : NvStore) (given : List ℕ)
    → Inv handle s given
    → other ≢ handle
    → Inv handle (increment other s).1 given
unfolding increment
Inv-increment handle other s given h n =
    Inv-increment_at handle other s given (lookup other s.indices) h n

-- The value given is past every one before it, and in 64 bits.
increment_value :
    (handle : ℕ) (s : NvStore) (given : List ℕ) (i : NvIndex) (v : ℕ)
    → Inv handle s given
    → s.highest_counter + 1 < 2 ^ 64
    → lookup handle s.indices ≡ some i
    → next_value s.highest_counter i ≡ ok v
    → All (λ x. x < v) given × (v < 2 ^ 64)
increment_value handle s given i v h small q e = elim (next_value-eq s.highest_counter v i e) [
  | inl (t, w, c, p) ↦
      let (below, mark) = h.current i w q t c in
      let one : v ≡ w + 1 = omega (arith, p, mark, small) in
      (All-lt w v given (omega (arith, one)) below, omega (arith, one, mark, small))
  | inr (n, p) ↦
      let one : v ≡ s.highest_counter + 1 = omega (arith, p, small) in
      (All-lt s.highest_counter v given (omega (arith, one)) h.marked, omega (arith, one, small))
]

Inv-counted :
    (handle : ℕ) (s s' : NvStore) (given : List ℕ) (v : ℕ)
    → Inv handle s given
    → s.highest_counter + 1 < 2 ^ 64
    → increment handle s ≡ (ok v, s')
    → Inv handle s' (v ∷ given)
Inv-counted handle s s' given v h small e =
    let (i, q, n, p) = increment_at-eq handle s s' v e in
    let (below, word) = increment_value handle s given i v h small q n in
    let i' : NvIndex = set_written (with_data (to_be_bytes 8 v) i) in
    subst (λ x. Inv handle x (v ∷ given)) (sym p)
      (record {
        marked = (
          omega arith,
          All-le s.highest_counter (max s.highest_counter v) given (omega arith) h.marked,
        );
        current = λ j w r t c. elim (found_inserted handle handle i' j s.indices r) [
          | inr z ↦ absurd (z.0 refl)
          | inl z ↦
              let at : ok v ≡ ok w =
                sym (counter_value-stored v i word) ∙ ap counter_value z.1 ∙ c in
              let same : v ≡ w = cc at in
              (
                (omega (arith, same), All-lt_le v w given (omega (arith, same)) below),
                omega (arith, same),
              )
        ];
        rises = (below, h.rises);
      })

new-Inv : (handle : ℕ) → Inv handle new []
unfolding new lookup
new-Inv handle = record { marked = tt; current = λ i w e t c. cc e; rises = tt }

Reach-Inv : {handle : ℕ} {s : NvStore} {given : List ℕ} → Reach handle s given → Inv handle s given
Reach-Inv {handle} empty = new-Inv handle
Reach-Inv {handle} (defined {s} {given} i h f) =
    Inv-define handle i s _ given (Reach-Inv h) f (define-Defines i s)
Reach-Inv {handle} (undefined {s} {given} other h) = Inv-undefine handle other s given (Reach-Inv h)
Reach-Inv {handle} (counted {s} {s'} {given} value h small e) =
    Inv-counted handle s s' given value (Reach-Inv h) small e
Reach-Inv {handle} (counted_other {s} {given} other h n) =
    Inv-increment handle other s given (Reach-Inv h) n

-- A counter never goes back, also where its Index is undefined and defined again: in every history
-- of definitions, undefinitions and increments the values that the increments at a handle give rise
-- strictly. Indices are defined unwritten, and the mark does not reach the end of 64 bits.
pub counter-Rises : {handle : ℕ} {s : NvStore} {given : List ℕ} → Reach handle s given → Rises given
counter-Rises h = (Reach-Inv h).rises
