-- ===== src/Base/Maps.antt =====
-- Rust's `BTreeMap` with numbers for keys: an association list in key order. `lookup` reads a key,
-- and every other operation is described by what `lookup` reads after it.
use swtrust.Base.Tests.{◌==◌, ltb, if◌then◌else◌, ==→eq, Bool-cases}
use swtrust.Base.Lists.{length}
use Prim.Native.Nat.{ℕ, suc, ◌+◌, ◌≤◌, ◌<◌}
use mathlib.Core.Path.{◌≡◌, refl}
use mathlib.Core.Logic.{inl, inr}
use mathlib.Core.Bool.{Bool, true, false}
use mathlib.Core.Option
use mathlib.Core.Option.{Option, none, some}
use mathlib.Core.List.{List, [], ◌∷◌}
use native.Mathlib.Omega.{arith}

abbrev pub Map {ℓ} : Type ℓ → Type ℓ
Map V = List (ℕ × V)

module _ {ℓ} {V : Type ℓ} where
  unfoldable pub lookup : ℕ → Map V → Option V
  lookup key [] = none
  lookup key ((at, value) ∷ rest) = if at == key then some value else lookup key rest

  -- Keeps the keys in order, and replaces the value of a key that is there.
  unfoldable pub insert : ℕ → V → Map V → Map V
  insert key new [] = (key, new) ∷ []
  insert key new ((at, value) ∷ rest) =
      if at == key
      then (key, new) ∷ rest
      else if ltb key at
      then (key, new) ∷ (at, value) ∷ rest
      else (at, value) ∷ insert key new rest

  unfoldable pub remove : ℕ → Map V → Map V
  remove k [] = []
  remove k ((j, w) ∷ m) = if j == k then remove k m else (j, w) ∷ remove k m

  unfoldable pub keys : Map V → List ℕ
  keys [] = []
  keys ((k, v) ∷ m) = k ∷ keys m

  abbrev pub is_some : Option V → Bool
  is_some none = false
  is_some (some v) = true

  unfoldable pub contains_key : ℕ → Map V → Bool
  contains_key k m = is_some (lookup k m)

  -- `iter_mut` with the key at hand.
  unfoldable pub map_values : (ℕ → V → V) → Map V → Map V
  map_values f [] = []
  map_values f ((k, v) ∷ m) = (k, f k v) ∷ map_values f m

  -- `retain` on the values.
  unfoldable pub retain : (V → Bool) → Map V → Map V
  retain keep [] = []
  retain keep ((k, v) ∷ m) = if keep v then (k, v) ∷ retain keep m else retain keep m

  pub lookup-insert :
      (key asked : ℕ) (new : V) (m : Map V)
      → lookup asked (insert key new m) ≡ (if key == asked then some new else lookup asked m)
  unfolding lookup insert
  lookup-insert key asked new [] = refl
  lookup-insert key asked new ((at, value) ∷ rest) =
      ground (arith, lookup-insert key asked new rest)

  pub lookup-remove :
      (k j : ℕ) (m : Map V) → lookup j (remove k m) ≡ (if k == j then none else lookup j m)
  unfolding lookup remove
  lookup-remove k j [] = ground arith
  lookup-remove k j ((i, w) ∷ m) = ground (arith, lookup-remove k j m)

  pub lookup-map_values :
      (f : ℕ → V → V) (j : ℕ) (m : Map V)
      → lookup j (map_values f m) ≡ Option.map (f j) (lookup j m)
  unfolding lookup map_values
  lookup-map_values f j [] = refl
  lookup-map_values f j ((i, w) ∷ m) = elim (Bool-cases (i == j)) [
    | inl e ↦ rw (e, ==→eq i j e)
    | inr e ↦ rw (e, lookup-map_values f j m)
  ]

  pub length-insert : (k : ℕ) (v : V) (m : Map V) → length (insert k v m) ≤ length m + 1
  unfolding insert
  length-insert k v [] = omega arith
  length-insert k v ((j, w) ∷ m) = ground (arith, length-insert k v m)

  pub length-remove : (k : ℕ) (m : Map V) → length (remove k m) ≤ length m
  unfolding remove
  length-remove k [] = omega arith
  length-remove k ((j, w) ∷ m) = ground (arith, length-remove k m)

  pub length-remove-some :
      (k : ℕ) (v : V) (m : Map V) → lookup k m ≡ some v → length (remove k m) + 1 ≤ length m
  unfolding remove lookup
  length-remove-some k v [] h = cc
  length-remove-some k v ((j, w) ∷ m) h =
      ground (arith, length-remove k m, length-remove-some k v m)

  -- The keys rise from `low` on.
  abbrev pub SortedFrom : ℕ → Map V → Type 0
  SortedFrom low [] = Unit {0}
  SortedFrom low ((k, v) ∷ m) = (low ≤ k) × SortedFrom (suc k) m

  SortedFrom-le : (low high : ℕ) (m : Map V) → low ≤ high → SortedFrom high m → SortedFrom low m
  SortedFrom-le low high [] h s = tt
  SortedFrom-le low high ((k, v) ∷ m) h s = (omega (arith, s.0), s.1)

  pub insert-SortedFrom :
      (low k : ℕ) (v : V) (m : Map V) → low ≤ k → SortedFrom low m → SortedFrom low (insert k v m)
  unfolding insert
  insert-SortedFrom low k v [] h s = (h, tt)
  insert-SortedFrom low k v ((j, w) ∷ m) h s =
      ground (arith, insert-SortedFrom (suc j) k v m, SortedFrom-le (suc k) (suc j) m)

  pub remove-SortedFrom : (low k : ℕ) (m : Map V) → SortedFrom low m → SortedFrom low (remove k m)
  unfolding remove
  remove-SortedFrom low k [] s = tt
  remove-SortedFrom low k ((j, w) ∷ m) s =
      ground (arith, remove-SortedFrom (suc j) k m, SortedFrom-le low (suc j) (remove k m))

  pub lookup_below : (low k : ℕ) (m : Map V) → SortedFrom low m → k < low → lookup k m ≡ none
  unfolding lookup
  lookup_below low k [] s h = refl
  lookup_below low k ((j, w) ∷ m) s h = ground (arith, lookup_below (suc j) k m)

  pub length-insert-some :
      (low k : ℕ) (v w : V) (m : Map V)
      → SortedFrom low m
      → lookup k m ≡ some w
      → length (insert k v m) ≡ length m
  unfolding lookup insert
  length-insert-some low k v w [] s h = cc
  length-insert-some low k v w ((j, x) ∷ m) s h =
      ground (arith, length-insert-some (suc j) k v w m s.1, lookup_below (suc j) k m s.1)
