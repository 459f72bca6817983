-- ===== src/Sessions/Cycles.antt =====
-- The slots at the start, over a flush of what is loaded and over a power cycle.
-- src/tpm/core/session.rs.
use swtrust.Base.{
  ℕ, suc, ◌+◌, ◌≤◌, ◌≡◌, ◌⊎◌, inl, inr, refl, Option, none, some, [], ◌∷◌, length, arith,
}
use swtrust.Base.Maps.{
  Map, lookup, insert, lookup-insert, length-insert, SortedFrom, insert-SortedFrom, lookup_below,
  contains_key,
}
use swtrust.Sessions.Slots.{SessionSlots, new, active, next_object_id, or_else}
use swtrust.Sessions.Moves.{saved_contexts, collect, restore_saved_contexts, flush_loaded}
use swtrust.Sessions.Status.{absent, status, status_of}
use swtrust.Sessions.Coherent.{IsCoherent}
use swtrust.Sessions.Histories.{power_cycled, IsValid, Keeps}
use swtrust.Sessions.Preserved.{shrink-Keeps}

pub lookup-collect :
    (h low : ℕ) (m acc : Map ℕ)
    → SortedFrom low m
    → lookup h (collect acc m) ≡ or_else (lookup h m) (lookup h acc)
unfolding collect lookup
lookup-collect h low [] acc s = refl
lookup-collect h low ((k, id) ∷ m) acc s = ground (
  arith,
  lookup-collect h (suc k) m (insert k id acc) s.1,
  lookup-insert k h id acc,
  lookup_below (suc k) h m s.1,
)

collect-SortedFrom : (acc m : Map ℕ) → SortedFrom 0 acc → SortedFrom 0 (collect acc m)
unfolding collect
collect-SortedFrom acc [] s = s
collect-SortedFrom acc ((k, id) ∷ m) s =
    collect-SortedFrom (insert k id acc) m (insert-SortedFrom 0 k id acc (omega arith) s)

length-collect : (acc m : Map ℕ) → length (collect acc m) ≤ length acc + length m
unfolding collect
length-collect acc [] = omega arith
length-collect acc ((k, id) ∷ m) =
    omega (arith, length-collect (insert k id acc) m, length-insert k id acc)

new-IsCoherent : IsCoherent new
unfolding new active lookup contains_key
new-IsCoherent = record {
  numbered = λ h. refl;
  keyed = λ h y e. cc;
  disjoint = λ h id e. refl;
  ordered = tt;
  sorted = tt;
  few_loaded = omega arith;
  few_active = omega arith;
}

pub new-IsValid : IsValid new
unfolding new status lookup
new-IsValid = record {
  coherent = new-IsCoherent;
  numbers = record {
    below = λ h id e. cc;
    distinct = λ h k id p q. cc;
    indexed = λ h k p q e. cc;
    ranged = λ h p. cc;
  };
  word = omega arith;
}

-- What is left of a status where the sessions in memory are lost.
memory_lost :
    (o away : Option ℕ)
    → ((id : ℕ) → away ≡ some id → o ≡ none)
    → (status_of none away ≡ absent) ⊎ (status_of none away ≡ status_of o away)
memory_lost o none h = inl refl
memory_lost o (some id) h = inr (rw (h id refl))

pub nothing_else : (o : Option ℕ) → or_else o none ≡ o
nothing_else none = refl
nothing_else (some v) = refl

pub unloaded-Keeps : (s : SessionSlots) → IsValid s → Keeps s (flush_loaded s)
unfolding flush_loaded status lookup contains_key active
unloaded-Keeps s v =
    shrink-Keeps s (flush_loaded s) v refl
      (λ k. memory_lost (lookup k s.version) (lookup k s.saved) (v.coherent.disjoint k))
      (record {
        numbered = λ h. refl;
        keyed = λ h y e. cc;
        disjoint = λ h id e. refl;
        ordered = tt;
        sorted = v.coherent.sorted;
        few_loaded = omega arith;
        few_active = omega (arith, v.coherent.few_active);
      })

pub cycled-Keeps : (s : SessionSlots) → IsValid s → Keeps s (power_cycled s)
unfolding restore_saved_contexts saved_contexts new status lookup contains_key active
cycled-Keeps s v =
    shrink-Keeps s (power_cycled s) v refl
      (λ k.
        rw (lookup-collect k 0 s.saved [] v.coherent.sorted, nothing_else (lookup k s.saved))
          (memory_lost (lookup k s.version) (lookup k s.saved) (v.coherent.disjoint k)))
      (record {
        numbered = λ h. refl;
        keyed = λ h y e. cc;
        disjoint = λ h id e. refl;
        ordered = tt;
        sorted = collect-SortedFrom [] s.saved tt;
        few_loaded = omega arith;
        few_active = omega (arith, length-collect [] s.saved, v.coherent.few_active);
      })

pub object-Keeps : (s : SessionSlots) → IsValid s → Keeps s (next_object_id s).1
unfolding next_object_id status active
object-Keeps s v =
    shrink-Keeps s (next_object_id s).1 v refl (λ k. inr refl)
      (record {
        numbered = v.coherent.numbered;
        keyed = v.coherent.keyed;
        disjoint = v.coherent.disjoint;
        ordered = v.coherent.ordered;
        sorted = v.coherent.sorted;
        few_loaded = v.coherent.few_loaded;
        few_active = v.coherent.few_active;
      })
