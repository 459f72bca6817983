-- ===== src/Pcr/Rewrite.antt =====
-- Operations of `PcrBanks` that give every register of every bank a value by its number,
-- src/tpm/core/pcr.rs: what is read after them, and that the banks stay well formed.
use swtrust.Base.{
  ℕ, zero, suc, ◌+◌, ◌≡◌, refl, ap, sym, ◌∙◌, subst, Option, none, some, List, [], ◌∷◌, length,
  get_elem?, All, arith, inl, inr, Option-cases,
}
use swtrust.Base.Maps.{Map, lookup, map_values, lookup-map_values}
use swtrust.Error.{TpmResult, ok, err}
use swtrust.Crypto.Hash.{Crypto, output_len, algorithm}
use swtrust.Pcr.Banks.{PcrBanks, map_from, read, register, found}
use swtrust.Pcr.Valid.{IsBank, IsValid}
use mathlib.Core.Option

abbrev pub map_ok : {A B : Type 0} → (A → B) → TpmResult A → TpmResult B
map_ok f (ok a) = ok (f a)
map_ok f (err e) = err e

pub get_elem?-map_from :
    (i : ℕ) (f : ℕ → List ℕ → List ℕ) (xs : List (List ℕ)) (j : ℕ)
    → get_elem? (map_from i f xs) j ≡ Option.map (f (i + j)) (get_elem? xs j)
unfolding map_from
get_elem?-map_from i f [] j = refl
get_elem?-map_from i f (x ∷ xs) zero = ap (λ n. some (f n x)) (omega arith)
get_elem?-map_from i f (x ∷ xs) (suc j) =
    get_elem?-map_from (i + 1) f xs j ∙ ap (λ n. Option.map (f n) (get_elem? xs j)) (omega arith)

length-map_from :
    (i : ℕ) (f : ℕ → List ℕ → List ℕ) (xs : List (List ℕ)) → length (map_from i f xs) ≡ length xs
unfolding map_from
length-map_from i f [] = refl
length-map_from i f (x ∷ xs) = ap suc (length-map_from (i + 1) f xs)

All-map_from :
    (P : List ℕ → Type 0) (i : ℕ) (f : ℕ → List ℕ → List ℕ) (xs : List (List ℕ))
    → ((k : ℕ) (x : List ℕ) → P x → P (f k x))
    → All P xs
    → All P (map_from i f xs)
unfolding map_from
All-map_from P i f [] h a = tt
All-map_from P i f (x ∷ xs) h a = (h i x a.0, All-map_from P (i + 1) f xs h a.1)

-- Every register of every bank gets the value that `g` gives it by its bank and number.
abbrev pub rewrite : (ℕ → ℕ → List ℕ → List ℕ) → PcrBanks → PcrBanks
rewrite g b = record b { banks = map_values (λ a. map_from 0 (g a)) b.banks }

zero_first : (j : ℕ) → 0 + j ≡ j
zero_first j = omega arith

register-map_from :
    (g : ℕ → List ℕ → List ℕ) (o : Option (List (List ℕ))) (j : ℕ)
    → register (Option.map (map_from 0 g) o) j ≡ map_ok (g j) (register o j)
register-map_from g none j = refl
register-map_from g (some bank) j =
    ap found (get_elem?-map_from 0 g bank j)
    ∙ ap (λ n. found (Option.map (g n) (get_elem? bank j))) (zero_first j)
    ∙ (elim (get_elem? bank j) as (λ o. found (Option.map (g j) o) ≡ map_ok (g j) (found o)) [
      | none ↦ refl
      | some v ↦ refl
    ])

pub read-rewrite :
    (g : ℕ → ℕ → List ℕ → List ℕ) (b : PcrBanks) (a j : ℕ)
    → read (rewrite g b) a j ≡ map_ok (g a j) (read b a j)
unfolding read
read-rewrite g b a j =
    ap (λ o. register o j) (lookup-map_values (λ x. map_from 0 (g x)) a b.banks)
    ∙ register-map_from (g a) (lookup a b.banks) j

-- A bank that a lookup finds after it is rewritten was there before.
lookup-rewrite :
    (f : ℕ → List (List ℕ) → List (List ℕ)) (m : Map (List (List ℕ))) (a : ℕ) {r : List (List ℕ)}
    → lookup a (map_values f m) ≡ some r
    → (s : List (List ℕ)) × (lookup a m ≡ some s) × (f a s ≡ r)
lookup-rewrite f m a {r} q = elim (Option-cases (lookup a m)) [
  | inl e ↦
      let wrong : none ≡ some r =
        ap (Option.map (f a)) (sym e) ∙ sym (lookup-map_values f a m) ∙ q in
      cc wrong
  | inr (s, e) ↦
      let same : some (f a s) ≡ some r =
        ap (Option.map (f a)) (sym e) ∙ sym (lookup-map_values f a m) ∙ q in
      (s, e, cc same)
]

-- Banks that are rewritten one by one, each to a bank that is right for its algorithm.
pub banks-IsValid :
    (c : Crypto) (f : ℕ → List (List ℕ) → List (List ℕ)) (b : PcrBanks)
    → IsValid c b
    → ((a : ℕ) (r : List (List ℕ)) → IsBank c a r → IsBank c a (f a r))
    → IsValid c (record b { banks = map_values f b.banks })
banks-IsValid c f b h k = record {
  bank = λ a q.
      let (s, e, p) = lookup-rewrite f b.banks a q in subst (IsBank c a) p (k a s (h.bank a e));
  flagged = λ a q.
      let (s, e) = h.flagged a q in
      (f a s, lookup-map_values f a b.banks ∙ ap (Option.map (f a)) e);
}

pub rewrite-IsValid :
    (c : Crypto) (g : ℕ → ℕ → List ℕ → List ℕ) (b : PcrBanks)
    → IsValid c b
    → ((a k : ℕ) (x : List ℕ)
        → algorithm c a ≡ ok a
        → length x ≡ output_len a
        → length (g a k x) ≡ output_len a)
    → IsValid c (rewrite g b)
rewrite-IsValid c g b h l =
    banks-IsValid c (λ a. map_from 0 (g a)) b h
      λ a s k. record {
        supported = k.supported;
        count = length-map_from 0 (g a) s ∙ k.count;
        sizes =
            All-map_from (λ x. length x ≡ output_len a) 0 (g a) s (λ i x z. l a i x k.supported z)
              k.sizes;
      }
