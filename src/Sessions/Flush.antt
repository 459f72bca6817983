-- ===== src/Sessions/Flush.antt =====
-- Which session a flush takes away: the handle that is written names it by its lower three octets.
-- src/tpm/core/session.rs.
use swtrust.Base.{
  ℕ, ◌+◌, ◌≡◌, ◌≢◌, ◌⊎◌, inl, inr, refl, sym, ap, ◌∙◌, true, false, none, List, [], ◌∷◌, arith,
  Bool-cases, eq-cases,
}
use swtrust.Base.Bits.{bit_or_disjoint}
use swtrust.Base.Maps.{Map, lookup, remove, contains_key}
use swtrust.Constants.Rc
use swtrust.Constants.Se
use swtrust.Error.{ok, err}
use swtrust.Sessions.Slots.{SessionSlots, contains, index_of}
use swtrust.Sessions.Moves.{
  is_session_handle, without, aliased, push_alias, flush_candidates, flush_first, flush,
}
use swtrust.Sessions.Status.{status, is_active, IsNumbered}
use swtrust.Sessions.Coherent.{IsCoherent, contains-status}
use swtrust.Sessions.Handles.{index_of_mod}

remove-none {ℓ} : {V : Type ℓ} (k : ℕ) (m : Map V) → lookup k m ≡ none → remove k m ≡ m
unfolding remove lookup
remove-none k [] h = refl
remove-none k ((j, w) ∷ m) h = ground (arith, remove-none k m)

pub without_none :
    (s : SessionSlots) (h : ℕ) → IsCoherent s → contains s h ≡ false → without s h ≡ s
unfolding contains contains_key
without_none s h v e =
    ground (
      arith,
      v.numbered h,
      remove-none h s.sessions,
      remove-none h s.saved,
      remove-none h s.version,
    )

module _ (s : SessionSlots) (v : IsCoherent s) where
  flush_first_here :
      (c : ℕ) (more : List ℕ) → contains s c ≡ true → flush_first s (c ∷ more) ≡ (ok c, without s c)
  unfolding flush_first
  flush_first_here c more e = rw e

  flush_first_later :
      (c : ℕ) (more : List ℕ) → contains s c ≡ false → flush_first s (c ∷ more) ≡ flush_first s more
  unfolding flush_first
  flush_first_later c more e = rw (e, without_none s c v e)

alias_hmac : (h : ℕ) → aliased Se.hmac_session_first h ≡ 0x0200_0000 + index_of h
alias_hmac h = bit_or_disjoint 24 2 (index_of h) (omega (arith, index_of_mod h))

alias_policy : (h : ℕ) → aliased Se.policy_session_first h ≡ 0x0300_0000 + index_of h
alias_policy h = bit_or_disjoint 24 3 (index_of h) (omega (arith, index_of_mod h))

-- A session handle is one of the two aliases of its index.
session_alias :
    (k h : ℕ)
    → is_session_handle k ≡ true
    → index_of h ≡ index_of k
    → (aliased Se.hmac_session_first h ≡ k) ⊎ (aliased Se.policy_session_first h ≡ k)
unfolding is_session_handle
session_alias k h range same = ground (arith, alias_hmac h, alias_policy h, index_of_mod k)

module _ (s : SessionSlots) (h : ℕ) (v : IsCoherent s) (c : ℕ) (n : IsNumbered (status s) c) where
  active_session : (k : ℕ) → contains s k ≡ true → is_active (status s k) ≡ true
  active_session k there = sym (contains-status s k v) ∙ there

  same_session :
      (j k : ℕ) → contains s j ≡ true → contains s k ≡ true → index_of j ≡ index_of k → j ≡ k
  same_session j k p q e = n.indexed j k (active_session j p) (active_session k q) e

  alias_index :
      (a : ℕ)
      → (a ≡ aliased Se.hmac_session_first h) ⊎ (a ≡ aliased Se.policy_session_first h)
      → index_of a ≡ index_of h
  alias_index a e = omega (arith, alias_hmac h, alias_policy h, index_of_mod a, index_of_mod h)

  -- Where the alias `a` of `h` names no session, it is no candidate.
  no_candidate : (a : ℕ) (more : List ℕ) → contains s a ≡ false → push_alias s h a more ≡ more
  no_candidate a more e = ground (arith, e)

  candidate :
      (a : ℕ) (more : List ℕ) → contains s a ≡ true → h ≢ a → push_alias s h a more ≡ a ∷ more
  candidate a more e apart = ground (arith, e)

  absent_alias :
      (a k : ℕ)
      → (a ≡ aliased Se.hmac_session_first h) ⊎ (a ≡ aliased Se.policy_session_first h)
      → contains s k ≡ true
      → index_of h ≡ index_of k
      → a ≢ k
      → contains s a ≡ false
  absent_alias a k alias there same apart = elim (Bool-cases (contains s a)) [
    | inl p ↦ absurd (apart (same_session a k p there (alias_index a alias ∙ same)))
    | inr p ↦ p
  ]

  flush_self : (k : ℕ) → contains s k ≡ true → flush s k ≡ (ok k, without s k)
  unfolding flush flush_candidates
  flush_self k there = flush_first_here s v k _ there

  absent_here :
      (k : ℕ) → contains s k ≡ true → index_of h ≡ index_of k → h ≢ k → contains s h ≡ false
  absent_here k there same apart = elim (Bool-cases (contains s h)) [
    | inl p ↦ absurd (apart (same_session h k p there same))
    | inr p ↦ p
  ]

  unseen :
      (a : ℕ)
      → index_of a ≡ index_of h
      → ((k : ℕ) → contains s k ≡ true → index_of h ≢ index_of k)
      → contains s a ≡ false
  unseen a e none_there = elim (Bool-cases (contains s a)) [
    | inl p ↦ absurd (none_there a p (sym e))
    | inr p ↦ p
  ]

  second : List ℕ
  second = push_alias s h (aliased Se.policy_session_first h) []

  both : List ℕ
  unfolding second
  both = push_alias s h (aliased Se.hmac_session_first h) second

  flush_away : contains s h ≡ false → flush s h ≡ flush_first s both
  unfolding flush flush_candidates both second
  flush_away away = flush_first_later s v h both away

  flush_alias :
      (k : ℕ)
      → contains s k ≡ true
      → index_of h ≡ index_of k
      → h ≢ k
      → (aliased Se.hmac_session_first h ≡ k) ⊎ (aliased Se.policy_session_first h ≡ k)
      → (rest : List ℕ) × (both ≡ k ∷ rest)
  unfolding both second
  flush_alias k there same apart (inl e) = (second, rw e (candidate k second there apart))
  flush_alias k there same apart (inr e) =
      let a = aliased Se.hmac_session_first h in
      let other : a ≢ k = λ q. omega (arith, alias_hmac h, alias_policy h, q, e) in
      (
        [],
        no_candidate a second (absent_alias a k (inl refl) there same other)
            ∙ rw e (candidate k [] there apart),
      )

  -- A flush takes away the active session whose handle has the lower three octets that were asked
  -- for, whatever the octet above them, and it reports the handle of that session.
  pub flush_names :
      (k : ℕ) → contains s k ≡ true → index_of h ≡ index_of k → flush s h ≡ (ok k, without s k)
  flush_names k there same = decide (eq-cases h k)
    where
      decide : (h ≡ k) ⊎ (h ≢ k) → flush s h ≡ (ok k, without s k)
      decide (inl e) = rw e (flush_self k there)
      decide (inr apart) =
          let range = n.ranged k (active_session k there) in
          let (rest, cands) = flush_alias k there same apart (session_alias k h range same) in
          flush_away (absent_here k there same apart)
          ∙ ap (flush_first s) cands
          ∙ flush_first_here s v k rest there

  -- A handle whose lower three octets no active session has is refused, and nothing changes.
  pub flush_missing :
      ((k : ℕ) → contains s k ≡ true → index_of h ≢ index_of k) → flush s h ≡ (err Rc.handle, s)
  unfolding both second flush_first
  flush_missing none_there =
      let missing = λ (a : ℕ) (e : index_of a ≡ index_of h). unseen a e none_there in
      let a = aliased Se.hmac_session_first h in
      let b = aliased Se.policy_session_first h in
      flush_away (missing h refl)
      ∙ ap (flush_first s) (
          no_candidate a second (missing a (alias_index a (inl refl)))
          ∙ no_candidate b [] (missing b (alias_index b (inr refl))))
