-- ===== src/Commands/Policy/Restricted.antt =====
-- The restrictions that a policy session of src/tpm/core/session.rs carries, and the slot that some of
-- them share.
use swtrust.Base.{
  ℕ, ◌+◌, ◌≤◌, ◌≡◌, ◌≢◌, ◌⊎◌, inl, inr, refl, ap, Bool, true, false, not, ◌&&◌, ◌||◌, Option, none,
  some, List, ◌==◌, arith,
}
use swtrust.Base.Bits.{test_bit, test_bit-and}
use swtrust.Constants.Cc
use swtrust.Constants.Handles
use swtrust.Sessions.Policy.{PolicyState}
use swtrust.Sessions.Session.{Session}
use swtrust.Commands.Policy.Steps.{is_some, is_value, narrowed}
use swtrust.Commands.Policy.Plans.{wrong_counter}
use swtrust.Commands.Policy.Trials.{equal_octets}

-- A value that was recorded is recorded still.
abbrev pub Stays {ℓ} : {A : Type ℓ} → Option A → Option A → Type ℓ
Stays x y = (x ≡ none) ⊎ (y ≡ x)

-- Every locality that the second mask allows is allowed by the first, and some is, where the first
-- allowed one.
abbrev pub Narrows : Option ℕ → Option ℕ → Type 0
Narrows none m = Unit {0}
Narrows (some l) none = ⊥
Narrows (some l) (some m) =
    ((k : ℕ) → (test_bit m k && test_bit l k) ≡ test_bit m k) × ((l ≡ 0) ⊎ (m ≢ 0))

pub record Restricts (p q : PolicyState) : Type 0 where
  pub cp_hash : Stays p.cp_hash q.cp_hash
  pub name_hash : Stays p.name_hash q.name_hash
  pub template_hash : Stays p.template_hash q.template_hash
  pub parameters_hash : Stays p.parameters_hash q.parameters_hash
  pub pcr_update_counter : Stays p.pcr_update_counter q.pcr_update_counter
  pub nv_written : Stays p.nv_written q.nv_written
  pub command_code : Stays p.command_code q.command_code ⊎ (q.command_code ≡ some Cc.duplicate)
  pub locality : Narrows p.locality q.locality
  pub presence : (p.physical_presence_required ≡ false) ⊎ (q.physical_presence_required ≡ true)
  pub proof :
      ((p.auth_value_needed || p.password_needed) ≡ false)
      ⊎ ((q.auth_value_needed || q.password_needed) ≡ true)

abbrev pub one_if : Bool → ℕ
one_if true = 1
one_if false = 0

-- How many uses are made of the octets that a bound entity and four kinds of hash share.
abbrev pub held : Session → ℕ
held s =
    one_if (not (s.bind == Handles.rh_null))
    + one_if (is_some s.policy.cp_hash)
    + one_if (is_some s.policy.name_hash)
    + one_if (is_some s.policy.parameters_hash)
    + one_if (is_some s.policy.template_hash)

pub record IsExclusive (s : Session) : Type 0 where
  pub slot : held s ≤ 1
  pub proof : (s.policy.auth_value_needed && s.policy.password_needed) ≡ false

abbrev pub with_policy : Session → PolicyState → Session
with_policy s p = record s { policy = p }

pub Narrows-refl : (o : Option ℕ) → Narrows o o
Narrows-refl none = tt
Narrows-refl (some l) = (λ k. ground arith, ground arith)

pub Restricts-refl : (p : PolicyState) → Restricts p p
Restricts-refl p = record {
  cp_hash = inr refl;
  name_hash = inr refl;
  template_hash = inr refl;
  parameters_hash = inr refl;
  pcr_update_counter = inr refl;
  nv_written = inr refl;
  command_code = inl (inr refl);
  locality = Narrows-refl p.locality;
  presence = ground arith;
  proof = ground arith;
}

pub is_value-some : (o : Option (List ℕ)) (h : List ℕ) → is_value o h ≡ true → o ≡ some h
is_value-some none h e = cc e
is_value-some (some v) h e = elim (equal_octets v h) [ inl n ↦ cc | inr q ↦ ap some q ]

pub counter-Stays : (o : Option ℕ) (n : ℕ) → wrong_counter o n ≡ false → Stays o (some n)
counter-Stays none n e = inl refl
counter-Stays (some old) n e = inr (ground arith)

pub narrowed-Narrows :
    (o : Option ℕ) (l : ℕ) → (l == 0 || narrowed o l == 0) ≡ false → Narrows o (some (narrowed o l))
narrowed-Narrows none l e = tt
narrowed-Narrows (some old) l e =
    (λ k. ground (arith, test_bit-and k old l), inr (λ q. ground (arith, q)))
