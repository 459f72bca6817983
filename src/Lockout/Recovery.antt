-- ===== src/Lockout/Recovery.antt =====
-- What time takes off the failed tries: the loop of `on_time`, src/tpm/core/state.rs.
use swtrust.Base.{
  ℕ, zero, suc, ◌+◌, ◌*◌, ◌^◌, ◌≤◌, ◌<◌, ◌≡◌, ◌⊎◌, inl, inr, refl, ap, Bool, true, false, leb,
  if◌then◌else◌, arith,
}
use native.Mathlib.Nat.{suc-mul, one-mul}
use swtrust.Lockout.{recover, saturating}

-- What `dropped` rounds of the loop have done: they have taken as many tries off, and moved the time of
-- the next recovery by as many intervals; a round was run only where that time had come.
pub record Recovers (interval time tries next : ℕ) (left : ℕ × ℕ) : Type 0 where
  pub dropped : ℕ
  pub counted : left.0 + dropped ≡ tries
  pub moved : left.1 ≡ next + dropped * interval
  pub reached : (dropped ≡ 0) ⊎ (left.1 ≤ time + interval)
  pub ended : (left.0 ≡ 0) ⊎ (time < left.1)

one_round :
    (interval time tries next : ℕ) (later : ℕ × ℕ)
    → time + interval < 2 ^ 64
    → next ≤ time
    → Recovers interval time tries (saturating (next + interval)) later
    → Recovers interval time (suc tries) next later
one_round interval time tries next later room le ih = record {
  dropped = suc ih.dropped;
  counted = omega (arith, ih.counted);
  moved = moved_on;
  reached = inr (one_more ih.reached);
  ended = ih.ended;
}
  where
    moved_on : later.1 ≡ next + suc ih.dropped * interval
    moved_on = omega (arith, ih.moved, suc-mul ih.dropped interval, le, room)

    one_more : (ih.dropped ≡ 0) ⊎ (later.1 ≤ time + interval) → later.1 ≤ time + interval
    one_more (inl none) =
        omega (arith, moved_on, ap (λ (d : ℕ). suc d * interval) none, one-mul interval, le)
    one_more (inr h) = h

pub recover-Recovers :
    (interval time tries next : ℕ)
    → time + interval < 2 ^ 64
    → Recovers interval time tries next (recover interval time tries next)
unfolding recover
recover-Recovers interval time zero next room = record {
  dropped = 0;
  counted = refl;
  moved = ground arith;
  reached = inl refl;
  ended = inl refl;
}
recover-Recovers interval time (suc tries) next room =
    decide (recover interval time tries (saturating (next + interval)))
      (recover-Recovers interval time tries (saturating (next + interval)) room) (leb next time)
      refl
  where
    decide :
        (later : ℕ × ℕ)
        → Recovers interval time tries (saturating (next + interval)) later
        → (b : Bool) → leb next time ≡ b
        → Recovers interval time (suc tries) next (if b then later else (suc tries, next))
    decide later ih true e = one_round interval time tries next later room (ground (arith, e)) ih
    decide later ih false e = record {
      dropped = 0;
      counted = ground arith;
      moved = ground arith;
      reached = inl refl;
      ended = inr (ground (arith, e));
    }
