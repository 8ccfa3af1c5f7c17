-- ===== src/TimeIdentity.antt =====
-- include/nomos/rt/time_identity.hpp: the time line of a process and the transition that waits for its beat. `V` is the
-- type of doubles and `le` its `<=`; a keyword of the EDN library is a value of `K`.
pub mod Transition
mod Tests
use nomos_rt.Common.{Bool, true, false, if◌then◌else◌, Option, none, some, List, [], ◌∷◌}

pub record Timeline (V : Type 0) : Type 0 where
  pub bpm : V
  pub beat : V

pub record PendingTransition (V K : Type 0) : Type 0 where
  pub tl : Timeline V
  pub policy : K
  pub apply_at : V

pub record TimeIdentity (V K : Type 0) : Type 0 where
  pub current : Timeline V
  pub pending : Option (PendingTransition V K)

module _ {V K : Type 0} (le : V → V → Bool) where
  unfoldable pub transition_ready : V → Option (PendingTransition V K) → Bool
  transition_ready current_beat none = false
  transition_ready current_beat (some p) = le p.apply_at current_beat

  unfoldable pub promote : Option (PendingTransition V K) → TimeIdentity V K → TimeIdentity V K
  promote none t = t
  promote (some p) t = record { current = p.tl; pending = none }

  unfoldable pub apply_if_ready : V → TimeIdentity V K → Bool × TimeIdentity V K
  apply_if_ready current_beat t =
      if transition_ready current_beat t.pending then (true, promote t.pending t) else (false, t)
