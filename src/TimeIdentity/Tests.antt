-- ===== src/TimeIdentity/Tests.antt =====
-- A transition at beat 36.
use nomos_rt.Common.{ℕ, leb, [], ◌∷◌, none, some, ◌≡◌}
use nomos_rt.TimeIdentity.{Timeline, PendingTransition}
use nomos_rt.TimeIdentity.Transition.{blocks, blocks_lem}

abbrev slow : Timeline ℕ
slow = record { bpm = 90; beat = 0 }

abbrev fast : PendingTransition ℕ ℕ
fast = record { tl = record { bpm = 140; beat = 36 }; policy = 0; apply_at = 36 }

blocks_lem_example :
    blocks leb (34 ∷ 35 ∷ 37 ∷ 38 ∷ []) (record { current = slow; pending = some fast })
    ≡ (1, record { current = fast.tl; pending = none })
blocks_lem_example = blocks_lem leb (34 ∷ 35 ∷ 37 ∷ 38 ∷ []) slow fast
