-- ===== src/Queue/State/Laws.antt =====
-- The states are told apart by their numbers, and their texts name them.
use job_applier.Base.{◌≡◌, true, arith}
use job_applier.Queue.State.{JobState, state_eq}

pub state_eq→eq : (a b : JobState) → state_eq a b ≡ true → a ≡ b
state_eq→eq a b h = ground arith
