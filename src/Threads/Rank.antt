-- ===== src/Threads/Rank.antt =====
-- `Rank` of internal/threads/turns.go: one status from the statuses that coexist.
pub mod Order
use atelier_code.Shared.{ℕ, Option, none, some, List, [], ◌∷◌, ltb, if◌then◌else◌}
use atelier_code.Threads.Record.{ThreadStatus}

-- The map `ranks`: `none` is a missing key.
unfoldable pub ranks : ThreadStatus → Option ℕ
ranks ThreadStatus.error = some 5
ranks ThreadStatus.waiting_for_input = some 4
ranks ThreadStatus.waiting_for_permission = some 3
ranks ThreadStatus.working = some 2
ranks ThreadStatus.unknown = some 1
ranks ThreadStatus.idle = some 0
ranks _ = none

-- `ranks[status]`, 0 on a missing key.
unfoldable pub weight : ThreadStatus → ℕ
unfolding ranks
weight s = elim (ranks s) [ none ↦ 0 | some n ↦ n ]

unfoldable pub recognise : ThreadStatus → ThreadStatus
unfolding ranks
recognise s = elim (ranks s) [ none ↦ ThreadStatus.unknown | some n ↦ s ]

-- One round of the loop in `Rank`.
unfoldable pub stronger : ThreadStatus → ThreadStatus → ThreadStatus
unfolding weight recognise
stronger best s = if ltb (weight best) (weight (recognise s)) then recognise s else best

unfoldable pub rank_from : ThreadStatus → List ThreadStatus → ThreadStatus
rank_from best [] = best
rank_from best (s ∷ ss) = rank_from (stronger best s) ss

unfoldable pub rank : List ThreadStatus → ThreadStatus
rank [] = ThreadStatus.unknown
rank (s ∷ ss) = rank_from ThreadStatus.idle (s ∷ ss)
