-- ===== src/Threads/Evidence.antt =====
-- internal/threads/turns.go: how an observation's status and turn are folded into a record, and the
-- coercion of what only a live observation can back.
pub mod Frame
pub mod Submission
pub mod Consistent
use atelier_code.Shared.{
  ℕ, String, Bool, true, false, not, ◌&&◌, ◌||◌, Option, none, some, if◌then◌else◌, is_empty,
  differ, String-discrete,
}
use atelier_code.Threads.Record.{
  ThreadStatus, TurnState, ThreadStatus-discrete, TurnRecord, PendingTurnRecord, ThreadRecord,
  is_live,
}
use atelier_code.Threads.Turns.{TurnObservation, is_running, apply_turn}

unfoldable pub is_error : ThreadStatus → Bool
is_error ThreadStatus.error = true
is_error _ = false

unfoldable pub reports_running : Option TurnObservation → Bool
unfolding is_running
reports_running none = false
reports_running (some o) = is_running o.state

unfoldable pub end_unobserved : ThreadRecord → TurnRecord → Bool → ThreadRecord × Bool
end_unobserved r t true = (r, false)
end_unobserved r t false =
    (record r { turn = some (record t { state = TurnState.unknown; completed_at = none }) }, true)

-- The first half of `settleTurn`, on the latest turn if that is running.
unfoldable pub settle_running :
    ThreadStatus → ThreadRecord → TurnRecord → Option TurnObservation → ℕ → ThreadRecord × Bool
unfolding reports_running end_unobserved
settle_running ThreadStatus.error r t reported at = (
  record r {
    turn = some (record t {
      state = TurnState.failed;
      completed_at = some at;
      error = if is_empty t.error then r.status_detail else t.error;
    });
  },
  true,
)
settle_running ThreadStatus.idle r t reported at = end_unobserved r t (reports_running reported)
settle_running ThreadStatus.unknown r t reported at = end_unobserved r t (reports_running reported)
settle_running _ r t reported at = (r, false)

unfoldable pub settle_latest :
    Option TurnRecord → ThreadRecord → Option TurnObservation → ℕ → ThreadRecord × Bool
unfolding settle_running is_running
settle_latest none r reported at = (r, false)
settle_latest (some t) r reported at =
    if is_running t.state then settle_running r.status r t reported at else (r, false)

-- The second half: a fault fails the pending submission.
unfoldable pub settle_pending : Option PendingTurnRecord → ThreadRecord → ℕ → ThreadRecord × Bool
unfolding is_error
settle_pending none r at = (r, false)
settle_pending (some p) r at =
    if is_error r.status
    then (
      record r {
        turn = some (record {
          id = p.id;
          provider_id = "";
          state = TurnState.failed;
          started_at = p.submitted_at;
          completed_at = some at;
          error = r.status_detail;
          response = "";
        });
        pending = none;
      },
      true,
    )
    else (r, false)

unfoldable pub settle_turn : ThreadRecord → Option TurnObservation → ℕ → ThreadRecord × Bool
unfolding settle_latest settle_pending
settle_turn r reported at =
    let (r1, c1) = settle_latest r.turn r reported at in
    let (r2, c2) = settle_pending r1.pending r1 at in (r2, c2 || c1)

-- The switch on the claimed status. Status detail rides an error status and nothing else.
unfoldable pub claim_status : ThreadRecord → ThreadStatus → String → Bool → ThreadRecord × Bool
unfolding is_live is_error
claim_status r ThreadStatus.unclaimed detail active = (r, false)
claim_status r status detail active =
    let kept = if is_error status then detail else "" in
    if is_live status && not active then (r, false) else (
      record r { status = status; status_detail = kept },
      differ String-discrete r.status_detail kept || differ ThreadStatus-discrete r.status status,
    )

unfoldable pub report_turn :
    ThreadRecord → Option TurnObservation → ℕ → String → Bool → ThreadRecord × Bool
unfolding apply_turn is_running
report_turn r none at fresh active = (r, false)
report_turn r (some o) at fresh active =
    if is_running o.state && not active then (r, false) else apply_turn r o at fresh

-- `applyStatus`, but for the map of prior statuses, which belongs to the service.
unfoldable pub apply_status :
    ThreadRecord
    → ThreadStatus
    → String
    → Option TurnObservation
    → ℕ
    → String
    → Bool
    → ThreadRecord × Bool
unfolding claim_status report_turn settle_turn
apply_status r status detail turn at fresh active =
    let (r1, c1) = claim_status r status detail active in
    let (r2, c2) = report_turn r1 turn at fresh active in
    let (r3, c3) = settle_turn r2 turn at in (r3, c3 || c2 || c1)

-- What only a live observation can back, coerced to unknown.
unfoldable pub coerce_status : ThreadRecord → ThreadRecord × Bool
unfolding is_live
coerce_status r =
    if is_live r.status then (record r { status = ThreadStatus.unknown }, true) else (r, false)

unfoldable pub coerce_turn : Option TurnRecord → ThreadRecord → ThreadRecord × Bool
unfolding is_running
coerce_turn none r = (r, false)
coerce_turn (some t) r =
    if is_running t.state
    then (
      record r { turn = some (record t { state = TurnState.unknown; completed_at = none }) },
      true,
    )
    else (r, false)

unfoldable pub coerce_record : ThreadRecord → ThreadRecord × Bool
unfolding coerce_status coerce_turn
coerce_record r =
    let (r1, c1) = coerce_status r in let (r2, c2) = coerce_turn r1.turn r1 in (r2, c2 || c1)

-- The provider turn that the thread holds at submission.
unfoldable pub prior_turn : Option TurnRecord → String
prior_turn none = ""
prior_turn (some t) = t.provider_id

-- `mintPending` on the record; `fresh` is the submitted turn's id.
unfoldable pub mint_pending : ThreadRecord → ℕ → String → ThreadRecord
unfolding prior_turn
mint_pending r now fresh = record r {
  pending = some (record { id = fresh; prior = prior_turn r.turn; submitted_at = now });
  status = ThreadStatus.working;
  status_detail = "";
  updated_at = now;
}
