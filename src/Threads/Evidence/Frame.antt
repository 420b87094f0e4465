-- ===== src/Threads/Evidence/Frame.antt =====
-- internal/threads/turns.go: what a fold of evidence leaves alone.
use atelier_code.Shared.{ℕ, String, Bool, ◌≡◌, Option, none, some, arith}
use atelier_code.Threads.Record.{ThreadStatus, TurnRecord, ThreadRecord}
use atelier_code.Threads.Turns.{TurnObservation, apply_turn}
use atelier_code.Threads.Evidence.{
  claim_status, report_turn, settle_running, settle_turn, apply_status, coerce_record,
}

-- Nothing but the turns differs.
abbrev pub OnlyTurns : ThreadRecord → ThreadRecord → Type 0
OnlyTurns r s = s ≡ record r { turn = s.turn; pending = s.pending }

-- Nothing but the status, its detail and the turns differs.
abbrev pub OnlyEvidence : ThreadRecord → ThreadRecord → Type 0
OnlyEvidence r s = s ≡ record r {
  status = s.status;
  status_detail = s.status_detail;
  turn = s.turn;
  pending = s.pending;
}

pub apply_turn-OnlyTurns :
    (r : ThreadRecord) (o : TurnObservation) (at : ℕ) (fresh : String)
    → OnlyTurns r (apply_turn r o at fresh).0
unfolding apply_turn
apply_turn-OnlyTurns r o at fresh = ground arith

settle_running-OnlyTurns :
    (s : ThreadStatus) (r : ThreadRecord) (t : TurnRecord) (reported : Option TurnObservation)
    (at : ℕ)
    → OnlyTurns r (settle_running s r t reported at).0
unfolding settle_running
settle_running-OnlyTurns s r t reported at = ground arith

pub settle_turn-OnlyTurns :
    (r : ThreadRecord) (reported : Option TurnObservation) (at : ℕ)
    → OnlyTurns r (settle_turn r reported at).0
unfolding settle_turn
settle_turn-OnlyTurns r reported at = ground arith

OnlyEvidence-trans : (r s t : ThreadRecord) → OnlyEvidence r s → OnlyEvidence s t → OnlyEvidence r t
OnlyEvidence-trans r s t h k = ground arith

OnlyTurns-OnlyEvidence : (r s : ThreadRecord) → OnlyTurns r s → OnlyEvidence r s
OnlyTurns-OnlyEvidence r s h = ground arith

claim_status-OnlyEvidence :
    (r : ThreadRecord) (status : ThreadStatus) (detail : String) (active : Bool)
    → OnlyEvidence r (claim_status r status detail active).0
unfolding claim_status
claim_status-OnlyEvidence r status detail active = ground arith

report_turn-OnlyTurns :
    (r : ThreadRecord) (turn : Option TurnObservation) (at : ℕ) (fresh : String) (active : Bool)
    → OnlyTurns r (report_turn r turn at fresh active).0
unfolding report_turn
report_turn-OnlyTurns r none at fresh active = ground arith
report_turn-OnlyTurns r (some o) at fresh active = ground (arith, apply_turn-OnlyTurns r o at fresh)

-- A fold of evidence changes nothing of a record but the status, its detail, the latest turn and the
-- pending submission.
pub apply_status-OnlyEvidence :
    (r : ThreadRecord) (status : ThreadStatus) (detail : String) (turn : Option TurnObservation)
    (at : ℕ) (fresh : String) (active : Bool)
    → OnlyEvidence r (apply_status r status detail turn at fresh active).0
unfolding apply_status
apply_status-OnlyEvidence r status detail turn at fresh active =
    let claimed = (claim_status r status detail active).0 in
    let reported = (report_turn claimed turn at fresh active).0 in
    let settled = (settle_turn reported turn at).0 in
    OnlyEvidence-trans r claimed settled (claim_status-OnlyEvidence r status detail active) (
      OnlyEvidence-trans claimed reported settled
        (OnlyTurns-OnlyEvidence claimed reported
          (report_turn-OnlyTurns claimed turn at fresh active))
        (OnlyTurns-OnlyEvidence reported settled (settle_turn-OnlyTurns reported turn at)))

pub coerce_record-OnlyEvidence : (r : ThreadRecord) → OnlyEvidence r (coerce_record r).0
unfolding coerce_record
coerce_record-OnlyEvidence r = ground arith
