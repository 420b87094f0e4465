-- ===== src/Threads/Evidence/Consistent.antt =====
-- internal/threads/turns.go: every fold of evidence leaves a record whose turn, submission, status
-- and status detail agree.
use atelier_code.Shared.{
  ℕ, String, Bool, true, false, ◌≡◌, refl, ◌⊎◌, ◌≢◌, Option, none, some, arith, is_some, OnSome,
  inl, inr, Bool-cases,
}
use atelier_code.Threads.Record.{
  ThreadStatus, TurnState, TurnRecord, PendingTurnRecord, ThreadRecord, ended, is_live,
}
use atelier_code.Threads.Evidence.Frame.{apply_turn-OnlyTurns}
use atelier_code.Threads.Turns.{
  TurnObservation, updated_turn, update_turn, blank_turn, adopt_response, new_turn, reported_state,
  apply_turn, is_running, revise_turn,
}
use atelier_code.Threads.Evidence.{
  claim_status, report_turn, end_unobserved, settle_running, settle_latest, settle_pending,
  settle_turn, apply_status, coerce_record, is_error, reports_running,
}

-- A turn has an end time exactly if it ended, an error only if it failed, and a response only if it
-- ended.
pub record IsSoundTurn (t : TurnRecord) : Type 0 where
  pub reported : t.state ≢ TurnState.unreported
  pub end_time : is_some t.completed_at ≡ ended t.state
  pub failure : t.state ≢ TurnState.failed → t.error ≡ ""
  pub answer : ended t.state ≡ false → t.response ≡ ""

pub record IsSound (r : ThreadRecord) : Type 0 where
  pub detail : r.status ≢ ThreadStatus.error → r.status_detail ≡ ""
  pub turn : OnSome IsSoundTurn r.turn

updated_turn-IsSoundTurn :
    (t : TurnRecord) (o : TurnObservation) (state : TurnState) (at : ℕ)
    → state ≢ TurnState.unreported
    → IsSoundTurn (updated_turn t o state at)
unfolding updated_turn
updated_turn-IsSoundTurn t o state at h = ground arith

reported_state_ne : (s : TurnState) → reported_state s ≢ TurnState.unreported
unfolding reported_state
reported_state_ne s = ground arith

adopt_response-IsSoundTurn :
    (t : TurnRecord) (state : TurnState) (response : String)
    → ended t.state ≡ true
    → IsSoundTurn t
    → IsSoundTurn (adopt_response t state response).0
unfolding adopt_response
adopt_response-IsSoundTurn t state response e h = ground arith

update_turn-IsSoundTurn :
    (t : TurnRecord) (o : TurnObservation) (state : TurnState) (at : ℕ)
    → state ≢ TurnState.unreported
    → IsSoundTurn (update_turn t o state at).0
unfolding update_turn
update_turn-IsSoundTurn t o state at h = updated_turn-IsSoundTurn t o state at h

new_turn-IsSoundTurn :
    (id : String) (o : TurnObservation) (at : ℕ)
    → IsSoundTurn (new_turn id o (reported_state o.state) at)
unfolding new_turn
new_turn-IsSoundTurn id o at =
    updated_turn-IsSoundTurn (blank_turn id o.provider_id) o (reported_state o.state) at
      (reported_state_ne o.state)

revise_turn-IsSoundTurn :
    (r : ThreadRecord) (t : TurnRecord) (o : TurnObservation) (at : ℕ)
    → IsSoundTurn t
    → OnSome IsSoundTurn (revise_turn r t o at).0.turn
unfolding revise_turn
revise_turn-IsSoundTurn r t o at h = elim (Bool-cases (ended t.state)) [
  | inl e ↦ rw e (adopt_response-IsSoundTurn t (reported_state o.state) o.response e h)
  | inr e ↦
      rw e (update_turn-IsSoundTurn t o (reported_state o.state) at (reported_state_ne o.state))
]

apply_turn-IsSoundTurn :
    (r : ThreadRecord) (o : TurnObservation) (at : ℕ) (fresh : String)
    → OnSome IsSoundTurn r.turn
    → OnSome IsSoundTurn (apply_turn r o at fresh).0.turn
unfolding apply_turn
apply_turn-IsSoundTurn r o at fresh h = grind (arith, new_turn-IsSoundTurn, revise_turn-IsSoundTurn)

claim_status-IsSound :
    (r : ThreadRecord) (status : ThreadStatus) (detail : String) (active : Bool)
    → IsSound r
    → IsSound (claim_status r status detail active).0
unfolding claim_status
claim_status-IsSound r status detail active h = ground arith

-- What `settleTurn` ties together: a faulted session has no turn running and nothing pending, and a
-- thread at rest or unobserved has a turn running only if this report says so.
pub record IsSettled (reported : Option TurnObservation) (r : ThreadRecord) : Type 0 where
  pub sound : IsSound r
  pub fault_turn : r.status ≡ ThreadStatus.error → OnSome (λ t. is_running t.state ≡ false) r.turn
  pub fault_pending : r.status ≡ ThreadStatus.error → r.pending ≡ none
  pub rest :
      (r.status ≡ ThreadStatus.idle) ⊎ (r.status ≡ ThreadStatus.unknown)
      → reports_running reported ≡ false
      → OnSome (λ t. is_running t.state ≡ false) r.turn

-- The same with the turn alone settled.
record IsTurnSettled (reported : Option TurnObservation) (r : ThreadRecord) : Type 0 where
  sound : IsSound r
  fault_turn : r.status ≡ ThreadStatus.error → OnSome (λ t. is_running t.state ≡ false) r.turn
  rest :
      (r.status ≡ ThreadStatus.idle) ⊎ (r.status ≡ ThreadStatus.unknown)
      → reports_running reported ≡ false
      → OnSome (λ t. is_running t.state ≡ false) r.turn

end_unobserved-IsTurnSettled :
    (r : ThreadRecord) (t : TurnRecord) (reported : Option TurnObservation)
    → r.status ≢ ThreadStatus.error
    → r.turn ≡ some t
    → is_running t.state ≡ true
    → IsSound r
    → IsTurnSettled reported (end_unobserved r t (reports_running reported)).0
unfolding end_unobserved ended is_running
end_unobserved-IsTurnSettled r t reported hs ht e h = elim (Bool-cases (reports_running reported)) [
  | inl c ↦ rw c (ground arith)
  | inr c ↦ rw c (ground arith)
]

settle_running-IsTurnSettled :
    (s : ThreadStatus) (r : ThreadRecord) (t : TurnRecord) (reported : Option TurnObservation)
    (at : ℕ)
    → r.status ≡ s
    → r.turn ≡ some t
    → is_running t.state ≡ true
    → IsSound r
    → IsTurnSettled reported (settle_running s r t reported at).0
unfolding settle_running ended
settle_running-IsTurnSettled ThreadStatus.idle r t reported at hs ht e h =
    end_unobserved-IsTurnSettled r t reported (ground arith) ht e h
settle_running-IsTurnSettled ThreadStatus.unknown r t reported at hs ht e h =
    end_unobserved-IsTurnSettled r t reported (ground arith) ht e h
settle_running-IsTurnSettled _ r t reported at hs ht e h = ground arith

settle_latest-IsTurnSettled :
    (o : Option TurnRecord) (r : ThreadRecord) (reported : Option TurnObservation) (at : ℕ)
    → r.turn ≡ o
    → IsSound r
    → IsTurnSettled reported (settle_latest o r reported at).0
unfolding settle_latest
settle_latest-IsTurnSettled none r reported at ht h = ground arith
settle_latest-IsTurnSettled (some t) r reported at ht h = elim (Bool-cases (is_running t.state)) [
  | inl e ↦ rw e (settle_running-IsTurnSettled r.status r t reported at refl ht e h)
  | inr e ↦ rw e (ground arith)
]

settle_pending-IsSettled :
    (o : Option PendingTurnRecord) (r : ThreadRecord) (reported : Option TurnObservation) (at : ℕ)
    → r.pending ≡ o
    → IsTurnSettled reported r
    → IsSettled reported (settle_pending o r at).0
unfolding settle_pending ended is_running
settle_pending-IsSettled none r reported at hp h = ground arith
settle_pending-IsSettled (some p) r reported at hp h = elim (Bool-cases (is_error r.status)) [
  | inl e ↦ rw e (ground arith)
  | inr e ↦ rw e (ground arith)
]

settle_turn-IsSettled :
    (r : ThreadRecord) (reported : Option TurnObservation) (at : ℕ)
    → IsSound r
    → IsSettled reported (settle_turn r reported at).0
unfolding settle_turn
settle_turn-IsSettled r reported at h =
    settle_pending-IsSettled _ _ reported at refl
      (settle_latest-IsTurnSettled r.turn r reported at refl h)

report_turn-IsSound :
    (r : ThreadRecord) (turn : Option TurnObservation) (at : ℕ) (fresh : String) (active : Bool)
    → IsSound r
    → IsSound (report_turn r turn at fresh active).0
unfolding report_turn
report_turn-IsSound r none at fresh active h = h
report_turn-IsSound r (some o) at fresh active h =
    ground (arith, apply_turn-OnlyTurns r o at fresh, apply_turn-IsSoundTurn r o at fresh h.turn)

-- Whatever an observation reports of a sound record, folding it in leaves a sound record in which a
-- faulted session has no turn running and no submission pending, and a thread that is idle or unknown
-- has a turn running only if the observation reports one.
pub apply_status-IsSettled :
    (r : ThreadRecord) (status : ThreadStatus) (detail : String) (turn : Option TurnObservation)
    (at : ℕ) (fresh : String) (active : Bool)
    → IsSound r
    → IsSettled turn (apply_status r status detail turn at fresh active).0
unfolding apply_status
apply_status-IsSettled r status detail turn at fresh active h =
    settle_turn-IsSettled _ turn at
      (report_turn-IsSound _ turn at fresh active (claim_status-IsSound r status detail active h))

-- What an unobserved record may claim.
pub record IsUnobserved (r : ThreadRecord) : Type 0 where
  pub sound : IsSound r
  pub status : is_live r.status ≡ false
  pub turn : OnSome (λ t. is_running t.state ≡ false) r.turn

-- The status that is left without an observation.
abbrev pub unobserved_status : ThreadStatus → ThreadStatus
unobserved_status ThreadStatus.working = ThreadStatus.unknown
unobserved_status ThreadStatus.waiting_for_input = ThreadStatus.unknown
unobserved_status ThreadStatus.waiting_for_permission = ThreadStatus.unknown
unobserved_status ThreadStatus.unclaimed = ThreadStatus.unclaimed
unobserved_status ThreadStatus.unknown = ThreadStatus.unknown
unobserved_status ThreadStatus.idle = ThreadStatus.idle
unobserved_status ThreadStatus.error = ThreadStatus.error
unobserved_status (ThreadStatus.other s) = ThreadStatus.other s

-- `q` is `r` with its live claims unknown and nothing else changed.
pub record IsCoerced (r q : ThreadRecord) : Type 0 where
  pub status : q.status ≡ unobserved_status r.status
  pub running_turn :
      (t : TurnRecord)
      → r.turn ≡ some t
      → t.state ≡ TurnState.running
      → q.turn ≡ some (record t { state = TurnState.unknown; completed_at = none })
  pub other_turn :
      (t : TurnRecord) → r.turn ≡ some t → t.state ≢ TurnState.running → q.turn ≡ some t
  pub no_turn : r.turn ≡ none → q.turn ≡ none
  pub frame : record q { status = r.status; turn = r.turn } ≡ r

coerce_record-IsCoerced : (r : ThreadRecord) → IsCoerced r (coerce_record r).0
unfolding coerce_record is_live is_running
coerce_record-IsCoerced r = record {
  status = ground arith;
  running_turn = λ t h e. ground arith;
  other_turn = λ t h e. ground arith;
  no_turn = λ h. ground arith;
  frame = ground arith;
}

coerce_record-changed :
    (r : ThreadRecord)
    → ((coerce_record r).1 ≡ true → (coerce_record r).0 ≢ r)
      × ((coerce_record r).1 ≡ false → (coerce_record r).0 ≡ r)
unfolding coerce_record is_live is_running
coerce_record-changed r = (λ h. ground arith, λ h. ground arith)

coerced-IsUnobserved : (r : ThreadRecord) → IsSound r → IsUnobserved (coerce_record r).0
unfolding coerce_record ended is_live is_running
coerced-IsUnobserved r h = ground arith

unobserved_unchanged : (r : ThreadRecord) → IsUnobserved r → coerce_record r ≡ (r, false)
unfolding coerce_record is_live is_running
unobserved_unchanged r u = ground arith

-- Coercion makes a live status unknown and keeps every other one; a running turn becomes unknown,
-- without an end time, and every other turn stays; nothing else of the record changes. It reports a
-- change exactly if the record differs, a sound record stays sound, and of a record with no live status
-- and no running turn nothing changes.
pub coerce_record-IsUnobserved :
    (r : ThreadRecord)
    → IsSound r
    → let (q, changed) = coerce_record r in
      IsCoerced r q
      × IsUnobserved q
      × (changed ≡ true → q ≢ r)
      × (changed ≡ false → q ≡ r)
      × (IsUnobserved r → coerce_record r ≡ (r, false))
coerce_record-IsUnobserved r h = (
  coerce_record-IsCoerced r,
  coerced-IsUnobserved r h,
  (coerce_record-changed r).0,
  (coerce_record-changed r).1,
  unobserved_unchanged r,
)
