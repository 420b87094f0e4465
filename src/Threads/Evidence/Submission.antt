-- ===== src/Threads/Evidence/Submission.antt =====
-- internal/threads/turns.go: what becomes of a submitted turn, and of a turn that ended.
use atelier_code.Shared.{
  ℕ, String, Bool, true, ◌≡◌, refl, ap, ◌⊎◌, ◌≢◌, inl, inr, Option, none, some, List, [], ◌∷◌, ◌++◌,
  arith, OnSome,
}
use atelier_code.Threads.Record.{
  ThreadStatus, TurnState, TurnRecord, PendingTurnRecord, ThreadRecord, ended,
}
use atelier_code.Threads.Turns.{TurnObservation, apply_turn, reported_state, adopt_response}
use atelier_code.Threads.Evidence.{claim_status, report_turn, settle_turn, apply_status}

-- One observation, as `applyStatus` takes it.
pub record Evidence : Type 0 where
  pub status : ThreadStatus
  pub detail : String
  pub turn : Option TurnObservation
  pub at : ℕ
  pub fresh : String
  pub active : Bool

pub observe : ThreadRecord → Evidence → ThreadRecord
observe r e = (apply_status r e.status e.detail e.turn e.at e.fresh e.active).0

pub observe_all : ThreadRecord → List Evidence → ThreadRecord
observe_all r [] = r
observe_all r (e ∷ es) = observe_all (observe r e) es

-- The latest turn is the submitted one.
abbrev pub IsTurnOf : PendingTurnRecord → ThreadRecord → Type 0
IsTurnOf p r = (r.pending ≡ none) × OnSome (λ t. t.id ≡ p.id) r.turn × (r.turn ≢ none)

adopt_response-lem :
    (t : TurnRecord) (state : TurnState) (response : String)
    → let x = (adopt_response t state response).0 in
      (x ≡ record t { response = x.response })
      × ((x.response ≡ t.response) ⊎ ((x.response ≡ response) × (ended state ≡ true)))
unfolding adopt_response
adopt_response-lem t state response = ground arith

-- A turn that ended is final: reported again under its provider id, with no submission waiting or one
-- that was made while it was the latest, at most its response changes, to a response reported with
-- an ended state.
pub apply_turn-ended :
    (r : ThreadRecord) (t : TurnRecord) (o : TurnObservation) (at : ℕ) (fresh : String)
    → r.turn ≡ some t
    → ended t.state ≡ true
    → o.provider_id ≡ t.provider_id
    → t.provider_id ≢ ""
    → OnSome (λ p. p.prior ≡ t.provider_id) r.pending
    → (x : String) × ((apply_turn r o at fresh).0
        ≡ record r { turn = some (record t { response = x }) })
      × ((x ≡ t.response) ⊎ ((x ≡ o.response) × (ended (reported_state o.state) ≡ true)))
unfolding apply_turn
apply_turn-ended r t o at fresh ht he ho hn hp =
    let a = adopt_response-lem t (reported_state o.state) o.response in
    ((adopt_response t (reported_state o.state) o.response).0.response, ground (arith, a.0), a.1)

apply_turn-pending :
    (r : ThreadRecord) (p : PendingTurnRecord) (o : TurnObservation) (at : ℕ) (fresh : String)
    → r.pending ≡ some p
    → ((apply_turn r o at fresh).0.pending ≡ some p) ⊎ IsTurnOf p (apply_turn r o at fresh).0
unfolding apply_turn
apply_turn-pending r p o at fresh h = ground arith

settle_turn-pending :
    (r : ThreadRecord) (p : PendingTurnRecord) (reported : Option TurnObservation) (at : ℕ)
    → (r.pending ≡ some p) ⊎ IsTurnOf p r
    → ((settle_turn r reported at).0.pending ≡ some p) ⊎ IsTurnOf p (settle_turn r reported at).0
unfolding settle_turn
settle_turn-pending r p reported at h = ground arith

claim_status-turns :
    (r : ThreadRecord) (status : ThreadStatus) (detail : String) (active : Bool)
    → let s = (claim_status r status detail active).0 in (s.pending ≡ r.pending) × (s.turn ≡ r.turn)
unfolding claim_status
claim_status-turns r status detail active = ground arith

report_turn-pending :
    (r : ThreadRecord) (p : PendingTurnRecord) (turn : Option TurnObservation) (at : ℕ)
    (fresh : String) (active : Bool)
    → r.pending ≡ some p
    → let s = (report_turn r turn at fresh active).0 in (s.pending ≡ some p) ⊎ IsTurnOf p s
unfolding report_turn
report_turn-pending r p none at fresh active h = inl h
report_turn-pending r p (some o) at fresh active h =
    ground (arith, apply_turn-pending r p o at fresh h)

observe-pending :
    (r : ThreadRecord) (p : PendingTurnRecord) (e : Evidence)
    → r.pending ≡ some p
    → ((observe r e).pending ≡ some p) ⊎ IsTurnOf p (observe r e)
unfolding observe apply_status
observe-pending r p e h = settle_turn-pending _ p e.turn e.at (
    report_turn-pending _ p e.turn e.at e.fresh e.active
      (ground (arith, claim_status-turns r e.status e.detail e.active)))

-- A submission is never lost: however many observations follow it, either it is still pending after
-- them all, or after some first part of them it is the thread's latest turn under its own id.
pub observe_all-pending :
    (r : ThreadRecord) (p : PendingTurnRecord) (es : List Evidence)
    → r.pending ≡ some p
    → ((observe_all r es).pending ≡ some p)
      ⊎ ((before : List Evidence) × (after : List Evidence) × (es ≡ before ++ after)
          × IsTurnOf p (observe_all r before))
unfolding observe_all
observe_all-pending r p [] h = inl h
observe_all-pending r p (e ∷ es) h = elim (observe-pending r p e h) [
  | inl kept ↦ elim (observe_all-pending (observe r e) p es kept) [
    | inl k ↦ inl k
    | inr (before, after, split, bound) ↦ inr (e ∷ before, after, ap (◌∷◌ e) split, bound)
  ]
  | inr bound ↦ inr (e ∷ [], es, refl, bound)
]
