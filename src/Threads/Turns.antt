-- ===== src/Threads/Turns.antt =====
-- internal/threads/turns.go: how a reported turn meets the turns that a record holds. Each function
-- returns the record with whether anything changed. `fresh` is the turn id that `ids.NewLong` draws,
-- and `at` the observation's time.
use atelier_code.Shared.{
  ℕ, String, Bool, true, false, not, ◌&&◌, ◌||◌, Option, none, some, if◌then◌else◌, is_empty,
  is_zero, is_some, differ, String-discrete, ℕ_discrete,
}
use atelier_code.Threads.Record.{
  TurnState, TurnState-discrete, TurnRecord, PendingTurnRecord, ThreadRecord, ended,
}

-- A zero time and an empty text mean "not reported".
pub record TurnObservation : Type 0 where
  pub provider_id : String
  pub state : TurnState
  pub started_at : ℕ
  pub completed_at : ℕ
  pub error : String
  pub response : String

unfoldable pub same_end : Option ℕ → Option ℕ → Bool
same_end none none = true
same_end (some x) (some y) = not (differ ℕ_discrete x y)
same_end _ _ = false

unfoldable pub turn_equal : TurnRecord → TurnRecord → Bool
unfolding same_end
turn_equal a b =
    not (
      differ String-discrete a.id b.id
      || differ String-discrete a.provider_id b.provider_id
      || differ TurnState-discrete a.state b.state
      || differ String-discrete a.error b.error
      || differ String-discrete a.response b.response
      || differ ℕ_discrete a.started_at b.started_at)
    && same_end a.completed_at b.completed_at

-- The switch on the reported state: `none` for a running or unknown turn.
unfoldable pub completion : TurnRecord → TurnObservation → TurnState → ℕ → Option ℕ
completion turn o TurnState.running at = none
completion turn o TurnState.unknown at = none
completion turn o state at =
    if not (is_zero o.completed_at)
    then some o.completed_at
    else if not (is_some turn.completed_at) || differ TurnState-discrete turn.state state
    then some at
    else turn.completed_at

unfoldable pub is_failed : TurnState → Bool
is_failed TurnState.failed = true
is_failed _ = false

-- `updateTurn` without the comparison: the turn that it leaves.
unfoldable pub updated_turn : TurnRecord → TurnObservation → TurnState → ℕ → TurnRecord
unfolding completion is_failed ended
updated_turn turn o state at = record turn {
  state = state;
  started_at =
      if not (is_zero o.started_at)
      then o.started_at
      else if is_zero turn.started_at
      then at
      else turn.started_at;
  completed_at = completion turn o state at;
  error = if is_failed state then o.error else "";
  response = if ended state then o.response else "";
}

unfoldable pub update_turn : TurnRecord → TurnObservation → TurnState → ℕ → TurnRecord × Bool
unfolding updated_turn turn_equal
update_turn turn o state at =
    (updated_turn turn o state at, not (turn_equal turn (updated_turn turn o state at)))

unfoldable pub adopt_response : TurnRecord → TurnState → String → TurnRecord × Bool
unfolding ended
adopt_response turn state response =
    if not (ended state) || is_empty response || not (differ String-discrete response turn.response)
    then (turn, false)
    else (record turn { response = response }, true)

-- `if state == "" { state = TurnUnknown }`.
unfoldable pub reported_state : TurnState → TurnState
reported_state TurnState.unreported = TurnState.unknown
reported_state s = s

unfoldable pub is_running : TurnState → Bool
is_running TurnState.running = true
is_running _ = false

-- The report is about the turn that the record holds.
unfoldable pub same_turn : TurnRecord → TurnObservation → TurnState → Bool
unfolding is_running
same_turn current o state =
    not (is_empty o.provider_id) && not (differ String-discrete o.provider_id current.provider_id)
    || is_empty o.provider_id
      && is_empty current.provider_id
      && is_running current.state
      && not (is_running state)

-- `&store.TurnRecord{ID: id, ProviderID: provider_id}`.
abbrev pub blank_turn : String → String → TurnRecord
blank_turn id provider_id = record {
  id = id;
  provider_id = provider_id;
  state = TurnState.unreported;
  started_at = 0;
  completed_at = none;
  error = "";
  response = "";
}

unfoldable pub new_turn : String → TurnObservation → TurnState → ℕ → TurnRecord
unfolding updated_turn
new_turn id o state at = updated_turn (blank_turn id o.provider_id) o state at

unfoldable pub replace_turn : ThreadRecord → TurnObservation → ℕ → String → ThreadRecord × Bool
unfolding new_turn reported_state
replace_turn r o at fresh =
    (record r { turn = some (new_turn fresh o (reported_state o.state) at) }, true)

unfoldable pub revise_turn : ThreadRecord → TurnRecord → TurnObservation → ℕ → ThreadRecord × Bool
unfolding adopt_response update_turn reported_state ended
revise_turn r current o at =
    let (turn, changed) =
      (if ended current.state
        then adopt_response current (reported_state o.state) o.response
        else update_turn current o (reported_state o.state) at) in
    (record r { turn = some turn }, changed)

unfoldable pub match_turn :
    Option TurnRecord → ThreadRecord → TurnObservation → ℕ → String → ThreadRecord × Bool
unfolding replace_turn revise_turn same_turn
match_turn none r o at fresh = replace_turn r o at fresh
match_turn (some current) r o at fresh =
    if same_turn current o (reported_state o.state)
    then revise_turn r current o at
    else replace_turn r o at fresh

-- The first provider turn that is not the one held at submission.
unfoldable pub binds : PendingTurnRecord → TurnObservation → Bool
binds p o = not (is_empty o.provider_id) && differ String-discrete o.provider_id p.prior

unfoldable pub bind_turn :
    Option PendingTurnRecord → ThreadRecord → TurnObservation → ℕ → String → ThreadRecord × Bool
unfolding match_turn new_turn binds reported_state
bind_turn none r o at fresh = match_turn r.turn r o at fresh
bind_turn (some p) r o at fresh =
    if binds p o
    then (
      record r { turn = some (new_turn p.id o (reported_state o.state) at); pending = none },
      true,
    )
    else match_turn r.turn r o at fresh

unfoldable pub apply_turn : ThreadRecord → TurnObservation → ℕ → String → ThreadRecord × Bool
unfolding bind_turn
apply_turn r o at fresh = bind_turn r.pending r o at fresh
