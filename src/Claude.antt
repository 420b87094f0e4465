-- ===== src/Claude.antt =====
-- internal/integrations/claude/tracker.go: the reducer of a Claude Code session's hook events, over the
-- ranking of internal/threads/turns.go. The background work is a map, whose iteration order is the
-- list's. An event's name and a notification's type are the texts that the reducer tells apart.
pub mod Idle
use atelier_code.Shared.{
  ℕ, String, Bool, true, false, not, ◌&&◌, ◌||◌, Option, none, some, List, [], ◌∷◌, String-discrete,
  is_empty, is_some, differ, if◌then◌else◌,
}
use atelier_code.Finite.{lookup, insert, erase}
use atelier_code.Threads.Record.{
  ThreadStatus, unclaimed, unknown, idle, working, waiting_for_input, waiting_for_permission,
  TurnState,
}
use atelier_code.Threads.Turns.{TurnObservation}
use atelier_code.Threads.Rank.{rank}

pub data Notice : Type 0 where
  idle_prompt permission_prompt elicitation_dialog agent_needs_input other : Notice

pub data HookEvent : Type 0 where
  user_prompt_submit pre_tool_use post_tool_use post_tool_use_failure permission_denied stop
        stop_failure subagent_start subagent_stop task_created task_completed permission_request
        notification other :
      HookEvent

pub record Payload : Type 0 where
  pub event : HookEvent
  pub agent_id : String
  pub task_id : String
  pub background_tasks : Option (List String)
  pub notice : Notice
  pub tool_name : String
  pub error : String
  pub error_details : String
  pub last_assistant_message : String

pub record Tracker : Type 0 where
  pub root : ThreadStatus
  pub background : List (String × ThreadStatus)

abbrev pub new_tracker : Tracker
new_tracker = record { root = idle; background = [] }

abbrev pub seeded_tracker : Tracker
seeded_tracker = record { root = unknown; background = [] }

unfoldable pub members : List (String × ThreadStatus) → List ThreadStatus
members [] = []
members ((id, s) ∷ m) = s ∷ members m

unfoldable pub aggregate : Tracker → ThreadStatus
aggregate t = rank (t.root ∷ members t.background)

unfoldable pub is_waiting : ThreadStatus → Bool
is_waiting waiting_for_input = true
is_waiting waiting_for_permission = true
is_waiting _ = false

abbrev pub retained : Option ThreadStatus → ThreadStatus
retained none = working
retained (some s) = if is_waiting s then s else working

-- A level snapshot: the members that it names, each with its waiting flavor.
unfoldable pub snapshot :
    List (String × ThreadStatus)
    → List String
    → List (String × ThreadStatus)
    → List (String × ThreadStatus)
snapshot old [] new = new
snapshot old (id ∷ ids) new = snapshot old ids (
    if is_empty id
    then new
    else insert String-discrete id (retained (lookup String-discrete id old)) new)

unfoldable pub take_snapshot : Option (List String) → Tracker → Tracker
take_snapshot none t = t
take_snapshot (some ids) t = record t { background = snapshot t.background ids [] }

abbrev pub is_root : Payload → Bool
is_root p = is_empty p.agent_id

unfoldable pub set_member : Payload → ThreadStatus → Tracker → Tracker
set_member p s t =
    if is_root p
    then record t { root = s }
    else record t { background = insert String-discrete p.agent_id s t.background }

-- `t.background[id]`, the empty status on a missing key.
abbrev pub member_or_empty : Option ThreadStatus → ThreadStatus
member_or_empty none = unclaimed
member_or_empty (some s) = s

unfoldable pub set_permission : Payload → Tracker → Tracker
set_permission p t =
    if is_root p
    then record t { root = rank (t.root ∷ waiting_for_permission ∷ []) }
    else record t {
      background =
          insert String-discrete p.agent_id
            (rank (
              member_or_empty (lookup String-discrete p.agent_id t.background)
              ∷ waiting_for_permission
              ∷ []))
            t.background;
    }

unfoldable pub failure_detail : Payload → String
failure_detail p = if is_empty p.error_details then p.error else p.error_details

abbrev pub turn : TurnState → String → String → TurnObservation
turn state error response = record {
  provider_id = "";
  state = state;
  started_at = 0;
  completed_at = 0;
  error = error;
  response = response;
}

-- The tracker after an event, whether it is a signal by itself, and the turn that it tells of.
pub record Folded : Type 0 where
  pub tracker : Tracker
  pub signal : Bool
  pub observed : Option TurnObservation

abbrev pub quiet : Tracker → Folded
quiet t = record { tracker = t; signal = false; observed = none }

abbrev pub signalled : Tracker → Folded
signalled t = record { tracker = t; signal = true; observed = none }

abbrev pub ended_root : TurnObservation → Tracker → Folded
ended_root o t = record { tracker = record t { root = idle }; signal = true; observed = some o }

unfoldable pub fold_notice : Payload → Notice → Tracker → Folded
fold_notice p idle_prompt t = if is_root p then signalled (record t { root = idle }) else quiet t
fold_notice p permission_prompt t = signalled (set_permission p t)
fold_notice p elicitation_dialog t = signalled (set_member p waiting_for_input t)
fold_notice p agent_needs_input t = signalled (set_member p waiting_for_input t)
fold_notice p Notice.other t = quiet t

-- The switch on the event's name.
unfoldable pub fold_event : Payload → HookEvent → Tracker → Folded
fold_event p user_prompt_submit t = record {
  tracker = set_member p working t;
  signal = true;
  observed = if is_root p then some (turn TurnState.running "" "") else none;
}
fold_event p pre_tool_use t = signalled (set_member p working t)
fold_event p post_tool_use t = signalled (set_member p working t)
fold_event p post_tool_use_failure t = signalled (set_member p working t)
fold_event p permission_denied t = signalled (set_member p working t)
fold_event p stop t =
    if is_root p
    then ended_root (turn TurnState.completed "" p.last_assistant_message) t
    else quiet t
fold_event p stop_failure t =
    if is_root p
    then ended_root (turn TurnState.failed (failure_detail p) p.last_assistant_message) t
    else quiet t
fold_event p subagent_start t = signalled (
    if is_empty p.agent_id
    then t
    else record t { background = insert String-discrete p.agent_id working t.background })
fold_event p subagent_stop t =
    signalled (record t { background = erase String-discrete p.agent_id t.background })
fold_event p task_created t = signalled (
    if is_empty p.task_id
    then t
    else record t { background = insert String-discrete p.task_id working t.background })
fold_event p task_completed t =
    signalled (record t { background = erase String-discrete p.task_id t.background })
fold_event p permission_request t = signalled (
    if differ String-discrete p.tool_name "AskUserQuestion"
    then set_permission p t
    else set_member p waiting_for_input t)
fold_event p notification t = fold_notice p p.notice t
fold_event p HookEvent.other t = quiet t

-- `apply`: the tracker, the aggregate, whether there is a signal, and the turn. A snapshot is a signal.
unfoldable pub apply : Payload → Tracker → Tracker × ThreadStatus × Bool × Option TurnObservation
apply p t =
    let f = fold_event p p.event (take_snapshot p.background_tasks t) in
    (f.tracker, aggregate f.tracker, f.signal || is_some p.background_tasks, f.observed)

unfoldable pub apply_all : List Payload → Tracker → Tracker
apply_all [] t = t
apply_all (p ∷ ps) t = apply_all ps (apply p t).0
