-- ===== src/Threads/Record.antt =====
-- internal/store/threads.go and internal/api/thread.go: the records of a thread, its latest turn and
-- its pending submission. Statuses and turn states are Go strings with named constants: the empty
-- string is a constructor of its own, and `other` is a status that the program has no constant for.
use atelier_code.Shared.{ℕ, String, Bool, true, false, Option, String-discrete}

pub data ThreadStatus : Type 0 where
  unclaimed unknown idle working waiting_for_input waiting_for_permission error : ThreadStatus
  other : String → ThreadStatus

pub data TurnState : Type 0 where
  unreported unknown running completed failed interrupted : TurnState

pub ThreadStatus-discrete : Discrete ThreadStatus
ThreadStatus-discrete = hlevel String-discrete

pub TurnState-discrete : Discrete TurnState
TurnState-discrete = hlevel

pub record TurnRecord : Type 0 where
  pub id : String
  pub provider_id : String
  pub state : TurnState
  pub started_at : ℕ
  pub completed_at : Option ℕ
  pub error : String
  pub response : String

pub record PendingTurnRecord : Type 0 where
  pub id : String
  pub prior : String
  pub submitted_at : ℕ

pub record ThreadRecord : Type 0 where
  pub id : String
  pub integration_id : String
  pub app_id : String
  pub agent_id : String
  pub initial_directory : String
  pub project_id : String
  pub terminal_id : Option String
  pub title : String
  pub title_user_set : Bool
  pub model : String
  pub effort : String
  pub cwd : String
  pub permission_mode : String
  pub status : ThreadStatus
  pub status_detail : String
  pub last_evidence_at : Option ℕ
  pub archived : Bool
  pub archived_at : Option ℕ
  pub created_at : ℕ
  pub updated_at : ℕ
  pub turn : Option TurnRecord
  pub pending : Option PendingTurnRecord

-- `TurnState.Ended`.
unfoldable pub ended : TurnState → Bool
ended TurnState.completed = true
ended TurnState.failed = true
ended TurnState.interrupted = true
ended _ = false

-- Working, or waiting on the user.
unfoldable pub is_live : ThreadStatus → Bool
is_live ThreadStatus.working = true
is_live ThreadStatus.waiting_for_input = true
is_live ThreadStatus.waiting_for_permission = true
is_live _ = false
