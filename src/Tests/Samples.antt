-- ===== src/Tests/Samples.antt =====
-- Concrete worlds, observations and records that the tests share.
use atelier_code.Shared.{ℕ, String, false, none, some, List, [], ◌∷◌}
use atelier_code.Threads.Record.{
  ThreadStatus, TurnState, TurnRecord, PendingTurnRecord, ThreadRecord,
}
use atelier_code.Threads.Turns.{TurnObservation}
use atelier_code.Threads.Metadata.{Metadata}
use atelier_code.Threads.Observe.{SessionObservation}
use atelier_code.Threads.State.{Service, World, TerminalStatus, ok}

abbrev pub empty_service : Service
empty_service = record {
  rows = [];
  identity_rows = [];
  view = [];
  identities = [];
  identity_keys = [];
  active = [];
  held = [];
  opening = [];
  prior_status = [];
  published = [];
}

abbrev pub world : ℕ → List String → World
world now draws = record {
  now = now;
  fresh = "turn";
  candidates = draws;
  canonical = λ dir. some dir;
  projects = ok ((record { id = "p1"; directory = "/work" }) ∷ []);
  terminal = λ t. some TerminalStatus.running;
  sort = λ l. l;
  refuse = λ r. none;
  refuse_id = λ id. none;
}

abbrev pub no_metadata : Metadata
no_metadata = record { title = ""; model = ""; effort = ""; cwd = ""; permission_mode = "" }

-- The conversation `provider` shows itself in `terminal`, working.
abbrev pub session : String → String → SessionObservation
session provider terminal = record {
  integration_id = "codex";
  app_id = "";
  agent_id = "agent";
  provider_id = provider;
  terminal_id = terminal;
  initial_directory = "/work/site";
  at = 7;
  status = ThreadStatus.working;
  status_detail = "";
  turn = none;
  metadata = no_metadata;
}

abbrev pub turn_report : String → TurnState → TurnObservation
turn_report provider state = record {
  provider_id = provider;
  state = state;
  started_at = 0;
  completed_at = 0;
  error = "";
  response = "";
}

abbrev pub running_turn : TurnRecord
running_turn = record {
  id = "t1";
  provider_id = "q1";
  state = TurnState.running;
  started_at = 3;
  completed_at = none;
  error = "";
  response = "";
}

abbrev pub ended_turn : TurnRecord
ended_turn = record running_turn {
  state = TurnState.completed;
  completed_at = some 5;
  response = "hi";
}

abbrev pub working_thread : ThreadRecord
working_thread = record {
  id = "th";
  integration_id = "codex";
  app_id = "";
  agent_id = "agent";
  initial_directory = "/work/site";
  project_id = "p1";
  terminal_id = some "w1";
  title = "";
  title_user_set = false;
  model = "";
  effort = "";
  cwd = "";
  permission_mode = "";
  status = ThreadStatus.working;
  status_detail = "";
  last_evidence_at = some 3;
  archived = false;
  archived_at = none;
  created_at = 1;
  updated_at = 3;
  turn = some running_turn;
  pending = none;
}

abbrev pub submission : PendingTurnRecord
submission = record { id = "s1"; prior = "q1"; submitted_at = 4 }
