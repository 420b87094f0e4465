-- ===== src/Threads/Columns.antt =====
-- internal/store/threads.go: the columns of a thread's row, and the record that they make again. A
-- nullable text is an `Option`; a status is a text whose named constants are constructors. Go's layout
-- of a time is outside: `print` writes a time and `parse` reads one.
pub mod RoundTrip
use atelier_code.Shared.{
  ℕ, String, Bool, true, false, not, ◌≡◌, refl, ◌∙◌, ap, Option, none, some, arith, String-discrete,
  ℕ_discrete, is_empty, is_some, differ, OnSome, if◌then◌else◌, if-cases, Bool-cases, inl, inr,
}
use atelier_code.Threads.Record.{
  ThreadStatus, TurnState, unreported, TurnRecord, PendingTurnRecord, ThreadRecord,
}

pub record ThreadRow : Type 0 where
  pub id : String
  pub integration_id : String
  pub app_id : Option String
  pub agent_id : Option String
  pub initial_directory : Option String
  pub project_id : Option String
  pub terminal_id : Option String
  pub title : Option String
  pub title_user_set : ℕ
  pub model : Option String
  pub effort : Option String
  pub cwd : Option String
  pub permission_mode : Option String
  pub status : ThreadStatus
  pub status_detail : Option String
  pub last_evidence_at : Option String
  pub archived : ℕ
  pub archived_at : Option String
  pub created_at : String
  pub updated_at : String
  pub turn_id : Option String
  pub turn_provider_id : Option String
  pub turn_state : Option TurnState
  pub turn_started_at : Option String
  pub turn_completed_at : Option String
  pub turn_error : Option String
  pub turn_response : Option String
  pub pending_turn_id : Option String
  pub pending_turn_prior : Option String
  pub pending_turn_submitted_at : Option String

-- An empty text is NULL.
unfoldable pub null_string : String → Option String
null_string s = if is_empty s then none else some s

-- The text of a column, empty for NULL.
unfoldable pub text_of : Option String → String
text_of none = ""
text_of (some s) = s

unfoldable pub null_state : TurnState → Option TurnState
null_state unreported = none
null_state s = some s

unfoldable pub state_of : Option TurnState → TurnState
state_of none = unreported
state_of (some s) = s

unfoldable pub bool_int : Bool → ℕ
bool_int true = 1
bool_int false = 0

abbrev pub is_set : ℕ → Bool
is_set n = differ ℕ_discrete n 0

pub record TurnColumns : Type 0 where
  pub id : Option String
  pub provider_id : Option String
  pub state : Option TurnState
  pub started_at : Option String
  pub completed_at : Option String
  pub error : Option String
  pub response : Option String

pub record PendingColumns : Type 0 where
  pub id : Option String
  pub prior : Option String
  pub submitted_at : Option String

module _ (print : ℕ → String) where
  unfoldable pub null_time : Option ℕ → Option String
  null_time none = none
  null_time (some t) = null_string (print t)

  unfoldable pub turn_columns : Option TurnRecord → TurnColumns
  turn_columns none = record {
    id = none;
    provider_id = none;
    state = none;
    started_at = none;
    completed_at = none;
    error = none;
    response = none;
  }
  turn_columns (some t) = record {
    id = null_string t.id;
    provider_id = null_string t.provider_id;
    state = null_state t.state;
    started_at = null_string (print t.started_at);
    completed_at = null_time t.completed_at;
    error = null_string t.error;
    response = null_string t.response;
  }

  -- The prior id is stored as given, also when it is empty.
  unfoldable pub pending_columns : Option PendingTurnRecord → PendingColumns
  pending_columns none = record { id = none; prior = none; submitted_at = none }
  pending_columns (some p) = record {
    id = null_string p.id;
    prior = some p.prior;
    submitted_at = null_string (print p.submitted_at);
  }

  -- `insertThreadParams`.
  unfoldable pub thread_row : ThreadRecord → ThreadRow
  thread_row r =
      let turn = turn_columns r.turn in
      let pending = pending_columns r.pending in
      record {
        id = r.id;
        integration_id = r.integration_id;
        app_id = null_string r.app_id;
        agent_id = null_string r.agent_id;
        initial_directory = null_string r.initial_directory;
        project_id = null_string r.project_id;
        terminal_id = r.terminal_id;
        title = null_string r.title;
        title_user_set = bool_int r.title_user_set;
        model = null_string r.model;
        effort = null_string r.effort;
        cwd = null_string r.cwd;
        permission_mode = null_string r.permission_mode;
        status = r.status;
        status_detail = null_string r.status_detail;
        last_evidence_at = null_time r.last_evidence_at;
        archived = bool_int r.archived;
        archived_at = null_time r.archived_at;
        created_at = print r.created_at;
        updated_at = print r.updated_at;
        turn_id = turn.id;
        turn_provider_id = turn.provider_id;
        turn_state = turn.state;
        turn_started_at = turn.started_at;
        turn_completed_at = turn.completed_at;
        turn_error = turn.error;
        turn_response = turn.response;
        pending_turn_id = pending.id;
        pending_turn_prior = pending.prior;
        pending_turn_submitted_at = pending.submitted_at;
      }

-- A time that has been read, in a column that is not NULL.
unfoldable pub as_set : Option ℕ → Option (Option ℕ)
as_set none = none
as_set (some t) = some (some t)

-- The turn of a row with this id and these times, read or not: there is one if the id is not NULL.
unfoldable pub turn_of :
    TurnColumns → Option String → Option ℕ → Option (Option ℕ) → Option (Option TurnRecord)
turn_of c none started completed = some none
turn_of c (some id) none completed = none
turn_of c (some id) (some started) none = none
turn_of c (some id) (some started) (some completed) = some (
    some (record {
      id = id;
      provider_id = text_of c.provider_id;
      state = state_of c.state;
      started_at = started;
      completed_at = completed;
      error = text_of c.error;
      response = text_of c.response;
    }))

unfoldable pub pending_of :
    PendingColumns → Option String → Option ℕ → Option (Option PendingTurnRecord)
pending_of c none submitted = some none
pending_of c (some id) none = none
pending_of c (some id) (some submitted) =
    some (some (record { id = id; prior = text_of c.prior; submitted_at = submitted }))

abbrev pub turn_columns_of_row : ThreadRow → TurnColumns
turn_columns_of_row r = record {
  id = r.turn_id;
  provider_id = r.turn_provider_id;
  state = r.turn_state;
  started_at = r.turn_started_at;
  completed_at = r.turn_completed_at;
  error = r.turn_error;
  response = r.turn_response;
}

abbrev pub pending_columns_of_row : ThreadRow → PendingColumns
pending_columns_of_row r = record {
  id = r.pending_turn_id;
  prior = r.pending_turn_prior;
  submitted_at = r.pending_turn_submitted_at;
}

-- The record of a row whose times have been read.
unfoldable pub record_from :
    ThreadRow
    → ℕ
    → ℕ
    → Option ℕ
    → Option ℕ
    → Option TurnRecord
    → Option PendingTurnRecord
    → ThreadRecord
record_from r created updated evidence archived turn pending = record {
  id = r.id;
  integration_id = r.integration_id;
  app_id = text_of r.app_id;
  agent_id = text_of r.agent_id;
  initial_directory = text_of r.initial_directory;
  project_id = text_of r.project_id;
  terminal_id = r.terminal_id;
  title = text_of r.title;
  title_user_set = is_set r.title_user_set;
  model = text_of r.model;
  effort = text_of r.effort;
  cwd = text_of r.cwd;
  permission_mode = text_of r.permission_mode;
  status = r.status;
  status_detail = text_of r.status_detail;
  last_evidence_at = evidence;
  archived = is_set r.archived;
  archived_at = archived;
  created_at = created;
  updated_at = updated;
  turn = turn;
  pending = pending;
}

-- The record, if every part has been read.
unfoldable pub assembled :
    ThreadRow
    → Option ℕ
    → Option ℕ
    → Option (Option ℕ)
    → Option (Option ℕ)
    → Option (Option TurnRecord)
    → Option (Option PendingTurnRecord)
    → Option ThreadRecord
assembled r (some created) (some updated) (some evidence) (some archived) (some turn)
      (some pending) =
    some (record_from r created updated evidence archived turn pending)
assembled r _ _ _ _ _ _ = none

module _ (parse : String → Option ℕ) where
  unfoldable pub parse_null : Option String → Option (Option ℕ)
  parse_null none = some none
  parse_null (some s) = as_set (parse s)

  unfoldable pub turn_from : TurnColumns → Option (Option TurnRecord)
  turn_from c = turn_of c c.id (parse (text_of c.started_at)) (parse_null c.completed_at)

  unfoldable pub pending_from : PendingColumns → Option (Option PendingTurnRecord)
  pending_from c = pending_of c c.id (parse (text_of c.submitted_at))

  -- `threadFrom`.
  unfoldable pub thread_from : ThreadRow → Option ThreadRecord
  thread_from r =
      assembled r (parse r.created_at) (parse r.updated_at) (parse_null r.last_evidence_at)
        (parse_null r.archived_at) (turn_from (turn_columns_of_row r))
        (pending_from (pending_columns_of_row r))
