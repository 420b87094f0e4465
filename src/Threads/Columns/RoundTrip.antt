-- ===== src/Threads/Columns/RoundTrip.antt =====
-- internal/store/threads.go: what `insertThreadParams` writes, `threadFrom` reads back.
use atelier_code.Shared.{
  ℕ, ℕ_discrete, String, Bool, true, false, ◌≡◌, refl, ap, ◌∙◌, Option, none, some, arith, is_empty,
  OnSome, if-cases,
}
use atelier_code.Threads.Record.{TurnState, TurnRecord, PendingTurnRecord, ThreadRecord}
use atelier_code.Threads.Columns.{
  null_string, text_of, null_state, state_of, bool_int, is_set, null_time, parse_null, as_set,
  turn_of, pending_of, assembled, turn_columns, pending_columns, thread_row, turn_from,
  pending_from, record_from, thread_from,
}

text-null : (s : String) → text_of (null_string s) ≡ s
unfolding text_of null_string
text-null s = if-cases (λ o. text_of o ≡ s) (is_empty s) (λ e. ground (arith, e)) (λ e. refl)

state-null : (s : TurnState) → state_of (null_state s) ≡ s
unfolding state_of null_state
state-null TurnState.unreported = refl
state-null TurnState.unknown = refl
state-null TurnState.running = refl
state-null TurnState.completed = refl
state-null TurnState.failed = refl
state-null TurnState.interrupted = refl

is_set-bool : (b : Bool) → is_set (bool_int b) ≡ b
unfolding bool_int ℕ_discrete
is_set-bool true = refl
is_set-bool false = refl

null-full : (s : String) → is_empty s ≡ false → null_string s ≡ some s
unfolding null_string
null-full s h =
    if-cases (λ o. o ≡ some s) (is_empty s) (λ e. absurd (ground (arith, e, h))) (λ e. refl)

module _ (print : ℕ → String) (parse : String → Option ℕ) where
  -- A time that reads back from what is written for it, which is not empty.
  abbrev pub IsPrinted : ℕ → Type 0
  IsPrinted t = (parse (print t) ≡ some t) × (is_empty (print t) ≡ false)

  -- A turn with an id, and times that read back.
  abbrev pub IsTurn : TurnRecord → Type 0
  IsTurn t = (is_empty t.id ≡ false) × IsPrinted t.started_at × OnSome IsPrinted t.completed_at

  abbrev pub IsPending : PendingTurnRecord → Type 0
  IsPending p = (is_empty p.id ≡ false) × IsPrinted p.submitted_at

  parse_null-time :
      (o : Option ℕ) → OnSome IsPrinted o → parse_null parse (null_time print o) ≡ some o
  unfolding parse_null null_time as_set
  parse_null-time none h = refl
  parse_null-time (some t) h = ap (parse_null parse) (null-full (print t) h.1) ∙ ap as_set h.0

  turn_from-columns :
      (o : Option TurnRecord) → OnSome IsTurn o → turn_from parse (turn_columns print o) ≡ some o
  unfolding turn_from turn_columns turn_of
  turn_from-columns none h = refl
  turn_from-columns (some t) (full, started, completed) =
      rw
        (
          null-full t.id full,
          text-null (print t.started_at),
          started.0,
          parse_null-time t.completed_at completed,
          text-null t.provider_id,
          state-null t.state,
          text-null t.error,
          text-null t.response,
        )
        refl

  pending_from-columns :
      (o : Option PendingTurnRecord)
      → OnSome IsPending o
      → pending_from parse (pending_columns print o) ≡ some o
  unfolding pending_from pending_columns pending_of text_of
  pending_from-columns none h = refl
  pending_from-columns (some p) (full, submitted) =
      rw (null-full p.id full, null-full (print p.submitted_at) submitted.1, submitted.0) refl

  -- Every time of a record reads back, and its turn and its submission have ids.
  pub record IsWritable (r : ThreadRecord) : Type 0 where
    pub created : IsPrinted r.created_at
    pub updated : IsPrinted r.updated_at
    pub evidence : OnSome IsPrinted r.last_evidence_at
    pub archived : OnSome IsPrinted r.archived_at
    pub turn : OnSome IsTurn r.turn
    pub pending : OnSome IsPending r.pending

-- A thread's record is read back from its row as it was, if every time in it reads back from what is
-- written for it, which is not empty, and its turn and its submission, where it has them, have ids.
pub thread_from-row :
    (print : ℕ → String) (parse : String → Option ℕ) (r : ThreadRecord)
    → IsWritable print parse r
    → thread_from parse (thread_row print r) ≡ some r
unfolding thread_from thread_row assembled record_from
thread_from-row print parse r h =
    rw
      (
        h.created.0,
        h.updated.0,
        parse_null-time print parse r.last_evidence_at h.evidence,
        parse_null-time print parse r.archived_at h.archived,
        turn_from-columns print parse r.turn h.turn,
        pending_from-columns print parse r.pending h.pending,
        text-null r.app_id,
        text-null r.agent_id,
        text-null r.initial_directory,
        text-null r.project_id,
        text-null r.title,
        text-null r.model,
        text-null r.effort,
        text-null r.cwd,
        text-null r.permission_mode,
        text-null r.status_detail,
        is_set-bool r.title_user_set,
        is_set-bool r.archived,
      )
      refl
