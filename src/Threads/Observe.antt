-- ===== src/Threads/Observe.antt =====
-- internal/threads/service.go: what the providers' observations do to the service.
use atelier_code.Shared.{
  ℕ, String, Bool, true, false, not, ◌&&◌, Option, none, some, List, [], ◌∷◌, String-discrete,
  is_empty, is_zero, is_some, differ, if◌then◌else◌,
}
use atelier_code.Finite.{lookup, insert, erase, keys, erase_where, select}
use atelier_code.Threads.Record.{ThreadStatus, ThreadRecord}
use atelier_code.Threads.Turns.{TurnObservation}
use atelier_code.Threads.Evidence.{apply_status, coerce_record}
use atelier_code.Threads.Metadata.{Metadata}
use atelier_code.Threads.State.{
  IdentityKey, IdentityKey-discrete, Service, World, Method, ok, err, thread_updated,
  terminal_updated, ◌>>=◌, ◌>>◌, return, read, modify, branch, on_option, publish, publish_when,
  view_of, assign_view, update_row,
}

pub record SessionObservation : Type 0 where
  pub integration_id : String
  pub app_id : String
  pub agent_id : String
  pub provider_id : String
  pub terminal_id : String
  pub initial_directory : String
  pub at : ℕ
  pub status : ThreadStatus
  pub status_detail : String
  pub turn : Option TurnObservation
  pub metadata : Metadata

pub record StatusObservation : Type 0 where
  pub integration_id : String
  pub provider_id : String
  pub at : ℕ
  pub status : ThreadStatus
  pub status_detail : String
  pub turn : Option TurnObservation
  pub metadata : Metadata

pub record ExternalObservation : Type 0 where
  pub integration_id : String
  pub provider_id : String
  pub initial_directory : String
  pub at : ℕ
  pub status : ThreadStatus
  pub agent_id : String
  pub title : String
  pub status_detail : String
  pub turn : Option TurnObservation
  pub metadata : Metadata

-- `if at.IsZero() { at = s.now() }`.
abbrev pub time_of : World → ℕ → ℕ
time_of w at = if is_zero at then w.now else at

abbrev pub identity_of : IdentityKey → Service → Option String
identity_of key s = lookup IdentityKey-discrete key s.identities

unfoldable pub forget_prior : String → Method (Unit {0})
forget_prior id = modify (λ s. record s { prior_status = erase String-discrete id s.prior_status })

-- `applyStatus`: the record, and what it forgets of the prior status.
unfoldable pub fold_evidence :
    World
    → ThreadRecord
    → ThreadStatus
    → String
    → Option TurnObservation
    → ℕ
    → Bool
    → ThreadRecord × Bool
fold_evidence w r status detail turn at active = apply_status r status detail turn at w.fresh active

unfoldable pub settle_prior : String → ThreadRecord → Method (Unit {0})
settle_prior id r = branch (is_some r.pending) (return tt) (forget_prior id)

-- The row, then, if there was one, the view.
unfoldable pub save : World → String → ThreadRecord → Method Bool
save w id r = do
  updated ← update_row w r
  branch updated (do assign_view id r; return true) (return false)

-- A failure is logged and reads as "not done".
unfoldable pub quietly : Method Bool → Method Bool
quietly m s = let (s', r) = m s in elim r [ ok b ↦ (s', ok b) | err e ↦ (s', ok false) ]

unfoldable pub coerce_inactive : World → String → Method Bool
coerce_inactive w id = do
  entry ← read (view_of id)
  on_option entry (return false) λ r.
      branch (coerce_record r).1
        (quietly (save w id (record (coerce_record r).0 { updated_at = w.now }))) (return false)

-- The terminals other than `terminal` that have the thread open.
abbrev pub is_other_holder : String → String → String → String → Bool
is_other_holder thread terminal t id =
    not (differ String-discrete id thread) && differ String-discrete t terminal

unfoldable pub other_holders : String → String → Service → List String
other_holders thread terminal s =
    select String-discrete (is_other_holder thread terminal) (keys String-discrete s.active)
      s.active

-- `previous` where another thread was active in the terminal, else the empty text.
abbrev pub displaced_by : String → Option String → String
displaced_by thread none = ""
displaced_by thread (some previous) =
    if differ String-discrete previous thread then previous else ""

-- `s.active[terminalID] != threadID`, a missing entry read as the empty text.
abbrev pub shows_another : String → Option String → Bool
shows_another thread none = differ String-discrete "" thread
shows_another thread (some previous) = differ String-discrete previous thread

abbrev pub active_of : String → Service → Option String
active_of terminal s = lookup String-discrete terminal s.active

-- The moves of the active projection in `commit`: last observer wins.
unfoldable pub take_terminal : String → String → Service → Service
take_terminal thread terminal s =
    let released =
      erase_where String-discrete (is_other_holder thread terminal) (keys String-discrete s.active)
        s.active in
    record s { active = insert String-discrete terminal thread released }

unfoldable pub publish_terminals : List String → Method (Unit {0})
publish_terminals [] = return tt
publish_terminals (t ∷ ts) = do publish (terminal_updated t); publish_terminals ts

-- `commit`, after the view took the record.
unfoldable pub move_active : World → String → String → Bool → Method (Unit {0})
move_active w thread terminal changed = do
  others ← read (other_holders thread terminal)
  before ← read (active_of terminal)
  modify (take_terminal thread terminal)
  displaced ←
      branch (is_empty (displaced_by thread before)) (return false)
        (coerce_inactive w (displaced_by thread before))
  publish_when displaced (thread_updated (displaced_by thread before))
  publish_when changed (thread_updated thread)
  publish_terminals others
  publish_when (shows_another thread before) (terminal_updated terminal)

unfoldable pub commit : World → ThreadRecord → String → String → Bool → Method (Unit {0})
commit w r thread terminal changed = do assign_view thread r; move_active w thread terminal changed
