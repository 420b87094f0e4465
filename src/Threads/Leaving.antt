-- ===== src/Threads/Leaving.antt =====
-- internal/threads/service.go: status evidence, and terminals that leave.
use atelier_code.Shared.{
  ℕ, String, Bool, true, false, not, ◌&&◌, ◌||◌, Option, none, some, List, [], ◌∷◌, String-discrete,
  is_empty, differ,
}
use atelier_code.Finite.{erase, keys, select}
use atelier_code.Threads.Record.{ThreadRecord}
use atelier_code.Threads.Evidence.{coerce_record}
use atelier_code.Threads.Metadata.{apply_metadata}
use atelier_code.Threads.Holders.{holder, has_holder}
use atelier_code.Threads.State.{
  IdentityKey, World, Method, TerminalStatus, ok, thread_updated, terminal_updated, ◌>>=◌, ◌>>◌,
  return, read, modify, branch, on_option, publish, publish_when, view_of,
}
use atelier_code.Threads.Observe.{
  StatusObservation, time_of, identity_of, fold_evidence, settle_prior, save, quietly, active_of,
}
use atelier_code.Threads.Sessions.{with_times}

unfoldable pub status_key : StatusObservation → IdentityKey
status_key o = record { integration_id = o.integration_id; provider_id = o.provider_id }

unfoldable pub refresh : World → StatusObservation → ℕ → String → ThreadRecord → Method (Unit {0})
refresh w o at thread r = do
  held_by ← read (holder thread)
  let folded = fold_evidence w r o.status o.status_detail o.turn at (has_holder held_by)
  settle_prior r.id folded.0
  let (described, c2) = apply_metadata folded.0 o.metadata
  let changed = c2 || folded.1
  updated ← save w thread (with_times described at changed)
  publish_when (updated && changed) (thread_updated thread)

-- `ObserveStatus`. Evidence for an unmapped conversation is dropped.
unfoldable pub observe_status : World → StatusObservation → Method (Unit {0})
observe_status w o = do
  known ← read (identity_of (status_key o))
  on_option known (return tt) λ thread. do
    entry ← read (view_of thread)
    on_option entry (return tt) (refresh w o (time_of w o.at) thread)

-- `delete(s.active, terminal)`, announced.
unfoldable pub release_terminal : String → Method (Unit {0})
release_terminal terminal =
    modify (λ s. record s { active = erase String-discrete terminal s.active })

-- The coercion failed, so the active entry stays; else it goes and both changes are announced.
unfoldable pub leave : World → String → String → ThreadRecord → Method (Unit {0})
leave w terminal thread r = do
  let (coerced, changed) = coerce_record r
  saved ←
      branch changed (quietly (save w thread (record coerced { updated_at = w.now }))) (return true)
  branch saved
      (do
        release_terminal terminal
        publish_when changed (thread_updated thread)
        publish (terminal_updated terminal))
      (return tt)

-- `Deactivate`.
unfoldable pub deactivate : World → String → Method (Unit {0})
deactivate w terminal = do
  thread ← read (active_of terminal)
  on_option thread (return tt)
      λ id. do entry ← read (view_of id); on_option entry (return tt) (leave w terminal id)

abbrev pub is_in_terminal : String → String → ThreadRecord → Bool
is_in_terminal terminal id r = elim r.terminal_id [
  | none ↦ false
  | some t ↦ not (differ String-discrete t terminal)
]

-- The record of a thread whose terminal was deleted.
unfoldable pub detached : World → ThreadRecord → ThreadRecord
detached w r = record (coerce_record (record r { terminal_id = none })).0 { updated_at = w.now }

-- One affected thread: whether it stood in the way of clearing the active entry.
unfoldable pub detach_one : World → Option String → String → Method Bool
detach_one w active_thread id = do
  entry ← read (view_of id)
  on_option entry (return true) λ r. do
    saved ← quietly (save w id (detached w r))
    branch saved (do publish (thread_updated id); return true)
        (return (not (is_active_thread active_thread id)))
  where
    is_active_thread : Option String → String → Bool
    is_active_thread none thread = is_empty thread
    is_active_thread (some t) thread = not (differ String-discrete t thread)

unfoldable pub detach_all : World → Option String → List String → Method Bool
detach_all w active_thread [] = return true
detach_all w active_thread (id ∷ ids) =
    let others = detach_all w active_thread ids in
    do cleared ← detach_one w active_thread id; rest ← others; return (cleared && rest)

-- `TerminalRemoved`.
unfoldable pub terminal_removed : World → String → Method (Unit {0})
terminal_removed w terminal = do
  affected ←
      read
        (λ s. select String-discrete (is_in_terminal terminal) (keys String-discrete s.view) s.view)
  active_thread ← read (active_of terminal)
  cleared ← detach_all w active_thread affected
  branch cleared (release_terminal terminal) (return tt)

-- `Sweep`, over the terminals that have a thread open.
unfoldable pub sweep_one : World → String → Method (Unit {0})
sweep_one w terminal s = elim (w.terminal terminal) [
  | none ↦ terminal_removed w terminal s
  | some TerminalStatus.exited ↦ deactivate w terminal s
  | some TerminalStatus.missing ↦ deactivate w terminal s
  | some _ ↦ (s, ok tt)
]

unfoldable pub sweep_all : World → List String → Method (Unit {0})
sweep_all w [] = return tt
sweep_all w (t ∷ ts) = let others = sweep_all w ts in do sweep_one w t; others

unfoldable pub sweep : World → Method (Unit {0})
sweep w = do terminals ← read (λ s. keys String-discrete s.active); sweep_all w terminals
