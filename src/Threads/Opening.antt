-- ===== src/Threads/Opening.antt =====
-- internal/threads/service.go: `Open`, cut where it lets go of the lock. A call decides (`decide_open`),
-- and either ends with a terminal, waits, or begins a launch, which marks the thread as opening
-- (`mark_opening`); when the launch returns, its terminal is linked (`link`) and the mark cleared.
use atelier_code.Shared.{
  String, Bool, true, false, not, ◌&&◌, ◌||◌, Option, none, some, String-discrete, is_empty, differ,
  if◌then◌else◌,
}
use atelier_code.Finite.{insert, erase}
use atelier_code.Threads.Record.{ThreadRecord}
use atelier_code.Threads.Holders.{active_holder}
use atelier_code.Threads.State.{
  Service, World, Method, TerminalStatus, thread_updated, not_found, ◌>>=◌, ◌>>◌, return, throw,
  read, branch, on_option, publish, view_of,
}
use atelier_code.Threads.Observe.{save, active_of}
use atelier_code.Threads.Requests.{is_opening}

-- `terminalUp`: anything but definitive absence.
unfoldable pub terminal_up : World → String → Bool
terminal_up w t = elim (w.terminal t) [
  | none ↦ false
  | some TerminalStatus.exited ↦ false
  | some TerminalStatus.missing ↦ false
  | some _ ↦ true
]

-- The fields that `link` moves, and whether that changes the record.
unfoldable pub linked : ThreadRecord → String → ThreadRecord × Bool
linked r t = (
  record r {
    terminal_id = some t;
    archived = false;
    archived_at = if r.archived then none else r.archived_at;
  },
  points_elsewhere r.terminal_id || r.archived,
)
  where
    points_elsewhere : Option String → Bool
    points_elsewhere none = true
    points_elsewhere (some old) = differ String-discrete old t

unfoldable pub link : World → String → String → Method (Unit {0})
link w id t = do
  entry ← read (view_of id)
  on_option entry (throw not_found) λ r.
      branch ((linked r t).1)
        (do
          updated ← save w id (record (linked r t).0 { updated_at = w.now })
          branch updated (publish (thread_updated id)) (throw not_found))
        (return tt)

pub data Decision : Type 0 where
  reuse : String → Decision
  wait launch : Decision

-- Rule 2: the last terminal is up and no other conversation is known to hold it.
unfoldable pub last_terminal : World → Service → String → Option String → String
last_terminal w s id none = ""
last_terminal w s id (some t) = if is_free (active_of t s) && terminal_up w t then t else ""
  where
    is_free : Option String → Bool
    is_free none = true
    is_free (some other) = is_empty other || not (differ String-discrete other id)

-- The terminal to reuse, or the empty text.
unfoldable pub reusable : World → Service → String → ThreadRecord → String
reusable w s id r =
    let shown = active_holder id s in
    if not (is_empty shown) && terminal_up w shown
    then shown
    else last_terminal w s id r.terminal_id

-- `decideOpen`.
unfoldable pub decide_open : World → String → Method Decision
decide_open w id = do
  entry ← read (view_of id)
  on_option entry (throw not_found) λ r. do
    t ← read (λ s. reusable w s id r)
    opening ← read (is_opening id)
    branch (is_empty t) (return (if opening then wait else launch))
        (do link w id t; return (reuse t))

-- `s.opening[id] = done`, and its removal.
unfoldable pub mark_opening : String → Service → Service
mark_opening id s = record s { opening = insert String-discrete id tt s.opening }

unfoldable pub clear_opening : String → Service → Service
clear_opening id s = record s { opening = erase String-discrete id s.opening }
