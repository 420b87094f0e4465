-- ===== src/Threads/Resuming.antt =====
-- internal/threads/service.go, `Open`, from its decision to the end of the launch. The launch is a
-- `Resumer` outside the lock: its terminal and its error are arguments here, and `discard` is what its
-- discarding of a terminal does to the service.
pub mod Linking
pub mod Landing
use atelier_code.Shared.{
  String, Bool, true, false, ◌≡◌, refl, ◌⊎◌, ◌≢◌, inl, inr, Option, none, some, arith,
  String-discrete, is_empty,
}
use atelier_code.Finite.{lookup-erase}
use atelier_code.Threads.State.{
  Service, World, Method, Result, Error, ok, err, link_failed, compensation_failed, ◌>>=◌, ◌>>◌,
  return, throw, modify,
}
use atelier_code.Threads.Requests.{is_opening}
use atelier_code.Threads.Opening.{
  Decision, reuse, wait, launch, decide_open, link, mark_opening, clear_opening,
}

-- The terminal, whether it was launched now, and the launch's own error, which may come with one.
pub record Opened : Type 0 where
  pub terminal : String
  pub created : Bool
  pub failure : Option Error

-- The first half: an open that is to launch marks the thread.
unfoldable pub begin_open : World → String → Method Decision
begin_open w id = do d ← decide_open w id; mark d
  where
    mark : Decision → Method Decision
    mark (reuse t) = return (reuse t)
    mark wait = return wait
    mark launch = do modify (mark_opening id); return launch

-- An error is a value here, for the caller to look at.
unfoldable pub attempt : {A : Type 0} → Method A → Method (Result A)
attempt m s = let (t, r) = m s in (t, ok r)

-- `finish`.
unfoldable pub finish_open : String → Method (Unit {0})
finish_open id = modify (clear_opening id)

-- What follows the link of the launched terminal.
unfoldable pub after_link :
    String → String → Option Error → Method (Unit {0}) → Result (Unit {0}) → Method Opened
after_link id t failed discard (ok _) = do
  finish_open id
  return (record { terminal = t; created = true; failure = failed })
after_link id t failed discard (err _) = do
  discarded ← attempt discard
  finish_open id
  refused discarded
  where
    refused : Result (Unit {0}) → Method Opened
    refused (ok _) = throw link_failed
    refused (err _) = throw compensation_failed

-- The second half: the launch returned `t`, empty if there is no terminal, and maybe an error.
unfoldable pub land_open :
    World → String → String → Option Error → Method (Unit {0}) → Method Opened
land_open w id t none discard = do
  linked ← attempt (link w id t)
  after_link id t none discard linked
land_open w id t (some e) discard = elim (is_empty t) [
  | true ↦ do finish_open id; throw e
  | false ↦ do linked ← attempt (link w id t); after_link id t (some e) discard linked
]
