-- ===== src/Terminals/Histories.antt =====
-- internal/terminals/service.go: histories of the parts that the locks make whole.
use atelier_code.Shared.{ℕ, String, ◌≢◌, Option, List, if-cases, option-cases, String-discrete}
use atelier_code.Finite.{lookup}
use atelier_code.Terminals.Spaces.{mark_deleting}
use atelier_code.Terminals.State.{Service, Result, TerminalRecord, Texts}
use atelier_code.Terminals.Reconcile.{Candidate, Finding, inspect_all, apply_all, publish_updates}
use atelier_code.Terminals.Requests.{World, Patch, update, record_stop, remove_record}
use atelier_code.Terminals.Create.{AppLaunch, commit, unsettle}
use atelier_code.Terminals.Durable.{
  IsDurable, inspect_all-IsDurable, apply_all-IsDurable, publish_updates-IsDurable,
}
use atelier_code.Terminals.Durable.Requests.{
  record_stop-IsDurable, remove_record-IsDurable, update-IsDurable,
}
use atelier_code.Terminals.Durable.Minting.{commit-IsDurable}

-- One part of a pass, of an update, a deletion or a creation of a terminal, or the mark of a space; it
-- removes a terminal only if `IsRemovable`. The candidates of a pass are any: they may have been
-- decided long before.
pub data Step (IsRemovable : String → Type 0) : Service → Service → Type 0 where
  inspecting :
      {s : Service} (w : String → Finding) (cs : List Candidate)
      → Step IsRemovable s (inspect_all w cs s).0
  applying : {s : Service} (cs : List Candidate) → Step IsRemovable s (apply_all cs s).0
  publishing : {s : Service} (ids : List String) → Step IsRemovable s (publish_updates ids s)
  updating :
      {s : Service} (w : World) (x : Texts) (k : String) (name space : Patch)
      → Step IsRemovable s (update w x k name space s).0
  stopping : {s : Service} (w : World) (k : String) → Step IsRemovable s (record_stop w k s).0
  removing :
      {s : Service} (w : World) (k : String)
      → IsRemovable k
      → Step IsRemovable s (remove_record w k s).0
  committing :
      {s : Service} (w : World) (x : Texts) (launch : AppLaunch) (r : TerminalRecord)
      (ids : List String)
      → Step IsRemovable s (commit w x launch r ids s).0
  marking : {s : Service} (k : String) → Step IsRemovable s (mark_deleting k s).0
  unsettling : {s : Service} (k : String) → Step IsRemovable s (unsettle k s)

pub data History (IsRemovable : String → Type 0) : Service → Service → Type 0 where
  rest : {s : Service} → History IsRemovable s s
  step :
      {s t u : Service} → Step IsRemovable s t → History IsRemovable t u → History IsRemovable s u

Step-IsDurable :
    {id : String} {s t : Service} (x : ℕ × Option ℕ)
    → Step (λ k. k ≢ id) s t
    → IsDurable id x s
    → IsDurable id x t
unfolding unsettle mark_deleting
Step-IsDurable {id} x (inspecting {s} w cs) d = inspect_all-IsDurable id x w cs s d
Step-IsDurable {id} x (applying {s} cs) d = apply_all-IsDurable id x cs s d
Step-IsDurable {id} x (publishing {s} ids) d = publish_updates-IsDurable id x ids s d
Step-IsDurable {id} x (updating {s} w y k name space) d = update-IsDurable id x w y k name space s d
Step-IsDurable {id} x (stopping {s} w k) d = record_stop-IsDurable id x w k s d
Step-IsDurable {id} x (removing {s} w k n) d = remove_record-IsDurable id x w k s n d
Step-IsDurable {id} x (committing {s} w y l r ids) d = commit-IsDurable id x w y l r ids s d
Step-IsDurable {id} x (marking {s} k) d =
    option-cases (λ (y : Service × Result (List String)). IsDurable id x y.0)
      (lookup String-discrete k s.space_view) (λ e. d)
      (λ r e.
        if-cases (λ (y : Service × Result (List String)). IsDurable id x y.0) r.is_default (λ f. d)
          (λ f. d))
Step-IsDurable {id} x (unsettling {s} k) d = d

-- An exit that the view and the table hold stays there, with its time and its code, under every part
-- of a pass, whenever its candidates were decided, every update and stop, the creation of terminals
-- and the removal of others, in any order, until the terminal itself is removed.
pub History-IsDurable :
    {id : String} {s t : Service} (x : ℕ × Option ℕ)
    → History (λ k. k ≢ id) s t
    → IsDurable id x s
    → IsDurable id x t
History-IsDurable x rest d = d
History-IsDurable x (step a h) d = History-IsDurable x h (Step-IsDurable x a d)
