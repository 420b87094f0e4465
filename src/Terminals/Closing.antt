-- ===== src/Terminals/Closing.antt =====
-- internal/terminals: a space whose deletion has begun takes no terminal.
use atelier_code.Shared.{String, ◌≡◌, sym, ap, ◌∙◌, some, String-discrete}
use atelier_code.Finite.{lookup}
use atelier_code.Terminals.State.{Service}
use atelier_code.Terminals.Histories.{
  History, rest, step, Step, inspecting, applying, publishing, updating, stopping, removing,
  committing, marking, unsettling,
}
use atelier_code.Terminals.Closed.{space_at, Shrinks, IsClosed}
use atelier_code.Terminals.Closed.Passes.{
  apply_all-Shrinks, publish_updates-Shrinks, inspect_all-Shrinks, unsettle-Shrinks,
  mark_deleting-Shrinks,
}
use atelier_code.Terminals.Closed.Requests.{
  record_stop-Shrinks, remove_record-Shrinks, update-Shrinks,
}
use atelier_code.Terminals.Closed.Minting.{commit-Shrinks}

module _ (space : String) where
  Step-Shrinks : {s t : Service} → Step (λ k. Unit) s t → IsClosed space s → Shrinks space s t
  Step-Shrinks (inspecting {s} w cs) c = inspect_all-Shrinks space w cs s
  Step-Shrinks (applying {s} cs) c = apply_all-Shrinks space cs s
  Step-Shrinks (publishing {s} ids) c = publish_updates-Shrinks space ids s
  Step-Shrinks (updating {s} w x k name p) c = update-Shrinks space w x k name p s c
  Step-Shrinks (stopping {s} w k) c = record_stop-Shrinks space w k s
  Step-Shrinks (removing {s} w k n) c = remove_record-Shrinks space w k s
  Step-Shrinks (committing {s} w x l r ids) c = commit-Shrinks space w x l r ids s c
  Step-Shrinks (marking {s} k) c = mark_deleting-Shrinks space k s
  Step-Shrinks (unsettling {s} k) c = unsettle-Shrinks space k s

-- Once the deletion of a space has marked it, no terminal joins it: after any history of passes,
-- updates with their moves, deletions and creations of terminals, and marks, the view's terminals of
-- the space are terminals that it had, if the view has the spaces under their own ids.
pub History-closed :
    (space : String) {s t : Service}
    → History (λ k. Unit) s t
    → IsClosed space s
    → (k : String) → space_at k t.view ≡ some space
    → space_at k s.view ≡ some space
History-closed space rest c k h = h
History-closed space (step {s} {t} a r) c k h =
    let d = Step-Shrinks space a c in
    d.fewer k (
      History-closed space r
        (record {
          marked = d.mark_kept c.marked;
          keyed = λ v q e. c.keyed v q (ap (lookup String-discrete v) (sym d.view_kept) ∙ e);
        })
        k h)
