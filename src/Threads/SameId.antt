-- ===== src/Threads/SameId.antt =====
-- internal/threads: no fold, patch or link changes a record's id.
use atelier_code.Shared.{ℕ, String, Bool, true, false, ◌≡◌, ◌∙◌, ap, Option, none, some, arith}
use atelier_code.Threads.Record.{ThreadStatus, ThreadRecord}
use atelier_code.Threads.Turns.{TurnObservation}
use atelier_code.Threads.Evidence.{coerce_record}
use atelier_code.Threads.Evidence.Frame.{apply_status-OnlyEvidence, coerce_record-OnlyEvidence}
use atelier_code.Threads.Metadata.{Metadata, apply_metadata}
use atelier_code.Threads.Observe.{SessionObservation, fold_evidence}
use atelier_code.Threads.Sessions.{reattach, with_times}
use atelier_code.Threads.Leaving.{detached}
use atelier_code.Threads.External.{retitle, unarchive, archive_record}
use atelier_code.Threads.Requests.{patch_title, patch_archived}
use atelier_code.Threads.Opening.{linked}
use atelier_code.Threads.State.{World}

module _ {id : String} (r : ThreadRecord) (same : r.id ≡ id) where
  pub coerce_record-id : (coerce_record r).0.id ≡ id
  coerce_record-id = ap (λ x. x.id) (coerce_record-OnlyEvidence r) ∙ same

  pub fold_evidence-id :
      (w : World) (status : ThreadStatus) (detail : String) (turn : Option TurnObservation) (at : ℕ)
      (active : Bool)
      → (fold_evidence w r status detail turn at active).0.id ≡ id
  unfolding fold_evidence
  fold_evidence-id w status detail turn at active =
      ap (λ x. x.id) (apply_status-OnlyEvidence r status detail turn at w.fresh active) ∙ same

  pub apply_metadata-id : (m : Metadata) → (apply_metadata r m).0.id ≡ id
  unfolding apply_metadata
  apply_metadata-id m = same

  pub with_times-id : (at : ℕ) (changed : Bool) → (with_times r at changed).id ≡ id
  unfolding with_times
  with_times-id at changed = same

  pub reattach-id : (o : SessionObservation) → (reattach r o).0.id ≡ id
  unfolding reattach
  reattach-id o = same

  pub retitle-id : (title : String) → (retitle r title).0.id ≡ id
  unfolding retitle
  retitle-id title = ground arith

  pub unarchive-id : (unarchive r).0.id ≡ id
  unfolding unarchive
  unarchive-id = ground arith

  pub linked-id : (t : String) → (linked r t).0.id ≡ id
  unfolding linked
  linked-id t = same

  pub patch_title-id : (title : Option String) → (patch_title title r).0.id ≡ id
  unfolding patch_title
  patch_title-id none = same
  patch_title-id (some t) = same

  pub patch_archived-id : (w : World) (u : Option Bool) → (patch_archived w u r).0.id ≡ id
  unfolding patch_archived
  patch_archived-id w none = same
  patch_archived-id w (some true) = ground arith
  patch_archived-id w (some false) = ground arith

module _ {id : String} (r : ThreadRecord) (same : r.id ≡ id) (w : World) where
  pub archive_record-id : (archive_record w r).0.id ≡ id
  unfolding archive_record
  archive_record-id = ground (arith, coerce_record-id r same)

  pub detached-id : (detached w r).id ≡ id
  unfolding detached
  detached-id = coerce_record-id (record r { terminal_id = none }) same

pub ruleset same_ids = (
  coerce_record-id, fold_evidence-id, apply_metadata-id, with_times-id, reattach-id, retitle-id,
  unarchive-id, linked-id, patch_title-id, patch_archived-id, archive_record-id, detached-id,
)
