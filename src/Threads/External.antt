-- ===== src/Threads/External.antt =====
-- internal/threads/service.go: conversations that an Integration mirrors.
use atelier_code.Shared.{
  ℕ, String, Bool, true, false, not, ◌&&◌, ◌||◌, none, some, List, [], ◌∷◌, String-discrete,
  is_empty, differ, if◌then◌else◌,
}
use atelier_code.Finite.{insert, erase, keys, select}
use atelier_code.Threads.Record.{ThreadStatus, ThreadRecord}
use atelier_code.Threads.Evidence.{coerce_record}
use atelier_code.Threads.Metadata.{apply_metadata}
use atelier_code.Threads.State.{
  IdentityKey, Service, World, Method, thread_created, thread_updated, no_record, ◌>>=◌, ◌>>◌,
  return, throw, read, modify, branch, on_option, publish, publish_when, view_of,
}
use atelier_code.Threads.Observe.{
  ExternalObservation, time_of, identity_of, fold_evidence, settle_prior, save, coerce_inactive,
}
use atelier_code.Threads.Sessions.{
  blank_record, local_directory, classify, insert_thread, with_times,
}

unfoldable pub external_key : ExternalObservation → IdentityKey
external_key o = record { integration_id = o.integration_id; provider_id = o.provider_id }

-- `if status == "" { status = api.ThreadUnknown }`.
unfoldable pub claimed : ThreadStatus → ThreadStatus
claimed ThreadStatus.unclaimed = ThreadStatus.unknown
claimed s = s

unfoldable pub hold : String → Method (Unit {0})
hold id = modify (λ s. record s { held = insert String-discrete id tt s.held })

unfoldable pub mint_external : World → ExternalObservation → ℕ → Method String
mint_external w o at = do
  dir ← local_directory w o.initial_directory
  project ← classify w dir
  let blank = blank_record o.integration_id at
  let folded =
      fold_evidence w
        (record blank {
          agent_id = o.agent_id;
          initial_directory = dir;
          title = o.title;
          project_id = project;
        })
        (claimed o.status) o.status_detail o.turn at true
  settle_prior "" folded.0
  minted ← insert_thread w w.candidates (apply_metadata folded.0 o.metadata).0 (external_key o)
  hold minted.id
  publish (thread_created minted.id)
  return minted.id

-- The program's title applies unless the user set one.
unfoldable pub retitle : ThreadRecord → String → ThreadRecord × Bool
retitle r title =
    if not r.title_user_set && not (is_empty title)
    then (record r { title = title }, differ String-discrete r.title title)
    else (r, false)

unfoldable pub unarchive : ThreadRecord → ThreadRecord × Bool
unarchive r =
    if r.archived then (record r { archived = false; archived_at = none }, true) else (r, false)

unfoldable pub mirror : World → ExternalObservation → ℕ → String → ThreadRecord → Method String
mirror w o at thread r = do
  let folded =
      fold_evidence w (record r { agent_id = o.agent_id }) (claimed o.status) o.status_detail o.turn
        at true
  settle_prior r.id folded.0
  let (titled, c3) = retitle folded.0 o.title
  let (described, c4) = apply_metadata titled o.metadata
  let (shown, c5) = unarchive described
  let changed = c5 || c4 || c3 || folded.1 || differ String-discrete r.agent_id o.agent_id
  updated ← save w thread (with_times shown at changed)
  branch updated (do hold thread; publish_when changed (thread_updated thread); return thread)
      (return "")

-- `ObserveExternal`.
unfoldable pub observe_external : World → ExternalObservation → Method String
observe_external w o = do
  known ← read (identity_of (external_key o))
  on_option known (mint_external w o (time_of w o.at)) λ thread. do
    entry ← read (view_of thread)
    on_option entry (throw (no_record thread)) (mirror w o (time_of w o.at) thread)

unfoldable pub drop_hold : String → Method (Unit {0})
drop_hold id = modify (λ s. record s { held = erase String-discrete id s.held })

unfoldable pub release_all : World → List String → Method (Unit {0})
release_all w [] = return tt
release_all w (id ∷ ids) =
    let others = release_all w ids in
    do
      coerced ← coerce_inactive w id
      drop_hold id
      publish_when coerced (thread_updated id)
      others

abbrev pub is_reported_by : String → Service → String → Unit {0} → Bool
is_reported_by integration s id _ = elim (view_of id s) [
  | none ↦ false
  | some r ↦ not (differ String-discrete r.integration_id integration)
]

-- `ReleaseIntegration`.
unfoldable pub release_integration : World → String → Method (Unit {0})
release_integration w integration = do
  ids ← read (λ s.
      select String-discrete (is_reported_by integration s) (keys String-discrete s.held) s.held)
  release_all w (w.sort ids)

unfoldable pub archive_record : World → ThreadRecord → ThreadRecord × Bool
archive_record w r =
    let coerced = coerce_record r in
    if r.archived
    then coerced
    else (record (coerced.0) { archived = true; archived_at = some w.now }, true)

-- `ArchiveExternalThread`.
unfoldable pub archive_external : World → IdentityKey → Method (Unit {0})
archive_external w key = do
  known ← read (identity_of key)
  on_option known (return tt) λ thread. do
    entry ← read (view_of thread)
    on_option entry (return tt) λ r. do
      let (archived, changed) = archive_record w r
      saved ← branch changed (save w thread (record archived { updated_at = w.now })) (return false)
      drop_hold thread
      publish_when saved (thread_updated thread)
