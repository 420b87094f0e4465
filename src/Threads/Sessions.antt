-- ===== src/Threads/Sessions.antt =====
-- internal/threads/service.go: session and status observations.
use Prim.Native.String.{◌++◌ as join}
use text.Mathlib.Text.{starts_with}
use atelier_code.Shared.{
  ℕ, String, Bool, true, false, not, ◌&&◌, ◌||◌, Option, none, some, List, [], ◌∷◌, String-discrete,
  is_empty, differ, if◌then◌else◌,
}
use atelier_code.Finite.{insert}
use atelier_code.Threads.Record.{ThreadStatus, ThreadRecord}
use atelier_code.Threads.Metadata.{apply_metadata, most_specific}
use atelier_code.Threads.State.{
  IdentityKey, IdentityKey-discrete, Service, World, Method, ok, err, thread_created,
  no_local_directory, app_foreign, no_record, storage, ◌>>=◌, ◌>>◌, return, throw, read, modify,
  branch, on_option, publish, view_of, update_row, insert_observed,
}
use atelier_code.Threads.Observe.{
  SessionObservation, time_of, identity_of, fold_evidence, settle_prior, commit,
}

-- `s.view[id] = &entry`, with both directions of the identity mapping.
unfoldable pub install : ThreadRecord → IdentityKey → Service → Service
install r key s = record s {
  view = insert String-discrete r.id r s.view;
  identities = insert IdentityKey-discrete key r.id s.identities;
  identity_keys = insert String-discrete r.id key s.identity_keys;
}

-- `insert`: the draws are tried in turn until one is free. The loop has no end but that; a list of
-- draws that runs out reads as a storage failure.
unfoldable pub insert_thread :
    World → List String → ThreadRecord → IdentityKey → Method ThreadRecord
insert_thread w [] r key = throw (storage "no more draws")
insert_thread w (id ∷ ids) r key =
    let again = insert_thread w ids r key in
    do
      inserted ← insert_observed w (record r { id = id }) key
      branch inserted
          (do modify (install (record r { id = id }) key); return (record r { id = id })) again

-- `classify`.
unfoldable pub classify : World → String → Method String
classify w dir s = elim w.projects [ ok ps ↦ (s, ok (most_specific ps dir)) | err e ↦ (s, err e) ]

-- `paths.CanonicalDir`, and the refusal of an empty directory.
unfoldable pub local_directory : World → String → Method String
local_directory w dir =
    branch (is_empty dir) (throw no_local_directory)
      (on_option (w.canonical dir) (throw no_local_directory) return)

-- A record that has only its provenance and its times.
abbrev pub blank_record : String → ℕ → ThreadRecord
blank_record integration_id at = record {
  id = "";
  integration_id = integration_id;
  app_id = "";
  agent_id = "";
  initial_directory = "";
  project_id = "";
  terminal_id = none;
  title = "";
  title_user_set = false;
  model = "";
  effort = "";
  cwd = "";
  permission_mode = "";
  status = ThreadStatus.unknown;
  status_detail = "";
  last_evidence_at = some at;
  archived = false;
  archived_at = none;
  created_at = at;
  updated_at = at;
  turn = none;
  pending = none;
}

-- The App is not one of the observing Integration's.
unfoldable pub is_foreign : SessionObservation → Bool
is_foreign o = not (is_empty o.app_id) && not (starts_with o.app_id (join o.integration_id "/"))

unfoldable pub session_key : SessionObservation → IdentityKey
session_key o = record { integration_id = o.integration_id; provider_id = o.provider_id }

-- `createObserved`.
unfoldable pub create_observed : World → SessionObservation → ℕ → Method String
create_observed w o at = do
  branch (is_foreign o) (throw app_foreign) (return tt)
  let blank = blank_record o.integration_id at
  let folded =
      fold_evidence w
        (record blank {
          app_id = o.app_id;
          agent_id = o.agent_id;
          terminal_id = some o.terminal_id;
        })
        o.status o.status_detail o.turn at true
  settle_prior "" folded.0
  dir ← local_directory w o.initial_directory
  project ← classify w dir
  let placed = record (folded.0) { initial_directory = dir; project_id = project }
  minted ← insert_thread w w.candidates (apply_metadata placed o.metadata).0 (session_key o)
  publish (thread_created minted.id)
  commit w minted minted.id o.terminal_id false
  return minted.id

-- The fields that a session observation moves before its evidence is folded in.
unfoldable pub reattach : ThreadRecord → SessionObservation → ThreadRecord × Bool
reattach r o = (
  record r {
    terminal_id = some o.terminal_id;
    agent_id = if is_empty o.agent_id then r.agent_id else o.agent_id;
    archived = false;
    archived_at = if r.archived then none else r.archived_at;
  },
  moved r.terminal_id
      || not (is_empty o.agent_id) && differ String-discrete r.agent_id o.agent_id
      || r.archived,
)
  where
    moved : Option String → Bool
    moved none = true
    moved (some t) = differ String-discrete t o.terminal_id

-- The evidence on a record, its metadata, and the times.
unfoldable pub with_times : ThreadRecord → ℕ → Bool → ThreadRecord
with_times r at changed = record r {
  last_evidence_at = some at;
  updated_at = if changed then at else r.updated_at;
}

-- The evidence always persists; the row may be gone since the lookup.
unfoldable pub record_observed : World → ThreadRecord → String → String → Bool → Method String
record_observed w next thread terminal changed = do
  updated ← update_row w next
  branch updated (do commit w next thread terminal changed; return thread) (return "")

unfoldable pub observe_known :
    World → SessionObservation → ℕ → String → ThreadRecord → Method String
observe_known w o at thread r = do
  let (attached, c1) = reattach r o
  let folded = fold_evidence w attached o.status o.status_detail o.turn at true
  settle_prior r.id folded.0
  let (described, c3) = apply_metadata folded.0 o.metadata
  let changed = c3 || folded.1 || c1
  let next = with_times described at changed
  record_observed w next thread o.terminal_id changed

-- `ObserveSession`. An identity without a record is refused.
unfoldable pub observe_session : World → SessionObservation → Method String
observe_session w o = do
  known ← read (identity_of (session_key o))
  on_option known (create_observed w o (time_of w o.at)) λ thread. do
    entry ← read (view_of thread)
    on_option entry (throw (no_record thread)) (observe_known w o (time_of w o.at) thread)
