-- ===== src/Threads/Requests.antt =====
-- internal/threads/service.go and turns.go: what clients and Integrations ask of one thread.
use atelier_code.Shared.{
  String, Bool, true, false, not, ◌&&◌, ◌||◌, Option, none, some, List, [], ◌∷◌, String-discrete,
  is_empty, is_some, differ, if◌then◌else◌,
}
use atelier_code.Finite.{lookup, insert, erase, keys, erase_where}
use atelier_code.Threads.Record.{TurnRecord, ThreadRecord}
use atelier_code.Threads.Holders.{holder, has_holder, active_holder}
use atelier_code.Threads.State.{
  IdentityKey, IdentityKey-discrete, Result, Service, World, Method, ProjectRecord, ok, err,
  thread_updated, thread_deleted, not_found, thread_active, turn_pending, project_unknown,
  invalid_update, ◌>>=◌, ◌>>◌, return, throw, read, modify, branch, on_option, publish,
  publish_when, view_of, row_of,
}
use atelier_code.Threads.Evidence.{mint_pending}
use atelier_code.Threads.Turns.{adopt_response}
use atelier_code.Threads.Observe.{save, identity_of}

-- `persist`.
unfoldable pub persist : World → ThreadRecord → Method (Unit {0})
persist w r = do updated ← save w r.id r; branch updated (return tt) (throw not_found)

-- The merge patch: `none` is an absent field. A project may be cleared.
pub data ProjectPatch : Type 0 where
  keep clear : ProjectPatch
  assign : String → ProjectPatch

pub record ThreadUpdate : Type 0 where
  pub title : Option String
  pub project : ProjectPatch
  pub archived : Option Bool

abbrev pub is_opening : String → Service → Bool
is_opening id s = is_some (lookup String-discrete id s.opening)

abbrev asks_archive : Option Bool → Bool
asks_archive (some true) = true
asks_archive _ = false

-- The title: the record, whether it changed, and whether the write is wanted all the same.
unfoldable pub patch_title : Option String → ThreadRecord → ThreadRecord × Bool × Bool
patch_title none r = (r, false, false)
patch_title (some title) r = (
  record r { title = title; title_user_set = true },
  differ String-discrete r.title title,
  not r.title_user_set,
)

unfoldable pub has_project : List ProjectRecord → String → Bool
has_project [] id = false
has_project (p ∷ ps) id = not (differ String-discrete p.id id) || has_project ps id

unfoldable pub check_project : Result (List ProjectRecord) → String → Method String
check_project (err e) p = throw e
check_project (ok ps) p = branch (has_project ps p) (return p) (throw (project_unknown p))

-- The project to record; an unknown one is refused.
unfoldable pub patch_project : World → ProjectPatch → ThreadRecord → Method String
patch_project w keep r = return r.project_id
patch_project w clear r = return ""
patch_project w (assign p) r = check_project w.projects p

-- Archiving is refused while something holds the thread.
unfoldable pub refuses_archive : Option Bool → Bool → ThreadRecord → Bool
refuses_archive u held r = asks_archive u && not r.archived && held

-- The archived flag.
unfoldable pub patch_archived : World → Option Bool → ThreadRecord → ThreadRecord × Bool
patch_archived w none r = (r, false)
patch_archived w (some true) r =
    if r.archived
    then (r, false)
    else (record r { archived = true; archived_at = some w.now }, true)
patch_archived w (some false) r =
    if r.archived then (record r { archived = false; archived_at = none }, true) else (r, false)

unfoldable pub patch : World → ThreadUpdate → String → Bool → ThreadRecord → Method ThreadRecord
patch w u id held r = do
  let titled = patch_title u.title r
  project ← patch_project w u.project titled.0
  let placed = record (titled.0) { project_id = project }
  branch (refuses_archive u.archived held placed) (throw (thread_active id)) (return tt)
  let archived = patch_archived w u.archived placed
  let changed = archived.1 || differ String-discrete r.project_id project || titled.1
  let next = record (archived.0) {
    updated_at = if changed || titled.2 then w.now else r.updated_at;
  }
  updated ← branch (changed || titled.2) (save w id next) (return true)
  branch updated (return tt) (throw not_found)
  publish_when changed (thread_updated id)
  return next

-- `Update`, after the refusal of null fields and the decoding of the patch.
unfoldable pub update : World → String → ThreadUpdate → Method ThreadRecord
update w id u = do
  held_by ← read (holder id)
  opening ← read (is_opening id)
  entry ← read (view_of id)
  on_option entry (throw not_found) λ r.
      branch (opening && asks_archive u.archived) (throw (thread_active id))
        (patch w u id (has_holder held_by) r)

-- A field of the request body.
pub data Field {ℓ} (A : Type ℓ) : Type ℓ where
  absent null : Field A
  given : A → Field A

unfoldable pub is_null {ℓ} : {A : Type ℓ} → Field A → Bool
is_null null = true
is_null _ = false

unfoldable pub value_of {ℓ} : {A : Type ℓ} → Field A → Option A
value_of (given a) = some a
value_of _ = none

unfoldable pub project_patch : Field String → ProjectPatch
project_patch absent = keep
project_patch null = clear
project_patch (given id) = assign id

-- `Update`: the title and the archived flag cannot be null.
unfoldable pub request_update :
    World → String → Field String → Field Bool → Field String → Method ThreadRecord
request_update w id title archived project =
    branch (is_null title || is_null archived) (throw invalid_update) (
      update w id (record {
        title = value_of title;
        project = project_patch project;
        archived = value_of archived;
      }))

-- `forgetIdentity`.
unfoldable pub forget_identity : String → Service → Service
forget_identity id s = elim (lookup String-discrete id s.identity_keys) [
  | none ↦ record s { held = erase String-discrete id s.held }
  | some key ↦ record s {
    identities = erase IdentityKey-discrete key s.identities;
    identity_keys = erase String-discrete id s.identity_keys;
    held = erase String-discrete id s.held;
  }
]

abbrev pub maps_to : String → IdentityKey → String → Bool
maps_to id key thread = not (differ String-discrete thread id)

-- `Threads.Delete`: the identity rows go with the row (ON DELETE CASCADE).
unfoldable pub delete_row : World → String → Method Bool
delete_row w id s = elim (w.refuse_id id) [
  | some e ↦ (s, err e)
  | none ↦
      if is_some (row_of id s)
      then (
        record s {
          rows = erase String-discrete id s.rows;
          identity_rows =
              erase_where IdentityKey-discrete (maps_to id)
                (keys IdentityKey-discrete s.identity_rows) s.identity_rows;
        },
        ok true,
      )
      else (s, ok false)
]

-- What `remove` does to the maps.
unfoldable pub drop_thread : String → Service → Service
drop_thread id s =
    let t = record s { view = erase String-discrete id s.view } in
    let u = forget_identity id t in
    record u { prior_status = erase String-discrete id u.prior_status }

unfoldable pub remove : World → String → Method (Unit {0})
remove w id = do
  deleted ← delete_row w id
  branch deleted (return tt) (throw not_found)
  modify (drop_thread id)
  publish (thread_deleted id)

-- `Delete`.
unfoldable pub delete : World → String → Method (Unit {0})
delete w id = do
  entry ← read (view_of id)
  held_by ← read (holder id)
  opening ← read (is_opening id)
  branch (is_some entry) (return tt) (throw not_found)
  branch (has_holder held_by || opening) (throw (thread_active id)) (remove w id)

-- `DiscardExternal`: only a terminal's hold refuses it.
unfoldable pub discard_external : World → IdentityKey → Method (Unit {0})
discard_external w key = do
  known ← read (identity_of key)
  on_option known (return tt) λ id. do
    terminal ← read (active_holder id)
    opening ← read (is_opening id)
    branch (not (is_empty terminal) || opening) (throw (thread_active id)) (remove w id)

-- The prior status that `mintPending` keeps.
unfoldable pub keep_prior : ThreadRecord → Service → Service
keep_prior r s = record s {
  prior_status =
      insert String-discrete r.id (record { status = r.status; detail = r.status_detail })
        s.prior_status;
}

-- `SubmitTurn`.
unfoldable pub submit_turn : World → String → Method String
submit_turn w id = do
  entry ← read (view_of id)
  on_option entry (throw not_found) λ r.
      on_option r.pending
        (do
          modify (keep_prior r)
          persist w (mint_pending r w.now w.fresh)
          publish (thread_updated id)
          return w.fresh)
        (λ p. throw (turn_pending p.id))

unfoldable pub adopt : World → String → TurnRecord → String → ThreadRecord → Method (Unit {0})
adopt w id turn response r =
    let adopted = adopt_response turn turn.state response in
    branch (adopted.1)
      (do
        updated ←
            save w r.id (record r {
              turn = some adopted.0;
              last_evidence_at = some w.now;
              updated_at = w.now;
            })
        publish_when updated (thread_updated id))
      (return tt)

-- `ObserveTurnResponse`.
unfoldable pub observe_turn_response : World → String → String → String → Method (Unit {0})
observe_turn_response w id provider_turn response = do
  entry ← read (view_of id)
  on_option entry (return tt) λ r. on_option r.turn (return tt) λ turn.
      branch (is_empty provider_turn || differ String-discrete turn.provider_id provider_turn)
        (return tt) (adopt w id turn response r)
