-- ===== src/Threads/Projects.antt =====
-- internal/threads/service.go: the association of threads with projects.
use atelier_code.Shared.{
  String, Bool, true, false, not, ◌||◌, none, some, List, [], ◌∷◌, String-discrete, is_empty,
  differ, if◌then◌else◌,
}
use atelier_code.Finite.{insert, keys, select}
use atelier_code.Threads.Record.{ThreadRecord}
use atelier_code.Threads.Metadata.{most_specific}
use atelier_code.Threads.State.{
  Service, World, Method, ProjectRecord, ok, err, thread_updated, ◌>>=◌, ◌>>◌, return, read, modify,
  branch, on_option, publish, view_of, row_of,
}

abbrev is_in_project : String → String → ThreadRecord → Bool
is_in_project project id r = not (differ String-discrete r.project_id project)

-- The view entries of a deleted project lose it.
unfoldable pub clear_projects : String → List (String × ThreadRecord) → List (String × ThreadRecord)
clear_projects project [] = []
clear_projects project ((id, r) ∷ m) =
    (id, if is_in_project project id r then record r { project_id = "" } else r)
    ∷ clear_projects project m

unfoldable pub publish_updates : List String → Method (Unit {0})
publish_updates [] = return tt
publish_updates (id ∷ ids) = do publish (thread_updated id); publish_updates ids

-- `DeleteProject`: `remove` commits the delete, which clears the rows.
unfoldable pub delete_project : World → String → Method (Unit {0}) → Method (Unit {0})
delete_project w project remove = do
  remove
  cleared ←
      read
        (λ s. select String-discrete (is_in_project project) (keys String-discrete s.view) s.view)
  modify (λ s. record s { view = clear_projects project s.view })
  publish_updates (w.sort cleared)

-- `Threads.AssignProject`: only a row that has no project.
unfoldable pub assign_row : World → String → String → Method Bool
assign_row w id project s = elim (w.refuse_id id) [
  | some e ↦ (s, err e)
  | none ↦ elim (row_of id s) [
    | none ↦ (s, ok false)
    | some r ↦
        if is_empty r.project_id
        then (
          record s {
            rows =
                insert String-discrete id (record r { project_id = project; updated_at = w.now })
                  s.rows;
          },
          ok true,
        )
        else (s, ok false)
  ]
]

-- The view entry, while it is still unassigned.
unfoldable pub assign_in_view : World → String → String → Service → Service
assign_in_view w id project s = elim (view_of id s) [
  | none ↦ s
  | some r ↦
      if is_empty r.project_id
      then record s {
        view =
            insert String-discrete id (record r { project_id = project; updated_at = w.now })
              s.view;
      }
      else s
]

unfoldable pub candidate_project : List ProjectRecord → ThreadRecord → String
candidate_project ps r =
    if not (is_empty r.project_id) || is_empty r.initial_directory
    then ""
    else most_specific ps r.initial_directory

abbrev pub is_assignable : List ProjectRecord → String → ThreadRecord → Bool
is_assignable ps id r = not (is_empty (candidate_project ps r))

unfoldable pub backfill_one : World → List ProjectRecord → String → ThreadRecord → Method (Unit {0})
backfill_one w ps id r = do
  assigned ← assign_row w id (candidate_project ps r)
  branch assigned
      (do modify (assign_in_view w id (candidate_project ps r)); publish (thread_updated id))
      (return tt)

-- Each thread keeps the project that the view gave it when the scan was made.
unfoldable pub backfill_all : World → List ProjectRecord → Service → List String → Method (Unit {0})
backfill_all w ps before [] = return tt
backfill_all w ps before (id ∷ ids) =
    let others = backfill_all w ps before ids in
    do on_option (view_of id before) (return tt) (backfill_one w ps id); others

-- `Backfill`.
unfoldable pub backfill : World → Method (Unit {0})
backfill w s = elim w.projects [
  | err e ↦ (s, err e)
  | ok ps ↦
      backfill_all w ps s
        (w.sort (select String-discrete (is_assignable ps) (keys String-discrete s.view) s.view)) s
]
