-- ===== src/Terminals/Requests.antt =====
-- internal/terminals/service.go: `Update`, `Delete` with `removeRecord`, and `List`;
-- internal/terminals/spaces.go: `liveSpace`.
use atelier_code.Shared.{
  ℕ, String, Bool, true, false, not, ◌||◌, Option, none, some, String-discrete, differ, is_empty,
  if◌then◌else◌,
}
use atelier_code.Finite.{lookup, insert, erase}
use atelier_code.Terminals.State.{
  Service, Entry, TerminalRecord, SpaceRecord, Terminal, terminal, Texts, Error, not_found,
  invalid_update, space_not_found, space_deleting, storage_failed, Result, done, failed, has, get,
  publish, terminal_updated, terminal_deleted,
}

-- A field of a merge patch: absent, null, or a value.
pub data Patch : Type 0 where
  absent null : Patch
  value : String → Patch

pub record World : Type 0 where
  pub now : ℕ
  pub refuses : Bool

unfoldable pub live_space : String → Service → Result SpaceRecord
live_space id s = elim (lookup String-discrete id s.space_view) [
  | none ↦ failed space_not_found
  | some r ↦ if has id s.deleting_spaces then failed space_deleting else done r
]

-- The new name, of the patch and the current one.
unfoldable pub patched_name : Texts → Patch → String → Result String
patched_name x absent current = done current
patched_name x null current = done ""
patched_name x (value v) current =
    if is_empty (x.trim v) then failed invalid_update else done (x.trim v)

-- The space to move to: both ends of a move are live.
unfoldable pub patched_space : Patch → String → Service → Result String
patched_space absent current s = done current
patched_space null current s = failed invalid_update
patched_space (value v) current s =
    if differ String-discrete v current
    then elim (live_space current s) [
      | failed e ↦ failed e
      | done _ ↦ elim (live_space v s) [ failed e ↦ failed e | done r ↦ done r.id ]
    ]
    else done current

abbrev pub renamed : String → String → ℕ → TerminalRecord → TerminalRecord
renamed name space now r = record r { name = name; space_id = space; updated_at = now }

-- The write of both columns: a space without a row is a foreign key that fails.
unfoldable pub write_patch : World → String → String → String → Service → Service × Result Terminal
write_patch w id name space s =
    if w.refuses then (s, failed storage_failed) else elim (lookup String-discrete id s.rows) [
      | none ↦ (s, failed not_found)
      | some r ↦
          if not (has space s.space_rows)
          then (s, failed space_not_found)
          else let t : Service = record s {
            rows = insert String-discrete id (renamed name space w.now r) s.rows;
          } in
            elim (lookup String-discrete id s.view) [
              | none ↦ (t, failed not_found)
              | some e ↦
                  let f : Entry = record e { record_of = renamed name space w.now e.record_of } in
                  (
                    publish (terminal_updated id)
                        (record t { view = insert String-discrete id f s.view }),
                    done (terminal f),
                  )
            ]
    ]

unfoldable pub write_changes :
    World → String → TerminalRecord → String → String → Service → Service × Result Terminal
write_changes w id r name space s =
    if differ String-discrete name r.name || differ String-discrete space r.space_id
    then write_patch w id name space s
    else (s, get id s)

unfoldable pub patch_entry :
    World → Texts → String → Patch → Patch → Service → Service × Result Terminal
patch_entry w x id name space s = elim (lookup String-discrete id s.view) [
  | none ↦ (s, failed not_found)
  | some e ↦ elim (patched_name x name e.record_of.name) [
    | failed error ↦ (s, failed error)
    | done new_name ↦ elim (patched_space space e.record_of.space_id s) [
      | failed error ↦ (s, failed error)
      | done new_space ↦ write_changes w id e.record_of new_name new_space s
    ]
  ]
]

-- `Update`.
unfoldable pub update : World → Texts → String → Patch → Patch → Service → Service × Result Terminal
update w x id name null s = (s, failed invalid_update)
update w x id absent absent s = (s, get id s)
update w x id name space s = patch_entry w x id name space s

-- `removeRecord`: whether there was a row.
unfoldable pub remove_record : World → String → Service → Service × Result Bool
remove_record w id s =
    if w.refuses
    then (s, failed storage_failed)
    else if has id s.rows
    then (
      publish (terminal_deleted id) (record s {
        rows = erase String-discrete id s.rows;
        view = erase String-discrete id s.view;
        settling = erase String-discrete id s.settling;
      }),
      done true,
    )
    else (s, done false)

abbrev pub stopping : ℕ → TerminalRecord → TerminalRecord
stopping now r = record r { stop_requested_at = some now; updated_at = now }

-- The first part of `Delete`: the stop intent. What follows it is the kill, `remove_record` and a pass.
unfoldable pub record_stop : World → String → Service → Service × Option Error
record_stop w id s =
    if w.refuses then (s, some storage_failed) else elim (lookup String-discrete id s.rows) [
      | none ↦ (s, some not_found)
      | some r ↦
          let t : Service = record s {
            rows = insert String-discrete id (stopping w.now r) s.rows;
          } in
          elim (lookup String-discrete id s.view) [
            | none ↦ (t, none)
            | some e ↦ (
              record t {
                view =
                    insert String-discrete id (record e { record_of = stopping w.now e.record_of })
                      s.view;
              },
              none,
            )
          ]
    ]

-- `Delete` up to its pass of reconciliation: `between` is what others do during the kill.
unfoldable pub delete :
    World → (Service → Service) → World → String → Service → Service × Option Error
delete w between v id s =
    let (t, stop_error) = record_stop w id s in
    let (u, removed) = remove_record v id (between t) in
    elim stop_error [
      | some e ↦ (t, some e)
      | none ↦ elim removed [
        | failed e ↦ (u, some e)
        | done there ↦ (u, if there then none else some not_found)
      ]
    ]
