-- ===== src/Terminals/Spaces.antt =====
-- internal/terminals/spaces.go: the spaces that terminals belong to.
use atelier_code.Shared.{
  ℕ, String, Bool, true, false, not, ◌&&◌, ◌||◌, Option, none, some, List, [], ◌∷◌, String-discrete,
  differ, is_empty, if◌then◌else◌,
}
use atelier_code.Finite.{lookup, insert, erase, keys, select}
use atelier_code.Terminals.State.{
  Service, Entry, TerminalRecord, SpaceRecord, Texts, Error, space_not_found, default_space_fixed,
  space_in_use, space_directory_invalid, space_name_invalid, invalid_update, default_exists,
  storage_failed, not_found, Result, done, failed, has, publish, space_created, space_updated,
  space_deleted,
}
use atelier_code.Terminals.Requests.{World, Patch, null, value}

-- The row with the flag of the Default space, of which the schema allows one.
unfoldable pub has_default : List (String × SpaceRecord) → Bool
has_default [] = false
has_default ((id, r) ∷ m) = r.is_default || has_default m

-- The insertion of a row: false for an id that is taken.
unfoldable pub insert_space_row : World → SpaceRecord → Service → Service × Result Bool
insert_space_row w r s =
    if w.refuses
    then (s, failed storage_failed)
    else if has r.id s.space_rows
    then (s, done false)
    else if r.is_default && has_default s.space_rows
    then (s, failed default_exists)
    else (record s { space_rows = insert String-discrete r.id r s.space_rows }, done true)

-- `insertSpace`: the draws are a list, and a list that runs out reads as a storage failure.
unfoldable pub insert_space :
    World → SpaceRecord → List String → Service → Service × Result SpaceRecord
insert_space w r [] s = (s, failed storage_failed)
insert_space w r (id ∷ ids) s =
    let rest = insert_space w r ids s in
    let q : SpaceRecord = record r { id = id } in
    let (t, result) = insert_space_row w q s in
    elim result [
      | failed e ↦ (t, failed e)
      | done inserted ↦
          if inserted
          then (record t { space_view = insert String-discrete id q t.space_view }, done q)
          else rest
    ]

unfoldable pub new_space : ℕ → String → String → Bool → SpaceRecord
new_space now name directory is_default = record {
  id = "";
  name = name;
  directory = directory;
  is_default = is_default;
  created_at = now;
  updated_at = now;
}

abbrev pub or_else : String → String → String
or_else text other = if is_empty text then other else text

unfoldable pub announce : Service × Result SpaceRecord → Service × Result SpaceRecord
announce (s, done r) = (publish (space_created r.id) s, done r)
announce (s, failed e) = (s, failed e)

-- `CreateSpace`; `home` is the server user's home directory.
unfoldable pub create_space :
    World → Texts → String → String → String → List String → Service → Service × Result SpaceRecord
create_space w x home name directory ids s = elim (x.canonical (or_else directory home)) [
  | none ↦ (s, failed space_directory_invalid)
  | some canonical ↦ announce (
      insert_space w (new_space w.now (or_else (x.trim name) (x.base canonical)) canonical false)
        ids s)
]

-- The spaces of the table, into the view and the Default space's id.
unfoldable pub read_spaces : List (String × SpaceRecord) → Service → Service
read_spaces [] s = s
read_spaces ((k, r) ∷ m) s = read_spaces m (record s {
  space_view = insert String-discrete r.id r s.space_view;
  default_space = if r.is_default then r.id else s.default_space;
})

-- One attempt of `loadSpaces`: `between` is what another process writes after the reading, and
-- `again` what follows when that process made the Default space. A database that refuses fails the
-- reading too.
unfoldable pub load_once :
    World
    → String
    → (Service → Service)
    → List String
    → (Service → Service × Option Error)
    → Service
    → Service × Option Error
load_once w home between ids again s =
    let t = read_spaces s.space_rows (record s { default_space = "" }) in
    let (u, result) = insert_space w (new_space w.now "Default" home true) ids (between t) in
    if w.refuses
    then (s, some storage_failed)
    else if not (is_empty t.default_space)
    then (t, none)
    else elim result [
      | done r ↦ (record u { default_space = r.id }, none)
      | failed default_exists ↦ again u
      | failed e ↦ (u, some e)
    ]

-- `loadSpaces`: a second attempt follows the first only.
unfoldable pub load_spaces :
    World → String → (Service → Service) → List String → Service → Service × Option Error
load_spaces w home between ids s =
    load_once w home between ids (load_once w home (λ t. t) ids (λ t. (t, some default_exists))) s

-- The name and the directory that a patch asks for.
unfoldable pub space_name : Texts → Patch → String → Result String
space_name x (value v) current =
    if is_empty (x.trim v) then failed space_name_invalid else done (x.trim v)
space_name x _ current = done current

unfoldable pub space_directory : Texts → Patch → String → Result String
space_directory x (value v) current = elim (x.canonical v) [
  | none ↦ failed space_directory_invalid
  | some directory ↦ done directory
]
space_directory x _ current = done current

abbrev pub replaced : String → String → ℕ → SpaceRecord → SpaceRecord
replaced name directory now r = record r { name = name; directory = directory; updated_at = now }

-- The write, which answers with the row that it made.
unfoldable pub write_space :
    World → String → String → String → Service → Service × Result SpaceRecord
write_space w id name directory s =
    if w.refuses
    then (s, failed storage_failed)
    else elim (lookup String-discrete id s.space_rows) [
      | none ↦ (s, failed space_not_found)
      | some r ↦
          let q : SpaceRecord = replaced name directory w.now r in
          (
            publish (space_updated id) (record s {
              space_rows = insert String-discrete id q s.space_rows;
              space_view = insert String-discrete id q s.space_view;
            }),
            done q,
          )
    ]

unfoldable pub patch_space :
    World → Texts → String → Patch → Patch → Service → Service × Result SpaceRecord
patch_space w x id name directory s = elim (lookup String-discrete id s.space_view) [
  | none ↦ (s, failed space_not_found)
  | some r ↦
      if r.is_default then (s, failed default_space_fixed) else elim (space_name x name r.name) [
        | failed e ↦ (s, failed e)
        | done new_name ↦ elim (space_directory x directory r.directory) [
          | failed e ↦ (s, failed e)
          | done new_directory ↦
              if differ String-discrete new_name r.name
                || differ String-discrete new_directory r.directory
              then write_space w id new_name new_directory s
              else (s, done r)
        ]
      ]
]

-- `UpdateSpace`.
unfoldable pub update_space :
    World → Texts → String → Patch → Patch → Service → Service × Result SpaceRecord
update_space w x id null directory s = (s, failed invalid_update)
update_space w x id name null s = (s, failed invalid_update)
update_space w x id name directory s = patch_space w x id name directory s

abbrev pub is_in_space : String → String → Entry → Bool
is_in_space space k e = not (differ String-discrete e.record_of.space_id space)

-- The first part of `DeleteSpace`: the mark, and the terminals to delete.
unfoldable pub mark_deleting : String → Service → Service × Result (List String)
mark_deleting id s = elim (lookup String-discrete id s.space_view) [
  | none ↦ (s, failed space_not_found)
  | some r ↦ if r.is_default then (s, failed default_space_fixed) else (
    record s { deleting_spaces = insert String-discrete id tt s.deleting_spaces },
    done (select String-discrete (is_in_space id) (keys String-discrete s.view) s.view),
  )
]

unfoldable pub owns : String → List (String × TerminalRecord) → Bool
owns id [] = false
owns id ((k, r) ∷ m) = not (differ String-discrete r.space_id id) || owns id m

-- The last part, when every terminal went: a space that still owns a terminal's row is a foreign key
-- that fails.
unfoldable pub finish_deleting : World → String → Service → Service × Option Error
finish_deleting w id s =
    if w.refuses
    then (s, some storage_failed)
    else if owns id s.rows && has id s.space_rows
    then (s, some space_in_use)
    else let t : Service = record s {
      space_rows = erase String-discrete id s.space_rows;
      space_view = erase String-discrete id s.space_view;
      deleting_spaces = erase String-discrete id s.deleting_spaces;
    } in
      if has id s.space_rows
      then (publish (space_deleted id) t, none)
      else (t, some space_not_found)

abbrev pub went : Option Error → Bool
went none = true
went (some not_found) = true
went (some e) = false

-- The deletion of the terminals, one by one, by a function of the caller's; a terminal that is gone
-- already is no failure.
unfoldable pub delete_each :
    (String → Service → Service × Option Error) → List String → Service → Service × Bool
delete_each f [] s = (s, true)
delete_each f (id ∷ ids) s =
    let (t, e) = f id s in let (u, all) = delete_each f ids t in (u, all && went e)

-- `DeleteSpace`: its error, and whether every terminal went; if not, the error is theirs.
unfoldable pub delete_space :
    World
    → (List String → List String)
    → (String → Service → Service × Option Error)
    → String
    → Service
    → Service × Option Error × Bool
delete_space w sort f id s =
    let (t, marked) = mark_deleting id s in
    elim marked [
      | failed e ↦ (t, some e, true)
      | done ids ↦
          let (u, all) = delete_each f (sort ids) t in
          let (v, e) = finish_deleting w id u in if all then (v, e, true) else (u, none, false)
    ]
