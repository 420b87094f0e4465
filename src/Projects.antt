-- ===== src/Projects.antt =====
-- internal/projects/projects.go, over internal/store/projects.go: projects and the directories that
-- they claim. The lock makes each mutation one step. The rows stand in the order of their insertion.
pub mod Claims
pub mod Histories
use atelier_code.Shared.{
  ℕ, String, Bool, true, false, not, ◌&&◌, ◌||◌, ℕ_discrete, Option, none, some, List, [], ◌∷◌,
  ◌++◌, String-discrete, is_empty, differ, if◌then◌else◌,
}

pub record ProjectRecord : Type 0 where
  pub id : String
  pub name : String
  pub directory : String
  pub created_at : ℕ
  pub updated_at : ℕ

abbrev pub Rows : Type 0
Rows = List ProjectRecord

pub data Error : Type 0 where
  not_found directory_invalid directory_taken name_invalid invalid_update storage_failed : Error

pub data Event : Type 0 where
  project_created project_updated project_deleted : String → Event

pub record Service : Type 0 where
  pub rows : Rows
  pub published : List Event

-- What Go's library and the file system make of texts and paths: `folder` is a directory's identity,
-- if it is there. And whether the database refuses.
pub record World : Type 0 where
  pub now : ℕ
  pub trim : String → String
  pub base : String → String
  pub canonical : String → Option String
  pub folder : String → Option ℕ
  pub refuses : Bool

pub data Field : Type 0 where
  absent null : Field
  value : String → Field

abbrev pub same_text : String → String → Bool
same_text a b = not (differ String-discrete a b)

-- `os.SameFile`, of a folder that is there and one that may be.
abbrev pub same_file : ℕ → Option ℕ → Bool
same_file n none = false
same_file n (some m) = not (differ ℕ_discrete n m)

-- The loop of `unclaimed`.
unfoldable pub is_claimed : (String → Option ℕ) → ℕ → String → String → Rows → Bool
is_claimed folder n directory except [] = false
is_claimed folder n directory except (x ∷ xs) =
    let rest = is_claimed folder n directory except xs in
    if same_text x.id except
    then rest
    else if same_text x.directory directory
    then true
    else if same_file n (folder x.directory)
    then true
    else rest

unfoldable pub unclaimed_at : World → Option ℕ → String → String → Rows → Option Error
unclaimed_at w none directory except rows = some directory_invalid
unclaimed_at w (some n) directory except rows =
    if w.refuses
    then some storage_failed
    else if is_claimed w.folder n directory except rows
    then some directory_taken
    else none

-- `unclaimed`.
unfoldable pub unclaimed : World → String → String → Rows → Option Error
unclaimed w directory except rows = unclaimed_at w (w.folder directory) directory except rows

unfoldable pub has_id : String → Rows → Bool
has_id id [] = false
has_id id (x ∷ xs) = same_text x.id id || has_id id xs

unfoldable pub has_directory : String → Rows → Bool
has_directory directory [] = false
has_directory directory (x ∷ xs) = same_text x.directory directory || has_directory directory xs

abbrev pub new_record : World → String → String → String → ProjectRecord
new_record w id name directory = record {
  id = id;
  name = name;
  directory = directory;
  created_at = w.now;
  updated_at = w.now;
}

-- The loop that draws ids: the draws are a list, and a list that runs out reads as a storage failure.
unfoldable pub mint : World → String → String → List String → Service → Service × Option Error
mint w name directory [] s = (s, some storage_failed)
mint w name directory (id ∷ ids) s =
    let rest = mint w name directory ids s in
    if w.refuses
    then (s, some storage_failed)
    else if has_id id s.rows
    then rest
    else if has_directory directory s.rows
    then (s, some storage_failed)
    else (
      record {
        rows = s.rows ++ new_record w id name directory ∷ [];
        published = s.published ++ project_created id ∷ [];
      },
      none,
    )

unfoldable pub create_at : World → String → String → List String → Service → Service × Option Error
create_at w name directory ids s = elim (unclaimed w directory "" s.rows) [
  | some e ↦ (s, some e)
  | none ↦ mint w name directory ids s
]

-- `Create`.
unfoldable pub create : World → String → String → List String → Service → Service × Option Error
create w name directory ids s = elim (w.canonical directory) [
  | none ↦ (s, some directory_invalid)
  | some canonical ↦
      create_at w (if is_empty (w.trim name) then w.base canonical else w.trim name) canonical ids s
]

unfoldable pub find : String → Rows → Option ProjectRecord
find id [] = none
find id (x ∷ xs) = let rest = find id xs in if same_text x.id id then some x else rest

abbrev pub changed : String → String → ℕ → ProjectRecord → ProjectRecord
changed name directory now r = record r { name = name; directory = directory; updated_at = now }

unfoldable pub replace : String → (ProjectRecord → ProjectRecord) → Rows → Rows
replace id f [] = []
replace id f (x ∷ xs) = (if same_text x.id id then f x else x) ∷ replace id f xs

unfoldable pub is_taken : String → String → Rows → Bool
is_taken id directory [] = false
is_taken id directory (x ∷ xs) =
    (same_text x.directory directory && not (same_text x.id id)) || is_taken id directory xs

-- The write: a directory that another row has fails on the schema's UNIQUE.
unfoldable pub write : World → String → String → String → Service → Service × Option Error
write w id name directory s =
    if w.refuses || is_taken id directory s.rows then (s, some storage_failed) else (
      record {
        rows = replace id (changed name directory w.now) s.rows;
        published = s.published ++ project_updated id ∷ [];
      },
      none,
    )

unfoldable pub new_name : World → Field → String → Option Error × String
new_name w absent current = (none, current)
new_name w null current = (some invalid_update, current)
new_name w (value v) current =
    if is_empty (w.trim v) then (some name_invalid, current) else (none, w.trim v)

unfoldable pub moved : World → String → String → Rows → Option String → Option Error × String
moved w id current rows none = (some directory_invalid, current)
moved w id current rows (some directory) =
    if same_text directory current
    then (none, directory)
    else (unclaimed w directory id rows, directory)

unfoldable pub new_directory : World → String → Field → String → Rows → Option Error × String
new_directory w id absent current rows = (none, current)
new_directory w id null current rows = (some invalid_update, current)
new_directory w id (value v) current rows = moved w id current rows (w.canonical v)

unfoldable pub write_changes :
    World → ProjectRecord → String → String → String → Service → Service × Option Error
write_changes w r id name directory s =
    if same_text name r.name && same_text directory r.directory
    then (s, none)
    else write w id name directory s

unfoldable pub update_row :
    World
    → ProjectRecord
    → String
    → Option Error × String
    → Option Error × String
    → Service
    → Service × Option Error
update_row w r id (some e, name) directory s = (s, some e)
update_row w r id (none, name) (some e, directory) s = (s, some e)
update_row w r id (none, name) (none, directory) s = write_changes w r id name directory s

-- `Update`, without its answer that tells whether the directory moved.
unfoldable pub update : World → String → Field → Field → Service → Service × Option Error
update w id name directory s =
    if w.refuses then (s, some storage_failed) else elim (find id s.rows) [
      | none ↦ (s, some not_found)
      | some r ↦
          update_row w r id (new_name w name r.name)
            (new_directory w id directory r.directory s.rows) s
    ]

unfoldable pub without : String → Rows → Rows
without id [] = []
without id (x ∷ xs) = let rest = without id xs in if same_text x.id id then rest else x ∷ rest

-- `Delete`.
unfoldable pub delete : World → String → Service → Service × Option Error
delete w id s =
    if w.refuses
    then (s, some storage_failed)
    else if has_id id s.rows
    then (
      record { rows = without id s.rows; published = s.published ++ project_deleted id ∷ [] },
      none,
    )
    else (s, some not_found)
