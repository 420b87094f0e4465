-- ===== src/Threads/State.antt =====
-- internal/threads/service.go and internal/store/threads.go: the state that the service works on, the
-- rows of the database included, and its elementary steps. A method is a `Method`: it takes the state
-- and returns the new one with its result. The two mutexes leave no other trace: `ops` makes each
-- method one step, and `mu` guards the reads and writes inside it.
use atelier_code.Shared.{
  ℕ, String, Bool, true, false, Option, none, some, List, ◌∷◌, ◌≡◌, ap, String-discrete, is_some,
  if◌then◌else◌,
}
use atelier_code.Finite.{lookup, insert}
use atelier_code.Threads.Record.{ThreadStatus, ThreadRecord}

pub record IdentityKey : Type 0 where
  pub integration_id : String
  pub provider_id : String

pub IdentityKey-discrete : Discrete IdentityKey
IdentityKey-discrete = hlevel String-discrete

pub record PriorStatus : Type 0 where
  pub status : ThreadStatus
  pub detail : String

-- What the hub publishes, with the id of the resource.
pub data Event : Type 0 where
  thread_created thread_updated thread_deleted terminal_updated : String → Event

pub data Error : Type 0 where
  not_found no_local_directory invalid_update app_foreign link_failed compensation_failed : Error
  thread_active turn_pending project_unknown already_mapped no_record storage : String → Error

pub record ProjectRecord : Type 0 where
  pub id : String
  pub directory : String

pub data TerminalStatus : Type 0 where
  running unreachable exited missing : TerminalStatus

pub data Result {ℓ} (A : Type ℓ) : Type ℓ where
  ok : A → Result A
  err : Error → Result A

-- `rows` and `identity_rows` are the tables `threads` and `thread_identities`; the newest event is the
-- first of `published`.
pub record Service : Type 0 where
  pub rows : List (String × ThreadRecord)
  pub identity_rows : List (IdentityKey × String)
  pub view : List (String × ThreadRecord)
  pub identities : List (IdentityKey × String)
  pub identity_keys : List (String × IdentityKey)
  pub active : List (String × String)
  pub held : List (String × Unit {0})
  pub opening : List (String × Unit {0})
  pub prior_status : List (String × PriorStatus)
  pub published : List Event

-- What a call finds outside the service: the clock, the ids that it draws, the file system behind
-- `paths.CanonicalDir`, the projects, the terminals, Go's `sort.Strings`, and the writes that the
-- database refuses.
pub record World : Type 0 where
  pub now : ℕ
  pub fresh : String
  pub candidates : List String
  pub canonical : String → Option String
  pub projects : Result (List ProjectRecord)
  pub terminal : String → Option TerminalStatus
  pub sort : List String → List String
  pub refuse : ThreadRecord → Option Error
  pub refuse_id : String → Option Error

abbrev pub Method : Type 0 → Type 0
Method A = Service → Service × Result A

infixl 5 ◌>>=◌ ◌>>◌
unfoldable pub ◌>>=◌ : {A B : Type 0} → Method A → (A → Method B) → Method B
◌>>=◌ m f s = let (s', r) = m s in elim r [ ok a ↦ f a s' | err e ↦ (s', err e) ]

-- A method goes on where its first part succeeds.
pub >>=-ok :
    {A B : Type 0} (m : Method A) (f : A → Method B) (s t : Service) (a : A)
    → m s ≡ (t, ok a)
    → ◌>>=◌ m f s ≡ f a t
unfolding ◌>>=◌
>>=-ok {A} {B} m f s t a e =
    ap
      (λ (x : Service × Result A). elim x.1 as (λ _. Service × Result B) [
        | ok b ↦ f b x.0
        | err z ↦ (x.0, err z)
      ])
      e

unfoldable pub ◌>>◌ : {B : Type 0} → Method (Unit {0}) → Method B → Method B
unfolding ◌>>=◌
m >> k = m >>= λ _. k

unfoldable pub return : {A : Type 0} → A → Method A
return a s = (s, ok a)

unfoldable pub throw : {A : Type 0} → Error → Method A
throw e s = (s, err e)

unfoldable pub read : {A : Type 0} → (Service → A) → Method A
read f s = (s, ok (f s))

unfoldable pub modify : (Service → Service) → Method (Unit {0})
modify f s = (f s, ok tt)

-- Branches of a method, on a test and on a value that may be missing.
unfoldable pub branch : {A : Type 0} → Bool → Method A → Method A → Method A
branch b m k s = if b then m s else k s

unfoldable pub on_option : {A B : Type 0} → Option A → Method B → (A → Method B) → Method B
on_option o m f s = elim o [ none ↦ m s | some a ↦ f a s ]

unfoldable pub publish : Event → Method (Unit {0})
unfolding modify
publish e = modify (λ s. record s { published = e ∷ s.published })

unfoldable pub publish_when : Bool → Event → Method (Unit {0})
unfolding branch publish return
publish_when b e = branch b (publish e) (return tt)

-- A lookup in the view.
abbrev pub view_of : String → Service → Option ThreadRecord
view_of id s = lookup String-discrete id s.view

abbrev pub row_of : String → Service → Option ThreadRecord
row_of id s = lookup String-discrete id s.rows

-- `if entry, ok := s.view[id]; ok { *entry = record }`.
unfoldable pub assign_view : String → ThreadRecord → Method (Unit {0})
assign_view id r s = elim (view_of id s) [
  | none ↦ (s, ok tt)
  | some _ ↦ (record s { view = insert String-discrete id r s.view }, ok tt)
]

-- The columns that `Threads.Update` writes, onto the row that it finds.
unfoldable pub write_columns : ThreadRecord → ThreadRecord → ThreadRecord
write_columns row r = record r {
  id = row.id;
  integration_id = row.integration_id;
  app_id = row.app_id;
  initial_directory = row.initial_directory;
  created_at = row.created_at;
}

-- `Threads.Update`: false if there is no such row.
unfoldable pub update_row : World → ThreadRecord → Method Bool
unfolding write_columns
update_row w r s = elim (w.refuse r) [
  | some e ↦ (s, err e)
  | none ↦ elim (row_of r.id s) [
    | none ↦ (s, ok false)
    | some row ↦
        (record s { rows = insert String-discrete r.id (write_columns row r) s.rows }, ok true)
  ]
]

-- `Threads.InsertObserved`: one transaction, so a failure changes nothing.
unfoldable pub insert_observed : World → ThreadRecord → IdentityKey → Method Bool
insert_observed w r key s = elim (w.refuse r) [
  | some e ↦ (s, err e)
  | none ↦
      if is_some (row_of r.id s)
      then (s, ok false)
      else if is_some (lookup IdentityKey-discrete key s.identity_rows)
      then (s, err (already_mapped r.id))
      else (
        record s {
          rows = insert String-discrete r.id r s.rows;
          identity_rows = insert IdentityKey-discrete key r.id s.identity_rows;
        },
        ok true,
      )
]
