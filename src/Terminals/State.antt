-- ===== src/Terminals/State.antt =====
-- internal/terminals/service.go: `Service`, with the tables of internal/store/terminals.go and
-- internal/store/spaces.go; internal/api/terminal.go: the wire shape.
use atelier_code.Shared.{
  ℕ, String, Bool, ◌≡◌, refl, Option, none, some, List, [], ◌∷◌, ◌++◌, String-discrete, is_empty,
  is_some, if◌then◌else◌,
}
use atelier_code.Finite.{lookup, insert}

pub data TerminalStatus : Type 0 where
  running exited unreachable missing : TerminalStatus

pub record TerminalRecord : Type 0 where
  pub id : String
  pub space_id : String
  pub name : String
  pub directory : String
  pub command : String
  pub app_id : String
  pub created_at : ℕ
  pub updated_at : ℕ
  pub stop_requested_at : Option ℕ
  pub exited_at : Option ℕ
  pub exit_code : Option ℕ

pub record Entry : Type 0 where
  pub record_of : TerminalRecord
  pub status : TerminalStatus
  pub process : String

pub record SpaceRecord : Type 0 where
  pub id : String
  pub name : String
  pub directory : String
  pub is_default : Bool
  pub created_at : ℕ
  pub updated_at : ℕ

pub data Event : Type 0 where
  terminal_created terminal_updated terminal_deleted : String → Event
  space_created space_updated space_deleted : String → Event

-- The tables, the views, the two sets, and what has been published.
pub record Service : Type 0 where
  pub rows : List (String × TerminalRecord)
  pub view : List (String × Entry)
  pub settling : List {0} (String × Unit)
  pub space_rows : List (String × SpaceRecord)
  pub space_view : List (String × SpaceRecord)
  pub default_space : String
  pub deleting_spaces : List {0} (String × Unit)
  pub published : List Event

-- What Go's library makes of texts and paths.
pub record Texts : Type 0 where
  pub trim : String → String
  pub canonical : String → Option String
  pub first_word : String → Option String
  pub base : String → String
  pub integration_of : String → String

pub data Error : Type 0 where
  not_found directory_invalid invalid_update space_not_found space_deleting default_space_fixed
        space_directory_invalid space_name_invalid space_in_use default_exists storage_failed :
      Error
  not_launched app_failed : String → Error
  unverified : String → TerminalStatus → Error

pub data Result {ℓ} (A : Type ℓ) : Type ℓ where
  done : A → Result A
  failed : Error → Result A

-- The wire shape.
pub record Terminal : Type 0 where
  pub id : String
  pub name : String
  pub space_id : String
  pub directory : String
  pub command : String
  pub app_id : String
  pub process : String
  pub status : TerminalStatus
  pub exit_code : Option ℕ
  pub created_at : ℕ
  pub updated_at : ℕ

abbrev pub code_of : Entry → Option ℕ
code_of e = elim e.status [ exited ↦ e.record_of.exit_code | _ ↦ none ]

unfoldable pub terminal : Entry → Terminal
terminal e = record {
  id = e.record_of.id;
  name = e.record_of.name;
  space_id = e.record_of.space_id;
  directory = e.record_of.directory;
  command = if is_empty e.record_of.app_id then e.record_of.command else "";
  app_id = e.record_of.app_id;
  process = e.process;
  status = e.status;
  exit_code = code_of e;
  created_at = e.record_of.created_at;
  updated_at = e.record_of.updated_at;
}

-- `fallbackProcess`; `integration_of` is the part before the first slash, empty without a slash.
unfoldable pub fallback_process : Texts → TerminalRecord → String
fallback_process w r =
    if is_empty r.app_id
    then elim (w.first_word r.command) [ none ↦ "shell" | some word ↦ w.base word ]
    else if is_empty (w.integration_of r.app_id)
    then r.app_id
    else w.integration_of r.app_id

abbrev pub has : {A : Type 0} → String → List (String × A) → Bool
has id m = is_some (lookup String-discrete id m)

-- The status that durable evidence alone supports.
abbrev pub loaded : Texts → TerminalRecord → Entry
loaded w r = record {
  record_of = r;
  status = elim r.exited_at [ none ↦ unreachable | some _ ↦ exited ];
  process = fallback_process w r;
}

unfoldable pub load_rows :
    Texts → List (String × TerminalRecord) → List (String × Entry) → List (String × Entry)
load_rows w [] view = view
load_rows w ((id, r) ∷ rows) view = load_rows w rows (insert String-discrete r.id (loaded w r) view)

-- `Get`.
unfoldable pub get : String → Service → Result Terminal
get id s = elim (lookup String-discrete id s.view) [
  | none ↦ failed not_found
  | some e ↦ done (terminal e)
]

abbrev pub publish : Event → Service → Service
publish e s = record s { published = s.published ++ e ∷ [] }

-- `P` of a case split on a result.
pub result-cases {ℓ κ} :
    {A B : Type ℓ} (P : B → Type κ) (o : Result A) {f : Error → B} {g : A → B}
    → ((e : Error) → o ≡ failed e → P (f e))
    → ((a : A) → o ≡ done a → P (g a))
    → P (elim o [ failed e ↦ f e | done a ↦ g a ])
result-cases P (failed e) h k = h e refl
result-cases P (done a) h k = k a refl
