-- ===== src/Threads/Reads.antt =====
-- internal/threads/service.go: what is read off the view. `wire` stands for the conversion of a
-- record to its wire shape, `sort_by` for sort.Slice, and `below` for the order on strings.
use atelier_code.Shared.{
  ℕ_discrete, String, Bool, true, not, ◌&&◌, ◌||◌, Option, none, some, List, [], ◌∷◌, map, ltb,
  String-discrete, is_empty, differ, if◌then◌else◌,
}
use atelier_code.Finite.{lookup, keys}
use atelier_code.Threads.Record.{ThreadRecord}
use atelier_code.Threads.State.{IdentityKey, Service, World, Result, ok, err, not_found, view_of}
use atelier_code.Threads.Observe.{active_of, identity_of}

-- `UnarchivedProviderIDs`, over the ids of the view.
unfoldable pub reported_ids : String → Service → List String → List String
reported_ids integration s [] = []
reported_ids integration s (id ∷ ids) =
    let rest = reported_ids integration s ids in
    elim (view_of id s) [
      | none ↦ rest
      | some r ↦
          if differ String-discrete r.integration_id integration || r.archived
          then rest
          else elim (lookup String-discrete id s.identity_keys) [
            | none ↦ rest
            | some key ↦ key.provider_id ∷ rest
          ]
    ]

unfoldable pub unarchived_provider_ids : World → String → Service → List String
unarchived_provider_ids w integration s =
    w.sort (reported_ids integration s (keys String-discrete s.view))

-- `Get`.
unfoldable pub get : {A : Type 0} → (ThreadRecord → A) → String → Service → Result A
get wire id s = elim (view_of id s) [ none ↦ err not_found | some r ↦ ok (wire r) ]

-- The filters of `List`: an empty text filters nothing.
unfoldable pub is_listed : String → String → Bool → ThreadRecord → Bool
is_listed project terminal archived r =
    not (r.archived && not archived)
    && not (not (is_empty project) && differ String-discrete r.project_id project)
    && not (not (is_empty terminal) && stands_elsewhere r.terminal_id)
  where
    stands_elsewhere : Option String → Bool
    stands_elsewhere none = true
    stands_elsewhere (some t) = differ String-discrete t terminal

unfoldable pub listed : (ThreadRecord → Bool) → List (String × ThreadRecord) → List ThreadRecord
listed p [] = []
listed p ((id, r) ∷ m) = let rest = listed p m in if p r then r ∷ rest else rest

-- Creation order, and the ids where two were created at once.
unfoldable pub is_earlier : (String → String → Bool) → ThreadRecord → ThreadRecord → Bool
is_earlier below a b =
    if differ ℕ_discrete a.created_at b.created_at
    then ltb a.created_at b.created_at
    else below a.id b.id

-- `List`.
unfoldable pub list_threads :
    {A : Type 0}
    → ((ThreadRecord → ThreadRecord → Bool) → List ThreadRecord → List ThreadRecord)
    → (String → String → Bool)
    → (ThreadRecord → A)
    → String
    → String
    → Bool
    → Service
    → List A
list_threads sort_by below wire project terminal archived s =
    map wire (sort_by (is_earlier below) (listed (is_listed project terminal archived) s.view))

-- `LookupIdentity`: the thread and its last terminal, or the empty text.
unfoldable pub lookup_identity : IdentityKey → Service → Option (String × String)
lookup_identity key s = elim (identity_of key s) [
  | none ↦ none
  | some id ↦ elim (view_of id s) [ none ↦ none | some r ↦ some (id, last_seen r.terminal_id) ]
]
  where
    last_seen : Option String → String
    last_seen none = ""
    last_seen (some t) = t

-- `ActiveThreadID`.
unfoldable pub active_thread_id : String → Service → String
active_thread_id terminal s = elim (active_of terminal s) [ none ↦ "" | some id ↦ id ]
