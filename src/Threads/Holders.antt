-- ===== src/Threads/Holders.antt =====
-- internal/threads/service.go: what holds a thread.
use atelier_code.Shared.{
  String, Bool, true, false, not, Option, some, List, [], ◌∷◌, String-discrete, is_empty, is_some,
  differ, if◌then◌else◌,
}
use atelier_code.Finite.{lookup, keys, select}
use atelier_code.Threads.Record.{ThreadRecord}
use atelier_code.Threads.State.{Service, view_of}

abbrev is_thread : String → String → String → Bool
is_thread thread t id = not (differ String-discrete id thread)

-- The terminals that have the thread open.
unfoldable pub holding_terminals : String → Service → List String
holding_terminals thread s =
    select String-discrete (is_thread thread) (keys String-discrete s.active) s.active

abbrev pub first_or_empty : List String → String
first_or_empty [] = ""
first_or_empty (t ∷ ts) = t

-- The first that the iteration meets, or the empty text.
unfoldable pub active_holder : String → Service → String
active_holder thread s = first_or_empty (holding_terminals thread s)

-- The message of `holder`, as data: `nobody` is its empty text.
pub data Holder : Type 0 where
  nobody : Holder
  open_in still_reported_by : String → Holder

abbrev pub is_held : String → Service → Bool
is_held id s = is_some (lookup String-discrete id s.held)

unfoldable pub reporter : Bool → Option ThreadRecord → Holder
reporter true (some r) = still_reported_by r.integration_id
reporter _ _ = nobody

unfoldable pub holder : String → Service → Holder
holder thread s =
    if not (is_empty (active_holder thread s))
    then open_in (active_holder thread s)
    else reporter (is_held thread s) (view_of thread s)

unfoldable pub has_holder : Holder → Bool
has_holder nobody = false
has_holder _ = true
