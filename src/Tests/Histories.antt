-- ===== src/Tests/Histories.antt =====
-- Histories of the thread service.
use atelier_code.Shared.{
  none, false, String, true, is_some, ◌≡◌, refl, ◌≢◌, arith, some, List, [], ◌∷◌, String-discrete,
}
use atelier_code.Finite.{lookup, insert, erase, erase_where, keys}
use atelier_code.Threads.State.{Service, World, ok, view_of, row_of}
use atelier_code.Threads.Observe.{active_of, take_terminal}
use atelier_code.Threads.Calls.{Call, run}
use atelier_code.Threads.Backed.{IsStored}
use atelier_code.Threads.Active.{HasSingleHolders, active_of-take_terminal}
use atelier_code.Threads.Consistency.{run-IsStored, run-HasSingleHolders}
use atelier_code.Threads.Holders.{holder, has_holder}
use atelier_code.Threads.Requests.{is_opening, delete}
use atelier_code.Threads.Deletion.{IsRemoved, delete-IsRemoved}
use atelier_code.Threads.Loading.{load}
use atelier_code.Threads.Loading.Rows.{IsTable}
use atelier_code.Threads.Loading.Boot.{IsBooted, load-IsBooted}
use atelier_code.Threads.Record.{ThreadRecord}
use atelier_code.Tests.Samples.{working_thread, empty_service, world, session}

-- Two conversations meet in one terminal, one of them moves on, and the other is submitted to.
abbrev history : List (World × Call)
history =
    (world 10 ("a" ∷ []), Call.observes_session (session "c1" "w1"))
    ∷ (world 11 ("a" ∷ "b" ∷ []), Call.observes_session (session "c2" "w1"))
    ∷ (world 12 [], Call.observes_session (session "c1" "w2"))
    ∷ (world 13 [], Call.submits "b")
    ∷ (world 14 [], Call.terminal_leaves "w1")
    ∷ []

empty-IsStored : IsStored empty_service
unfolding lookup
empty-IsStored = record { keyed = λ id r e. ground arith; backed = λ id. tt }

empty-HasSingleHolders : HasSingleHolders empty_service
unfolding lookup
empty-HasSingleHolders = record { apply = λ t u id e f. ground arith }

run-IsStored_example : IsStored (run history empty_service)
run-IsStored_example = run-IsStored history empty_service empty-IsStored empty-HasSingleHolders

run-HasSingleHolders_example : HasSingleHolders (run history empty_service)
run-HasSingleHolders_example =
    run-HasSingleHolders history empty_service empty-IsStored empty-HasSingleHolders

abbrev two_terminals : Service
two_terminals = record empty_service { active = ("w1", "a") ∷ ("w2", "b") ∷ [] }

moved : active_of "w1" (take_terminal "b" "w1" two_terminals) ≡ some "b"
unfolding take_terminal lookup insert erase_where keys String-discrete erase
moved = refl

left_behind : active_of "w2" (take_terminal "b" "w1" two_terminals) ≡ none
unfolding take_terminal lookup insert erase_where keys String-discrete erase
left_behind = refl

active_of-take_terminal_example :
    let u = take_terminal "b" "w1" two_terminals in
    (active_of "w1" u ≡ some "b")
    × ((t : String) → t ≢ "w1" → active_of t two_terminals ≡ some "b" → active_of t u ≡ none)
    × ((t : String)
        → t ≢ "w1"
        → active_of t two_terminals ≢ some "b"
        → active_of t u ≡ active_of t two_terminals)
    × (record u { active = two_terminals.active } ≡ two_terminals)
active_of-take_terminal_example = active_of-take_terminal "b" "w1" two_terminals

-- One thread, which nothing holds.
abbrev at_rest : Service
at_rest = record empty_service {
  rows = ("th", working_thread) ∷ [];
  view = ("th", working_thread) ∷ [];
}

delete-IsRemoved_example :
    (is_some (view_of "th" at_rest) ≡ true
      → has_holder (holder "th" at_rest) ≡ false
      → is_opening "th" at_rest ≡ false
      → (world 20 []).refuse_id "th" ≡ none
      → is_some (row_of "th" at_rest) ≡ true
      → (delete (world 20 []) "th" at_rest).1 ≡ ok tt)
    × ((delete (world 20 []) "th" at_rest).1 ≡ ok tt
        → (has_holder (holder "th" at_rest) ≡ false)
          × (is_opening "th" at_rest ≡ false)
          × IsRemoved "th" at_rest (delete (world 20 []) "th" at_rest).0)
    × ((delete (world 20 []) "th" at_rest).1 ≢ ok tt
        → (delete (world 20 []) "th" at_rest).0 ≡ at_rest)
delete-IsRemoved_example = delete-IsRemoved (world 20 []) "th" at_rest

-- The database before the server starts.
abbrev stopped : Service
stopped = record empty_service { rows = ("th", working_thread) ∷ [] }

stopped-IsTable : IsTable stopped.rows
unfolding IsTable lookup
stopped-IsTable = (refl, refl, tt)

load-IsBooted_example :
    ((load (world 30 []) none stopped).1 ≡ ok tt
      → IsBooted (world 30 []) stopped (load (world 30 []) none stopped).0)
    × (((r : ThreadRecord) → (world 30 []).refuse r ≡ none)
        → (load (world 30 []) none stopped).1 ≡ ok tt)
load-IsBooted_example = load-IsBooted (world 30 []) stopped stopped-IsTable refl
