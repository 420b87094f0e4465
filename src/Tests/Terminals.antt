-- ===== src/Tests/Terminals.antt =====
-- A pass over one terminal whose session is gone.
use mathlib.Core.List.{Memᴰ}
use atelier_code.Shared.{
  ℕ, zero, suc, ◌<◌, String, Bool, true, false, ◌≡◌, refl, ◌≢◌, none, some, [], ◌∷◌,
  String-discrete, String-ne, ite, sym, ap, ◌∙◌,
}
use atelier_code.Finite.{lookup, insert}
use atelier_code.Terminals.State.{Service, Entry, TerminalRecord, running, SpaceRecord}
use atelier_code.Terminals.Reconcile.{Finding, decide, inspect, orphans, reaped}
use atelier_code.Terminals.Requests.{World, remove_record, record_stop}
use atelier_code.Terminals.Create.{Turn, await_settled, verify_failure_cap}
use atelier_code.Terminals.Waiting.{Answer, IsEvidence, await_settled-answer}
use atelier_code.Terminals.Judgement.{Outcome, inspect-Outcome}
use atelier_code.Terminals.Durable.{IsDurable}
use atelier_code.Terminals.Histories.{rest, step, stopping, removing, History-IsDurable}
use atelier_code.Terminals.Closed.{space_at, IsClosed}
use atelier_code.Terminals.Closing.{History-closed}
use atelier_code.Terminals.Reaping.{IsAbandoned, reaped-IsAbandoned}

abbrev shell : TerminalRecord
shell = record {
  id = "t1";
  space_id = "s1";
  name = "";
  directory = "/home";
  command = "";
  app_id = "";
  created_at = 5;
  updated_at = 5;
  stop_requested_at = none;
  exited_at = none;
  exit_code = none;
}

abbrev shell_entry : Entry
shell_entry = record { record_of = shell; status = running; process = "shell" }

abbrev exited_shell : TerminalRecord
exited_shell = record shell { exited_at = some 8; exit_code = some 1 }

abbrev one_terminal : TerminalRecord → Service
one_terminal r = record {
  rows = ("t1", r) ∷ [];
  view = ("t1", record { record_of = r; status = running; process = "shell" }) ∷ [];
  settling = [];
  space_rows = [];
  space_view = [];
  default_space = "";
  deleting_spaces = [];
  published = [];
}

abbrev exit_found : Finding
exit_found = record {
  now = 9;
  report =
      some (some (record { started_at = 6; process = "zsh"; exited_at = some 8; code = some 1 }));
  refuses = false;
}

inspect-Outcome_example :
    Outcome "t1" shell_entry
      (some [])
      exit_found
      (inspect exit_found (decide (some []) "t1" shell_entry) (one_terminal shell)).1
inspect-Outcome_example = inspect-Outcome "t1" shell_entry exit_found (some []) (one_terminal shell)

-- The session shows up on the third turn.
unfoldable late : ℕ → Bool
late zero = false
late (suc n) = true

unfoldable slow_start : ℕ → Turn
slow_start n = record {
  is_exited = false;
  inventory = some (record { name = "t1"; reachable = late n } ∷ []);
  is_cancelled = false;
}

await_settled-answer_example :
    Answer slow_start "t1" (await_settled 821 slow_start "t1" 0 0 0)
    × ((k : ℕ)
        → k < verify_failure_cap
        → ((j : ℕ) → j < k → (slow_start j).is_cancelled ≡ false)
        → IsEvidence "t1" (slow_start k)
        → await_settled 821 slow_start "t1" 0 0 0 ≡ some true)
await_settled-answer_example = await_settled-answer slow_start "t1"

abbrev stop_world : World
stop_world = record { now = 20; refuses = false }

abbrev t2 : String
t2 = "t2"

other_id : t2 ≢ "t1"
other_id = String-ne "t2" "t1" refl

exited_shell-IsDurable : IsDurable "t1" (8, some 1) (one_terminal exited_shell)
unfolding lookup String-discrete
exited_shell-IsDurable = (refl, refl)

reaped_t9 : Memᴰ "t9" (
    reaped
      (some (record { name = "t9"; reachable = true } ∷ []))
      none
      (one_terminal shell)
      (one_terminal shell))
unfolding reaped orphans lookup String-discrete
reaped_t9 = Memᴰ.head refl

History-IsDurable_example :
    let s = one_terminal exited_shell in
    let t = (record_stop stop_world "t1" s).0 in
    IsDurable "t1" (8, some 1) (remove_record stop_world t2 t).0
History-IsDurable_example =
    History-IsDurable (8, some 1)
      (step (stopping stop_world "t1") (step (removing stop_world t2 other_id) rest))
      exited_shell-IsDurable

reaped-IsAbandoned_example :
    IsAbandoned
      (some (record { name = "t9"; reachable = true } ∷ []))
      none
      (one_terminal shell)
      (one_terminal shell)
      "t9"
reaped-IsAbandoned_example =
    reaped-IsAbandoned (some (record { name = "t9"; reachable = true } ∷ [])) none
      (one_terminal shell) (one_terminal shell) "t9" reaped_t9

abbrev home_space : SpaceRecord
home_space = record {
  id = "s1";
  name = "site";
  directory = "/home";
  is_default = false;
  created_at = 1;
  updated_at = 1;
}

abbrev closing : Service
closing = record (one_terminal shell) {
  space_view = ("s1", home_space) ∷ [];
  deleting_spaces = ("s1", tt) ∷ [];
}

closing-keyed :
    (v : String) (r : SpaceRecord) → lookup String-discrete v closing.space_view ≡ some r → r.id ≡ v
unfolding lookup
closing-keyed v r =
    elim (String-discrete "s1" v) as (λ d. ite d (some home_space) none ≡ some r → r.id ≡ v) [
      | yes e ↦
          λ h. let same : home_space ≡ r = cc h in ap (λ (p : SpaceRecord). p.id) (sym same) ∙ e
      | no n ↦ λ h. absurd (cc h)
    ]

closing-IsClosed : IsClosed "s1" closing
unfolding lookup String-discrete
closing-IsClosed = record { marked = refl; keyed = closing-keyed }

abbrev after_stop : Service
after_stop = (remove_record stop_world t2 (record_stop stop_world "t1" closing).0).0

still_there : space_at "t1" after_stop.view ≡ some "s1"
unfolding record_stop remove_record lookup insert String-discrete
still_there = refl

History-closed_example : space_at "t1" closing.view ≡ some "s1"
History-closed_example =
    History-closed "s1" (step (stopping stop_world "t1") (step (removing stop_world t2 tt) rest))
      closing-IsClosed "t1" still_there
