-- ===== src/Terminals/Create.antt =====
-- internal/terminals/service.go: `create`, `commitCreate` in its parts between the locks, and
-- `awaitSettled`.
use atelier_code.Shared.{
  ℕ, zero, suc, ◌+◌, String, Bool, true, false, not, ◌&&◌, ◌||◌, Option, none, some, List, [], ◌∷◌,
  String-discrete, differ, is_empty, ltb, if◌then◌else◌,
}
use atelier_code.Finite.{insert, erase}
use atelier_code.Terminals.State.{
  Service, TerminalRecord, unreachable, Texts, Error, directory_invalid, space_not_found,
  storage_failed, unverified, not_launched, Result, done, failed, has, publish, terminal_created,
  Terminal, fallback_process, get,
}
use atelier_code.Terminals.Reconcile.{Session}
use atelier_code.Terminals.Requests.{World, live_space, remove_record}

pub record CreateParams : Type 0 where
  pub space_id : String
  pub directory : String
  pub name : String
  pub command : String

-- What an App adds: its id, and the command that it composes for a terminal's id and directory, or an
-- error. A create without an App has no `compose`.
pub record AppLaunch : Type 0 where
  pub app_id : String
  pub compose : Option (String → String → Result String)

-- The space, and the directory in its canonical form.
unfoldable pub place : Texts → CreateParams → Service → Result (String × String)
place x p s =
    let space = if is_empty p.space_id then s.default_space else p.space_id in
    elim (live_space space s) [
      | failed e ↦ failed e
      | done r ↦ elim (x.canonical (if is_empty p.directory then r.directory else p.directory)) [
        | none ↦ failed directory_invalid
        | some directory ↦ done (r.id, directory)
      ]
    ]

abbrev pub new_record : World → Texts → CreateParams → AppLaunch → String → String → TerminalRecord
new_record w x p launch space directory = record {
  id = "";
  space_id = space;
  name = x.trim p.name;
  directory = directory;
  command = p.command;
  app_id = launch.app_id;
  created_at = w.now;
  updated_at = w.now;
  stop_requested_at = none;
  exited_at = none;
  exit_code = none;
}

abbrev pub composed : AppLaunch → TerminalRecord → Result TerminalRecord
composed launch r = elim launch.compose [
  | none ↦ done r
  | some f ↦ elim (f r.id r.directory) [
    | failed e ↦ failed e
    | done command ↦ done (record r { command = command })
  ]
]

-- The insertion of a row: false for an id that is taken.
unfoldable pub insert_row : World → TerminalRecord → Service → Service × Result Bool
insert_row w r s =
    if w.refuses
    then (s, failed storage_failed)
    else if has r.id s.rows
    then (s, done false)
    else if not (has r.space_id s.space_rows)
    then (s, failed space_not_found)
    else (record s { rows = insert String-discrete r.id r s.rows }, done true)

-- The loop that draws ids: the draws are a list, and a list that runs out reads as a storage failure.
unfoldable pub mint :
    World → AppLaunch → TerminalRecord → List String → Service → Service × Result TerminalRecord
mint w launch r [] s = (s, failed storage_failed)
mint w launch r (id ∷ ids) s =
    let rest = mint w launch r ids s in
    if has id s.view then rest else elim (composed launch (record r { id = id })) [
      | failed e ↦ (s, failed e)
      | done q ↦
          let (t, result) = insert_row w q s in
          elim result [
            | failed e ↦ (t, failed e)
            | done inserted ↦ if inserted then (t, done q) else rest
          ]
    ]

-- The new entry, whose status the create owns until it is settled.
unfoldable pub install : Texts → TerminalRecord → Service → Service
install x r s = publish (terminal_created r.id) (record s {
  view =
      insert String-discrete r.id
        (record { record_of = r; status = unreachable; process = fallback_process x r }) s.view;
  settling = insert String-discrete r.id tt s.settling;
})

-- `commitCreate` under its lock, with the space that `place` found.
unfoldable pub commit :
    World
    → Texts
    → AppLaunch
    → TerminalRecord
    → List String
    → Service
    → Service × Result TerminalRecord
commit w x launch r ids s = elim (live_space r.space_id s) [
  | failed e ↦ (s, failed e)
  | done _ ↦
      let (t, result) = mint w launch r ids s in
      elim result [ failed e ↦ (t, failed e) | done q ↦ (install x q t, done q) ]
]

unfoldable pub unsettle : String → Service → Service
unsettle id s = record s { settling = erase String-discrete id s.settling }

-- What the driver's Create returns.
pub data Launch : Type 0 where
  launched nothing_ran uncertain : Launch

-- One turn of `awaitSettled`: whether the report records an exit, the inventory, and whether the
-- caller gives up.
pub record Turn : Type 0 where
  pub is_exited : Bool
  pub inventory : Option (List Session)
  pub is_cancelled : Bool

unfoldable pub is_reachable : String → List Session → Bool
is_reachable id [] = false
is_reachable id (x ∷ xs) =
    (not (differ String-discrete x.name id) && x.reachable) || is_reachable id xs

abbrev pub verify_passes : ℕ
verify_passes = 40

abbrev pub verify_failure_cap : ℕ
verify_failure_cap = 20

-- The rest of a turn from its inventory on, with what follows a failed and a complete one.
unfoldable pub after_look :
    String → Bool → Option (List Session) → Option Bool → Option Bool → Option Bool
after_look id is_cancelled none after_failure after_pass =
    if is_cancelled then some false else after_failure
after_look id is_cancelled (some xs) after_failure after_pass =
    if is_reachable id xs then some true else if is_cancelled then some false else after_pass

-- `awaitSettled`, on fuel, from the `n`-th turn on.
unfoldable pub await_settled : ℕ → (ℕ → Turn) → String → ℕ → ℕ → ℕ → Option Bool
await_settled zero turn id n passes failures = none
await_settled (suc fuel) turn id n passes failures =
    let after_failure = await_settled fuel turn id (n + 1) passes (failures + 1) in
    let after_pass = await_settled fuel turn id (n + 1) (passes + 1) 0 in
    if not (ltb passes verify_passes && ltb failures verify_failure_cap)
    then some false
    else if (turn n).is_exited
    then some true
    else after_look id (turn n).is_cancelled (turn n).inventory after_failure after_pass

-- After a session that never ran: the record goes, or lingers unsettled.
unfoldable pub discard : World → String → Service → Service × Error
discard w id s =
    let (t, result) = remove_record w id s in
    elim result [ failed e ↦ (unsettle id t, not_launched id) | done _ ↦ (t, not_launched "") ]

-- The answer of a create whose pass of reconciliation has run.
unfoldable pub answer_create : Bool → String → Service → Result Terminal
answer_create settled id s = elim (get id s) [
  | failed e ↦ failed e
  | done t ↦ if settled then done t else failed (unverified id t.status)
]

-- `commitCreate` after its lock: what the driver's Create returned, whether `awaitSettled` reported
-- success, and the pass of reconciliation that follows.
unfoldable pub finish_create :
    World → Launch → Bool → (Service → Service) → String → Service → Service × Result Terminal
finish_create w nothing_ran awaited pass id s = let (t, e) = discard w id s in (t, failed e)
finish_create w launched awaited pass id s =
    let t = pass (unsettle id s) in (t, answer_create true id t)
finish_create w uncertain awaited pass id s =
    let t = pass (unsettle id s) in (t, answer_create awaited id t)

-- Whether the preparation of an App is undone: an unverified launch keeps its terminal.
unfoldable pub is_undone : Error → Bool
is_undone (unverified id status) = false
is_undone _ = true
