-- ===== src/Terminals/Reconcile.antt =====
-- internal/terminals/service.go, `reconcile`: its three phases, and the orphans.
use atelier_code.Shared.{
  ℕ, String, Bool, true, false, not, ◌&&◌, ◌||◌, ℕ_discrete, Option, none, some, List, [], ◌∷◌,
  ◌++◌, String-discrete, differ, is_empty, is_some, ltb, if◌then◌else◌,
}
use atelier_code.Finite.{lookup, insert, keys}
use atelier_code.Terminals.State.{
  Service, Entry, TerminalStatus, running, exited, unreachable, missing, has, publish,
  terminal_updated,
}

pub record Session : Type 0 where
  pub name : String
  pub reachable : Bool

-- What the monitor wrote, read back. Its version and its terminal's id have been checked.
pub record Report : Type 0 where
  pub started_at : ℕ
  pub process : String
  pub exited_at : Option ℕ
  pub code : Option ℕ

-- The map from names to reachability: a later session of a name replaces an earlier one.
unfoldable pub present : List Session → List (String × Bool) → List (String × Bool)
present [] m = m
present (x ∷ xs) m = present xs (insert String-discrete x.name x.reachable m)

pub record Exit : Type 0 where
  pub exited_at : ℕ
  pub code : Option ℕ
  pub observed : ℕ

-- A terminal's way through a pass; without a status it is left untouched.
pub record Candidate : Type 0 where
  pub id : String
  pub created_at : ℕ
  pub is_stop_requested : Bool
  pub is_absent : Bool
  pub status : Option TerminalStatus
  pub process : String
  pub exit : Option Exit

-- Whether a session is absent, and the status, by the session's place in a complete inventory.
unfoldable pub by_presence : Option Bool → Bool × Option TerminalStatus
by_presence (some true) = (false, some running)
by_presence (some false) = (false, some unreachable)
by_presence none = (true, none)

-- Phase 1, by the recorded exit and the inventory; an inventory that failed is `none`.
unfoldable pub decide_status :
    Option ℕ → Option (List (String × Bool)) → String → Bool × Option TerminalStatus
decide_status (some at) inventory id = (false, some exited)
decide_status none none id = (false, some unreachable)
decide_status none (some m) id = by_presence (lookup String-discrete id m)

unfoldable pub decide : Option (List (String × Bool)) → String → Entry → Candidate
decide inventory id e = record {
  id = id;
  created_at = e.record_of.created_at;
  is_stop_requested = is_some e.record_of.stop_requested_at;
  is_absent = (decide_status e.record_of.exited_at inventory id).0;
  status = (decide_status e.record_of.exited_at inventory id).1;
  process = "";
  exit = none;
}

unfoldable pub decide_all : Option (List (String × Bool)) → List String → Service → List Candidate
decide_all inventory [] s = []
decide_all inventory (id ∷ ids) s =
    let rest = decide_all inventory ids s in
    if has id s.settling then rest else elim (lookup String-discrete id s.view) [
      | none ↦ rest
      | some e ↦ decide inventory id e ∷ rest
    ]

-- The reachable sessions, and the leftovers, that no record claims.
unfoldable pub orphans : List Session → Service → List String
orphans [] s = []
orphans (x ∷ xs) s =
    let rest = orphans xs s in
    if not (has x.name s.view) && x.reachable then x.name ∷ rest else rest

unfoldable pub unclaimed : List String → Service → List String
unclaimed [] s = []
unclaimed (name ∷ names) s =
    let rest = unclaimed names s in if has name s.view then rest else name ∷ rest

-- A report of an earlier incarnation is ignored.
unfoldable pub current : Candidate → Option Report → Option Report
current c none = none
current c (some r) = if ltb r.started_at c.created_at then none else some r

-- `RecordExit`: the first observation wins.
unfoldable pub record_exit : String → Exit → Service → Service
record_exit id x s = elim (lookup String-discrete id s.rows) [
  | none ↦ s
  | some r ↦ elim r.exited_at [
    | some _ ↦ s
    | none ↦ record s {
      rows =
          insert String-discrete id
            (record r { exited_at = some x.exited_at; exit_code = x.code; updated_at = x.observed })
            s.rows;
    }
  ]
]

-- What phase 2 finds outside for one candidate: the time, its report unless it is unreadable, and
-- whether the database refuses.
pub record Finding : Type 0 where
  pub now : ℕ
  pub report : Option (Option Report)
  pub refuses : Bool

-- Phase 2 for a candidate whose session is absent, by the exit that its report has.
unfoldable pub weigh_exit : Finding → Candidate → Report → Option ℕ → Service → Service × Candidate
weigh_exit w c r none s = (s, record c { status = some missing })
weigh_exit w c r (some at) s =
    let x : Exit = record {
      exited_at = at;
      code = if c.is_stop_requested then none else r.code;
      observed = w.now;
    } in
    if w.refuses
    then (s, record c { status = none })
    else (record_exit c.id x s, record c { exit = some x; status = some exited })

unfoldable pub weigh : Finding → Candidate → Option Report → Service → Service × Candidate
weigh w c none s = (s, record c { status = some missing })
weigh w c (some r) s = weigh_exit w (record c { process = r.process }) r r.exited_at s

unfoldable pub inspect_current : Finding → Candidate → Option Report → Service → Service × Candidate
inspect_current w c r s =
    if c.is_absent
    then weigh w c r s
    else (s, record c { process = elim r [ none ↦ c.process | some report ↦ report.process ] })

unfoldable pub inspect_read :
    Finding → Candidate → Option (Option Report) → Service → Service × Candidate
inspect_read w c none s = (s, record c { status = if c.is_absent then some missing else c.status })
inspect_read w c (some report) s = inspect_current w c (current c report) s

unfoldable pub inspect : Finding → Candidate → Service → Service × Candidate
inspect w c s = inspect_read w c w.report s

unfoldable pub inspect_all :
    (String → Finding) → List Candidate → Service → Service × List Candidate
inspect_all w [] s = (s, [])
inspect_all w (c ∷ cs) s =
    let (t, d) = inspect (w c.id) c s in let (u, ds) = inspect_all w cs t in (u, d ∷ ds)

abbrev pub differ_status : TerminalStatus → TerminalStatus → Bool
differ_status running running = false
differ_status exited exited = false
differ_status unreachable unreachable = false
differ_status missing missing = false
differ_status a b = true

-- Phase 3, on one entry.
unfoldable pub observed_in : Candidate → Entry → Entry
observed_in c e = record e {
  process = if is_empty c.process then e.process else c.process;
  record_of = elim c.exit [
    | none ↦ e.record_of
    | some x ↦ elim e.record_of.exited_at [
      | some _ ↦ e.record_of
      | none ↦ record e.record_of {
        exited_at = some x.exited_at;
        exit_code = x.code;
        updated_at = x.observed;
      }
    ]
  ];
  status = elim c.status [ none ↦ e.status | some status ↦ status ];
}

abbrev pub changes : Candidate → Entry → Bool
changes c e = elim c.status [ none ↦ false | some status ↦ differ_status e.status status ]

unfoldable pub apply : Candidate → Service → Service × List String
apply c s = elim (lookup String-discrete c.id s.view) [
  | none ↦ (s, [])
  | some e ↦
      if differ ℕ_discrete e.record_of.created_at c.created_at || has c.id s.settling
      then (s, [])
      else (
        record s { view = insert String-discrete c.id (observed_in c e) s.view },
        if changes c e then c.id ∷ [] else [],
      )
]

unfoldable pub apply_all : List Candidate → Service → Service × List String
apply_all [] s = (s, [])
apply_all (c ∷ cs) s =
    let (t, changed) = apply c s in let (u, rest) = apply_all cs t in (u, changed ++ rest)

unfoldable pub publish_updates : List String → Service → Service
publish_updates [] s = s
publish_updates (id ∷ ids) s = publish_updates ids (publish (terminal_updated id) s)

-- A whole pass, with nothing between its phases.
unfoldable pub reconcile : Option (List Session) → (String → Finding) → Service → Service
reconcile inventory w s =
    let m : Option (List (String × Bool)) = elim inventory [
      | none ↦ none
      | some xs ↦ some (present xs [])
    ] in
    let (t, cs) = inspect_all w (decide_all m (keys String-discrete s.view) s) s in
    let (u, changed) = apply_all cs t in publish_updates changed u

-- The sessions that a pass with reaping kills: `at` is the state under the first lock, `later` the one
-- under the second, and `leftovers` what the backend lists, if it can.
unfoldable pub reaped :
    Option (List Session) → Option (List String) → Service → Service → List String
reaped none leftovers at later = []
reaped (some xs) none at later = orphans xs at
reaped (some xs) (some names) at later = orphans xs at ++ unclaimed names later
