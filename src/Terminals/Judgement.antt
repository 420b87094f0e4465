-- ===== src/Terminals/Judgement.antt =====
-- internal/terminals/service.go, `Reconcile`: the decision table of its documentation, and the phases
-- that implement it.
use atelier_code.Shared.{
  ℕ, ◌≤◌, String, Bool, true, false, ◌≡◌, refl, sym, ap, ◌∙◌, ◌⊎◌, inl, inr, Option, none, some,
  List, arith, if-cases, String-discrete, is_some, ltb,
}
use atelier_code.Finite.{lookup}
use atelier_code.Terminals.State.{
  Service, Entry, TerminalStatus, running, exited, unreachable, missing,
}
use atelier_code.Terminals.Reconcile.{
  Report, Candidate, Finding, decide, decide_status, current, weigh, weigh_exit, inspect,
  inspect_read, inspect_current, by_presence,
}

-- Evidence of an exit: a report of this incarnation that has one.
pub data IsExit (e : Entry) (w : Finding) (r : Report) (at : ℕ) : Type 0 where
  reported :
      w.report ≡ some (some r)
      → e.record_of.created_at ≤ r.started_at
      → r.exited_at ≡ some at
      → IsExit e w r at

-- The table, for the entry of a terminal, the inventory by names, and what phase 2 finds.
pub data Judgement (id : String) (e : Entry) (m : Option (List (String × Bool))) (w : Finding)
    : TerminalStatus → Type 0 where
  recorded : (at : ℕ) → e.record_of.exited_at ≡ some at → Judgement id e m w exited
  unavailable : e.record_of.exited_at ≡ none → m ≡ none → Judgement id e m w unreachable
  responsive :
      (x : List (String × Bool))
      → e.record_of.exited_at ≡ none
      → m ≡ some x
      → lookup String-discrete id x ≡ some true
      → Judgement id e m w running
  unresponsive :
      (x : List (String × Bool))
      → e.record_of.exited_at ≡ none
      → m ≡ some x
      → lookup String-discrete id x ≡ some false
      → Judgement id e m w unreachable
  evidence :
      (x : List (String × Bool)) (r : Report) (at : ℕ)
      → e.record_of.exited_at ≡ none
      → m ≡ some x
      → lookup String-discrete id x ≡ none
      → IsExit e w r at
      → Judgement id e m w exited
  vanished :
      (x : List (String × Bool))
      → e.record_of.exited_at ≡ none
      → m ≡ some x
      → lookup String-discrete id x ≡ none
      → ((r : Report) (at : ℕ) → ¬ IsExit e w r at)
      → Judgement id e m w missing

abbrev pub Outcome : String → Entry → Option (List (String × Bool)) → Finding → Candidate → Type 0
Outcome id e m w c =
    ((c.status ≡ none) × (w.refuses ≡ true))
    ⊎ ((x : TerminalStatus) × (c.status ≡ some x) × Judgement id e m w x)

module _ (id : String) (e : Entry) (w : Finding) (x : List (String × Bool)) (s : Service)
    (unrecorded : e.record_of.exited_at ≡ none) (gone : lookup String-discrete id x ≡ none) where
  no-report :
      (o : Option (Option Report))
      → w.report ≡ o
      → ((r : Report) → o ≡ some (some r) → ltb r.started_at e.record_of.created_at ≡ true)
      → Judgement id e (some x) w missing
  no-report o h f =
      vanished x unrecorded refl gone (λ r at i. elim i [
        | reported g before _ ↦ absurd (ground (arith, f r (sym h ∙ g), before))
      ])

  weigh_exit-Outcome :
      (c : Candidate) (r : Report) (o : Option ℕ)
      → w.report ≡ some (some r)
      → e.record_of.created_at ≤ r.started_at
      → r.exited_at ≡ o
      → Outcome id e (some x) w (weigh_exit w c r o s).1
  unfolding weigh_exit
  weigh_exit-Outcome c r none h b f = inr (
    missing,
    refl,
    vanished x unrecorded refl gone (λ q at i. elim i [ reported g _ k ↦ absurd (later q at g k) ]),
  )
    where
      later : (q : Report) (at : ℕ) → w.report ≡ some (some q) → q.exited_at ≡ some at → ⊥
      later q at g k = let same : r ≡ q = cc (h, g) in cc (f, k, same)
  weigh_exit-Outcome c r (some at) h b f =
      if-cases (λ (y : Service × Candidate). Outcome id e (some x) w y.1) w.refuses
        (λ g. inl (refl, g))
        (λ g. inr (exited, refl, evidence x r at unrecorded refl gone (reported h b f)))

  inspect_none-Outcome :
      (c : Candidate) (o : Option (Option Report))
      → c.is_absent ≡ true
      → w.report ≡ o
      → ((r : Report) → o ≡ some (some r) → ltb r.started_at e.record_of.created_at ≡ true)
      → Outcome id e (some x) w (inspect_current w c none s).1
  unfolding inspect_current weigh
  inspect_none-Outcome c o a h f =
      if-cases (λ (y : Service × Candidate). Outcome id e (some x) w y.1) c.is_absent
        (λ g. inr (missing, refl, no-report o h f)) (λ g. absurd (ground (arith, a, g)))

  inspect_some-Outcome :
      (c : Candidate) (r : Report)
      → c.is_absent ≡ true
      → w.report ≡ some (some r)
      → e.record_of.created_at ≤ r.started_at
      → Outcome id e (some x) w (inspect_current w c (some r) s).1
  unfolding inspect_current weigh
  inspect_some-Outcome c r a h b =
      if-cases (λ (y : Service × Candidate). Outcome id e (some x) w y.1) c.is_absent
        (λ g. weigh_exit-Outcome (record c { process = r.process }) r r.exited_at h b refl)
        (λ g. absurd (ground (arith, a, g)))

  inspect_read-Outcome :
      (c : Candidate) (o : Option (Option Report))
      → c.is_absent ≡ true
      → c.created_at ≡ e.record_of.created_at
      → w.report ≡ o
      → Outcome id e (some x) w (inspect_read w c o s).1
  unfolding inspect_read current
  inspect_read-Outcome c none a b h =
      if-cases (λ (o : Option TerminalStatus). Outcome id e (some x) w (record c { status = o }))
        c.is_absent (λ g. inr (missing, refl, no-report none h (λ r k. absurd (ground (arith, k)))))
        (λ g. absurd (ground (arith, a, g)))
  inspect_read-Outcome c (some none) a b h =
      inspect_none-Outcome c (some none) a h (λ r k. absurd (ground (arith, k)))
  inspect_read-Outcome c (some (some r)) a b h =
      if-cases (λ o. Outcome id e (some x) w (inspect_current w c o s).1)
        (ltb r.started_at c.created_at)
        (λ g. inspect_none-Outcome c (some (some r)) a h (λ q k.
          let same : r ≡ q = cc k in ground (arith, b, g, ap (λ (r : Report). r.started_at) same)))
        (λ g. inspect_some-Outcome c r a h (ground (arith, b, g)))

-- A terminal whose session is not absent has its status from phase 1.
inspect-present :
    (w : Finding) (c : Candidate) (o : Option (Option Report)) (s : Service)
    → c.is_absent ≡ false
    → (inspect_read w c o s).1.status ≡ c.status
unfolding inspect_read inspect_current
inspect-present w c none s a =
    if-cases (λ (o : Option TerminalStatus). o ≡ c.status) c.is_absent
      (λ g. absurd (ground (arith, a, g))) (λ g. refl)
inspect-present w c (some report) s a =
    if-cases (λ (y : Service × Candidate). y.1.status ≡ c.status) c.is_absent
      (λ g. absurd (ground (arith, a, g))) (λ g. refl)

module _ (id : String) (e : Entry) (w : Finding) (s : Service) where
  judged :
      (m : Option (List (String × Bool))) (c : Candidate) (x : TerminalStatus)
      → c.is_absent ≡ false
      → c.status ≡ some x
      → Judgement id e m w x
      → Outcome id e m w (inspect_read w c w.report s).1
  judged m c x a h j = inr (x, inspect-present w c w.report s a ∙ h, j)

  abbrev candidate : Bool × Option TerminalStatus → Candidate
  candidate y = record {
    id = id;
    created_at = e.record_of.created_at;
    is_stop_requested = is_some e.record_of.stop_requested_at;
    is_absent = y.0;
    status = y.1;
    process = "";
    exit = none;
  }

  by_presence-Outcome :
      (x : List (String × Bool)) (o : Option Bool)
      → e.record_of.exited_at ≡ none
      → lookup String-discrete id x ≡ o
      → Outcome id e (some x) w (inspect_read w (candidate (by_presence o)) w.report s).1
  unfolding by_presence
  by_presence-Outcome x (some true) u h =
      judged (some x) (candidate (false, some running)) running refl refl (responsive x u refl h)
  by_presence-Outcome x (some false) u h =
      judged (some x) (candidate (false, some unreachable)) unreachable refl refl
        (unresponsive x u refl h)
  by_presence-Outcome x none u h =
      inspect_read-Outcome id e w x s u h (candidate (true, none)) w.report refl refl refl

  decide_status-Outcome :
      (o : Option ℕ) (m : Option (List (String × Bool)))
      → e.record_of.exited_at ≡ o
      → Outcome id e m w (inspect_read w (candidate (decide_status o m id)) w.report s).1
  unfolding decide_status
  decide_status-Outcome (some at) m h =
      judged m (candidate (false, some exited)) exited refl refl (recorded at h)
  decide_status-Outcome none none h =
      judged none (candidate (false, some unreachable)) unreachable refl refl (unavailable h refl)
  decide_status-Outcome none (some x) h = by_presence-Outcome x _ h refl

-- A pass gives a terminal the status of the documented table, read off the entry, the inventory and
-- its report: recorded evidence means exited; else no inventory, or an unresponsive session, means
-- unreachable and a reachable one running; else a report of this incarnation with an exit means
-- exited, and no such report means missing. The status is left open only if the database refused to
-- record an exit.
pub inspect-Outcome :
    (id : String) (e : Entry) (w : Finding) (m : Option (List (String × Bool))) (s : Service)
    → Outcome id e m w (inspect w (decide m id e) s).1
unfolding inspect decide
inspect-Outcome id e w m s = decide_status-Outcome id e w s e.record_of.exited_at m refl
