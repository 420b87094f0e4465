-- ===== src/Threads/Backed/Steps.antt =====
-- internal/threads/service.go: the steps of the methods keep the view backed by the rows.
use atelier_code.Shared.{
  String, Bool, true, false, ◌≡◌, refl, ◌⊎◌, ◌≢◌, inl, inr, some, List, [], ◌∷◌, arith,
  String-discrete, Option-cases, Bool-cases, is_some, is_empty,
}
use atelier_code.Finite.{insert, erase, lookup-insert, lookup-erase}
use atelier_code.Threads.Record.{ThreadRecord}
use atelier_code.Threads.Keeps.{Keeps, steps, >>-Keeps, return-Keeps}
use atelier_code.Threads.State.{
  Service, World, ProjectRecord, ◌>>=◌, Event, ◌>>◌, return, throw, branch, modify, view_of, row_of,
  assign_view, write_columns, update_row, publish, publish_when,
}
use atelier_code.Threads.Observe.{
  coerce_inactive, take_terminal, publish_terminals, move_active, commit,
}
use atelier_code.Threads.Sessions.{record_observed}
use atelier_code.Threads.Leaving.{release_terminal}
use atelier_code.Threads.Requests.{delete_row, drop_thread, forget_identity, remove}
use atelier_code.Threads.Projects.{assign_row, assign_in_view, backfill_one, candidate_project}
use atelier_code.Threads.Methods.{coerce-Keeps}
use atelier_code.Threads.Blind.{IsBlind, publish-Keeps, publish_when-Keeps}
use atelier_code.Threads.Backed.{
  IsStored, IsWritten, save-IsStored, assign_view-IsStored, update_row_cases, after_ok, after_step,
  after_ok,
}

-- Only the view and the rows matter.
IsStored-as : (s t : Service) → t.view ≡ s.view → t.rows ≡ s.rows → IsStored s → IsStored t
IsStored-as s t view rows p = record {
  keyed = λ id r e. ground (arith, p.keyed id r);
  backed = λ id. rw (rows, view) (p.backed id);
}

pub IsStored-blind : IsBlind IsStored
IsStored-blind s t rows view _ _ _ _ p = IsStored-as s t view rows p

pub publish_when-IsStored : (b : Bool) (e : Event) → Keeps IsStored (publish_when b e)
publish_when-IsStored = publish_when-Keeps IsStored-blind

pub release_terminal-IsStored : (terminal : String) → Keeps IsStored (release_terminal terminal)
unfolding release_terminal modify
release_terminal-IsStored t = record {
  apply = λ s p. record { keyed = p.keyed; backed = p.backed };
}

take_terminal-IsStored :
    (thread terminal : String) → Keeps IsStored (modify (take_terminal thread terminal))
unfolding take_terminal modify
take_terminal-IsStored thread t = record {
  apply = λ s p. record { keyed = p.keyed; backed = p.backed };
}

remove_cases :
    (w : World) (id : String) (s : Service)
    → (((remove w id s).0.view ≡ s.view) × ((remove w id s).0.rows ≡ s.rows))
      ⊎ (((remove w id s).0.view ≡ erase String-discrete id s.view)
          × ((remove w id s).0.rows ≡ erase String-discrete id s.rows))
unfolding remove delete_row drop_thread forget_identity ◌>>=◌ ◌>>◌ branch throw return modify
    publish
remove_cases w id s = elim (Option-cases (w.refuse_id id)) [
  | inl e ↦ elim (Bool-cases (is_some (row_of id s))) [
    | inl f ↦ inr (ground arith, ground arith)
    | inr f ↦ inl (ground arith, ground arith)
  ]
  | inr (x, e) ↦ inl (ground arith, ground arith)
]

pub remove-IsStored : (w : World) (id : String) → Keeps IsStored (remove w id)
remove-IsStored w id = record {
  apply = λ s p. elim (remove_cases w id s) [
    | inl (view, rows) ↦ IsStored-as s (remove w id s).0 view rows p
    | inr (view, rows) ↦
        IsStored-as
          (record s {
            view = erase String-discrete id s.view;
            rows = erase String-discrete id s.rows;
          })
          (remove w id s).0 view rows
          (record {
            keyed = λ j x e. ground (arith, lookup-erase String-discrete id j s.view, p.keyed j x);
            backed = λ j. ground (
              arith,
              lookup-erase String-discrete id j s.view,
              lookup-erase String-discrete id j s.rows,
              p.backed j,
            );
          })
  ];
}

backfill_one-cases :
    (w : World) (ps : List ProjectRecord) (id : String) (r : ThreadRecord) (s : Service)
    → IsStored s
    → (((backfill_one w ps id r s).0.view ≡ s.view) × ((backfill_one w ps id r s).0.rows ≡ s.rows))
      ⊎ ((x : ThreadRecord) × (row : ThreadRecord) × (view_of id s ≡ some x)
          × (row_of id s ≡ some row)
          × ((backfill_one w ps id r s).0.view
              ≡ insert String-discrete id
                  (record x { project_id = candidate_project ps r; updated_at = w.now })
                  s.view)
          × ((backfill_one w ps id r s).0.rows
              ≡ insert String-discrete id
                  (record row { project_id = candidate_project ps r; updated_at = w.now })
                  s.rows))
unfolding backfill_one assign_row assign_in_view ◌>>=◌ ◌>>◌ branch return modify publish
    write_columns
backfill_one-cases w ps id r s p = elim (Option-cases (row_of id s)) [
  | inl e ↦ inl (ground arith, ground arith)
  | inr (row, e) ↦ elim (Option-cases (view_of id s)) [
    | inl f ↦ absurd (ground (arith, p.backed id))
    | inr (x, f) ↦ elim (Option-cases (w.refuse_id id)) [
      | inl g ↦ elim (Bool-cases (is_empty row.project_id)) [
        | inl h ↦ inr (x, row, f, e, ground (arith, p.backed id), ground (arith, p.backed id))
        | inr h ↦ inl (ground arith, ground arith)
      ]
      | inr (y, g) ↦ inl (ground arith, ground arith)
    ]
  ]
]

pub backfill_one-IsStored :
    (w : World) (ps : List ProjectRecord) (id : String) (r : ThreadRecord)
    → Keeps IsStored (backfill_one w ps id r)
unfolding write_columns
backfill_one-IsStored w ps id r = record {
  apply = λ s p. elim (backfill_one-cases w ps id r s p) [
    | inl (view, rows) ↦ IsStored-as s (backfill_one w ps id r s).0 view rows p
    | inr (x, row, f, e, view, rows) ↦
        let project = candidate_project ps r in
        let x' : ThreadRecord = record x { project_id = project; updated_at = w.now } in
        let row' : ThreadRecord = record row { project_id = project; updated_at = w.now } in
        IsStored-as
          (record s {
            view = insert String-discrete id x' s.view;
            rows = insert String-discrete id row' s.rows;
          })
          (backfill_one w ps id r s).0 view rows
          (record {
            keyed = λ j y q.
                ground (
                  arith,
                  lookup-insert String-discrete id j x' s.view,
                  p.keyed j y,
                  p.keyed id x f,
                );
            backed = λ j. ground (
              arith,
              lookup-insert String-discrete id j x' s.view,
              lookup-insert String-discrete id j row' s.rows,
              p.backed j,
              p.backed id,
            );
          })
  ];
}

publish_terminals-IsStored : (ts : List String) → Keeps IsStored (publish_terminals ts)
unfolding publish_terminals
publish_terminals-IsStored [] = return-Keeps tt
publish_terminals-IsStored (t ∷ ts) =
    >>-Keeps (publish-Keeps IsStored-blind _) (publish_terminals-IsStored ts)

coerce_inactive-IsStored : (w : World) (id : String) → Keeps IsStored (coerce_inactive w id)
coerce_inactive-IsStored = coerce-Keeps (λ s p. record { apply = p.keyed }) save-IsStored

move_active-IsStored :
    (w : World) (thread terminal : String) (changed : Bool)
    → Keeps IsStored (move_active w thread terminal changed)
unfolding move_active
move_active-IsStored w thread terminal changed =
    search
      (
        steps, take_terminal-IsStored, coerce_inactive-IsStored, publish_terminals-IsStored,
        publish_when-IsStored,
      )
      depth 20

-- `commit`, where the row holds the record already.
commit-IsStored :
    (w : World) (r : ThreadRecord) (terminal : String) (changed : Bool) (s : Service)
    → IsWritten r s
    → IsStored (commit w r r.id terminal changed s).0
unfolding commit ◌>>◌
commit-IsStored w r terminal changed s h =
    after_step IsStored (assign_view r.id r) (λ _. move_active w r.id terminal changed) s
      (assign_view-IsStored r s h)
      λ _ _. (move_active-IsStored w r.id terminal changed).apply _ (assign_view-IsStored r s h)

pub commit_then-IsStored :
    (w : World) (r : ThreadRecord) (terminal : String) (changed : Bool) (s : Service)
    → IsWritten r s
    → IsStored ((do commit w r r.id terminal changed; return r.id) s).0
unfolding ◌>>◌ return
commit_then-IsStored w r terminal changed s h =
    after_step IsStored (commit w r r.id terminal changed) (λ _. return r.id) s
      (commit-IsStored w r terminal changed s h) λ _ _. commit-IsStored w r terminal changed s h

observed_tail-IsStored :
    (w : World) (r : ThreadRecord) (terminal : String) (changed b : Bool) (s t : Service)
    → ((t ≡ s) × (b ≢ true)) ⊎ ((b ≡ true) × IsWritten r t)
    → IsStored s
    → IsStored
        (branch b (do commit w r r.id terminal changed; return r.id) (return {A = String} "") t).0
unfolding branch return
observed_tail-IsStored w r terminal changed true s t (inl (_, n)) p = absurd (n refl)
observed_tail-IsStored w r terminal changed false s t (inl (e, _)) p = rw e p
observed_tail-IsStored w r terminal changed true s t (inr (_, h)) p =
    commit_then-IsStored w r terminal changed t h
observed_tail-IsStored w r terminal changed false s t (inr (e, _)) p = absurd cc

pub record_observed-IsStored :
    (w : World) (r : ThreadRecord) (terminal : String) (changed : Bool)
    → Keeps IsStored (record_observed w r r.id terminal changed)
unfolding record_observed
record_observed-IsStored w r terminal changed = record {
  apply = λ s p. elim (update_row_cases w r s p) [
    | inl (same, refused) ↦
        after_step IsStored (update_row w r)
          (λ b. branch b (do commit w r r.id terminal changed; return r.id) (return "")) s
          (rw same p)
          λ b e.
            observed_tail-IsStored w r terminal changed b s _
              (inl (same, λ t. refused (ground arith))) p
    | inr (done, written) ↦
        after_ok IsStored (update_row w r)
          (λ b. branch b (do commit w r r.id terminal changed; return r.id) (return "")) s true done
          (observed_tail-IsStored w r terminal changed true s _ (inr (refl, written)) p)
  ];
}
