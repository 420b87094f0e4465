-- ===== src/Threads/Active.antt =====
-- internal/threads/service.go: a thread is open in at most one terminal, whatever is observed.
use atelier_code.Shared.{
  ℕ, String, Bool, true, false, ◌≡◌, refl, ap, Option, none, ◌⊎◌, ◌≢◌, inl, inr, ite, some, List,
  [], ◌∷◌, arith, String-discrete,
}
use atelier_code.Finite.{
  lookup, insert, keys, erase_where, lookup-insert, lookup-erase, lookup-erase_where-none,
  lookup-erase_where_other,
}
use atelier_code.Threads.Record.{ThreadRecord}
use atelier_code.Threads.Keeps.{
  Keeps, steps, >>=-Keeps, branch-Keeps, >>-Keeps, return-Keeps, throw-Keeps,
}
use atelier_code.Threads.State.{
  IdentityKey, ProjectRecord, Service, World, Event, modify, publish, publish_when, assign_view,
  update_row, insert_observed,
}
use atelier_code.Threads.Methods.{classify-Keeps, local_directory-Keeps}
use atelier_code.Threads.Projects.{assign_row, assign_in_view, backfill_one}
use atelier_code.Threads.Leaving.{release_terminal}
use atelier_code.Threads.Sessions.{
  install, insert_thread, create_observed, record_observed, observe_known,
}
use atelier_code.Threads.External.{hold, drop_hold}
use atelier_code.Threads.Requests.{delete_row, remove, drop_thread, forget_identity, keep_prior}
use atelier_code.Threads.Observe.{
  SessionObservation, active_of, take_terminal, publish_terminals, commit, move_active,
  is_other_holder, save, coerce_inactive, forget_prior, settle_prior,
}

-- No two terminals show one thread.
pub record HasSingleHolders (s : Service) : Type 0 where
  pub apply : (t u id : String) → active_of t s ≡ some id → active_of u s ≡ some id → t ≡ u

pub publish-Single : (e : Event) → Keeps HasSingleHolders (publish e)
unfolding publish
publish-Single e = record { apply = λ s p. record { apply = p.apply } }

publish_when-Single : (b : Bool) (e : Event) → Keeps HasSingleHolders (publish_when b e)
unfolding publish_when
publish_when-Single true e = record { apply = λ s p. record { apply = p.apply } }
publish_when-Single false e = record { apply = λ s p. p }

assign_view-Single : (id : String) (r : ThreadRecord) → Keeps HasSingleHolders (assign_view id r)
unfolding assign_view
assign_view-Single id r = record { apply = λ s p. ground (arith, p.apply) }

update_row-Single : (w : World) (r : ThreadRecord) → Keeps HasSingleHolders (update_row w r)
unfolding update_row
update_row-Single w r = record { apply = λ s p. ground (arith, p.apply) }

insert_observed-Single :
    (w : World) (r : ThreadRecord) (key : IdentityKey)
    → Keeps HasSingleHolders (insert_observed w r key)
unfolding insert_observed
insert_observed-Single w r key = record { apply = λ s p. ground (arith, p.apply) }

pub forget_prior-Single : (id : String) → Keeps HasSingleHolders (forget_prior id)
unfolding forget_prior modify
forget_prior-Single id = record { apply = λ s p. record { apply = p.apply } }

install-Single :
    (r : ThreadRecord) (key : IdentityKey) → Keeps HasSingleHolders (modify (install r key))
unfolding install modify
install-Single r key = record { apply = λ s p. record { apply = p.apply } }

pub hold-Single : (id : String) → Keeps HasSingleHolders (hold id)
unfolding hold modify
hold-Single id = record { apply = λ s p. record { apply = p.apply } }

pub drop_hold-Single : (id : String) → Keeps HasSingleHolders (drop_hold id)
unfolding drop_hold modify
drop_hold-Single id = record { apply = λ s p. record { apply = p.apply } }

delete_row-Single : (w : World) (id : String) → Keeps HasSingleHolders (delete_row w id)
unfolding delete_row
delete_row-Single w id = record { apply = λ s p. ground (arith, p.apply) }

drop_thread-Single : (id : String) → Keeps HasSingleHolders (modify (drop_thread id))
unfolding drop_thread forget_identity modify
drop_thread-Single id = record { apply = λ s p. ground (arith, p.apply) }

pub keep_prior-Single : (r : ThreadRecord) → Keeps HasSingleHolders (modify (keep_prior r))
unfolding keep_prior modify
keep_prior-Single r = record { apply = λ s p. record { apply = p.apply } }

ruleset single_steps = (
  steps, publish-Single, publish_when-Single, assign_view-Single, update_row-Single,
  insert_observed-Single, forget_prior-Single, install-Single, hold-Single, drop_hold-Single,
  delete_row-Single, drop_thread-Single, keep_prior-Single,
)

pub save-Single :
    (w : World) (id : String) (r : ThreadRecord) → Keeps HasSingleHolders (save w id r)
unfolding save
save-Single w id r = search single_steps

coerce_inactive-Single : (w : World) (id : String) → Keeps HasSingleHolders (coerce_inactive w id)
unfolding coerce_inactive
coerce_inactive-Single w id = search (single_steps, save-Single)

-- A terminal that takes a thread shows it; every other terminal that showed that thread shows none, and
-- whatever else a terminal shows, or shows none, stays. Nothing but this projection changes.
pub active_of-take_terminal :
    (thread terminal : String) (s : Service)
    → let u = take_terminal thread terminal s in
      (active_of terminal u ≡ some thread)
      × ((t : String) → t ≢ terminal → active_of t s ≡ some thread → active_of t u ≡ none)
      × ((t : String) → t ≢ terminal → active_of t s ≢ some thread → active_of t u ≡ active_of t s)
      × (record u { active = s.active } ≡ s)
unfolding take_terminal
active_of-take_terminal thread terminal s = (
  ground (arith, law terminal),
  λ t n h.
      let gone =
        lookup-erase_where-none String-discrete other s.active t thread h (ground (arith, n)) in
      ground (arith, n, law t, gone),
  λ t n h.
      let kept =
        lookup-erase_where_other String-discrete other s.active t (λ v e. ground (arith, h, e)) in
      ground (arith, n, law t, kept),
  refl,
)
  where
    other : String → String → Bool
    other = is_other_holder thread terminal

    released : List (String × String)
    released = erase_where String-discrete other (keys String-discrete s.active) s.active

    law :
        (t : String)
        → lookup String-discrete t (insert String-discrete terminal thread released)
          ≡ ite (String-discrete terminal t) (some thread) (lookup String-discrete t released)
    law t = lookup-insert String-discrete terminal t thread released

dec_shown : (o : Option String) (id : String) → Dec (o ≡ some id)
dec_shown none id = no (λ e. cc e)
dec_shown (some x) id = elim (String-discrete x id) [
  | yes e ↦ yes (ap some e)
  | no n ↦ no (λ e. n (cc e))
]

shown_after :
    (thread terminal t id : String) (s : Service)
    → active_of t (take_terminal thread terminal s) ≡ some id
    → ((t ≡ terminal) × (id ≡ thread))
      ⊎ ((t ≢ terminal) × (id ≢ thread) × (active_of t s ≡ some id))
shown_after thread terminal t id s h =
    let (shows, gone, kept, frame) = active_of-take_terminal thread terminal s in
    elim (String-discrete t terminal) [
      | yes e ↦ inl (e, cc (e, h, shows))
      | no n ↦ elim (dec_shown (active_of t s) thread) [
        | yes e ↦ let g = gone t n e in cc (g, h)
        | no m ↦ let k = kept t n m in inr (n, λ e. m (cc (k, h, e)), cc (k, h))
      ]
    ]

take_terminal-Single :
    (thread terminal : String) → Keeps HasSingleHolders (modify (take_terminal thread terminal))
unfolding modify
take_terminal-Single thread terminal = record {
  apply = λ s p. record {
    apply = λ t u id ht hu. ground (
      arith,
      shown_after thread terminal t id s ht,
      shown_after thread terminal u id s hu,
      p.apply t u id,
    );
  };
}

publish_terminals-Single : (ts : List String) → Keeps HasSingleHolders (publish_terminals ts)
unfolding publish_terminals
publish_terminals-Single [] = return-Keeps tt
publish_terminals-Single (t ∷ ts) = >>-Keeps (publish-Single _) (publish_terminals-Single ts)

commit-Single :
    (w : World) (r : ThreadRecord) (thread terminal : String) (changed : Bool)
    → Keeps HasSingleHolders (commit w r thread terminal changed)
unfolding commit move_active
commit-Single w r thread terminal changed =
    search (single_steps, take_terminal-Single, coerce_inactive-Single, publish_terminals-Single)
      depth 20

pub release_terminal-Single :
    (terminal : String) → Keeps HasSingleHolders (release_terminal terminal)
unfolding release_terminal modify
release_terminal-Single terminal = record {
  apply = λ s p. record {
    apply = λ t u id ht hu. ground (
      arith,
      lookup-erase String-discrete terminal t s.active,
      lookup-erase String-discrete terminal u s.active,
      p.apply t u id,
    );
  };
}

pub insert_thread-Single :
    (w : World) (ids : List String) (r : ThreadRecord) (key : IdentityKey)
    → Keeps HasSingleHolders (insert_thread w ids r key)
unfolding insert_thread
insert_thread-Single w [] r key = throw-Keeps _
insert_thread-Single w (id ∷ ids) r key = >>=-Keeps (insert_observed-Single w _ key) λ inserted.
    branch-Keeps inserted (>>-Keeps (install-Single _ key) (return-Keeps _))
      (insert_thread-Single w ids r key)

pub remove-Single : (w : World) (id : String) → Keeps HasSingleHolders (remove w id)
unfolding remove
remove-Single w id = search single_steps depth 12

assign_row-Single :
    (w : World) (id project : String) → Keeps HasSingleHolders (assign_row w id project)
unfolding assign_row
assign_row-Single w id project = record { apply = λ s p. ground (arith, p.apply) }

assign_in_view-Single :
    (w : World) (id project : String)
    → Keeps HasSingleHolders (modify (assign_in_view w id project))
unfolding assign_in_view modify
assign_in_view-Single w id project = record { apply = λ s p. ground (arith, p.apply) }

pub backfill_one-Single :
    (w : World) (ps : List ProjectRecord) (id : String) (r : ThreadRecord)
    → Keeps HasSingleHolders (backfill_one w ps id r)
unfolding backfill_one
backfill_one-Single w ps id r =
    search (single_steps, assign_row-Single, assign_in_view-Single) depth 12

settle_prior-Single : (id : String) (r : ThreadRecord) → Keeps HasSingleHolders (settle_prior id r)
unfolding settle_prior
settle_prior-Single id r = search single_steps

pub create_observed-Single :
    (w : World) (o : SessionObservation) (at : ℕ) → Keeps HasSingleHolders (create_observed w o at)
unfolding create_observed
create_observed-Single w o at =
    search
      (
        single_steps, settle_prior-Single, local_directory-Keeps, classify-Keeps,
        insert_thread-Single, commit-Single,
      )
      depth 20

pub observe_known-Single :
    (w : World) (o : SessionObservation) (at : ℕ) (id : String) (r : ThreadRecord)
    → Keeps HasSingleHolders (observe_known w o at id r)
unfolding observe_known record_observed
observe_known-Single w o at id r =
    search (single_steps, settle_prior-Single, commit-Single) depth 20
