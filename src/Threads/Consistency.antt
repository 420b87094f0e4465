-- ===== src/Threads/Consistency.antt =====
-- internal/threads/service.go: what holds of the service's state after any history of its methods.
use atelier_code.Shared.{ℕ, String, Bool, false, ◌≡◌, List, subst}
use atelier_code.Threads.Record.{ThreadRecord}
use atelier_code.Threads.SameId.{same_ids}
use atelier_code.Threads.Keeps.{Keeps, steps, return-Keeps, branch-Keeps, both-Keeps}
use atelier_code.Threads.State.{
  IdentityKey, Service, World, thread_created, ◌>>=◌, ◌>>◌, return, modify, publish,
}
use atelier_code.Threads.Observe.{SessionObservation, settle_prior, commit}
use atelier_code.Threads.Sessions.{insert_thread, create_observed, record_observed, observe_known}
use atelier_code.Threads.Methods.{KeptBySteps, classify-Keeps, local_directory-Keeps}
use atelier_code.Threads.Blind.{
  publish-Keeps, forget_prior-Keeps, hold-Keeps, drop_hold-Keeps, keep_prior-Keeps,
}
use atelier_code.Threads.Backed.{IsStored, save-IsStored, IsStored-IsWritten, after_step}
use atelier_code.Threads.Backed.Steps.{
  IsStored-blind, remove-IsStored, release_terminal-IsStored, backfill_one-IsStored,
  commit_then-IsStored, record_observed-IsStored,
}
use atelier_code.Threads.Backed.Minting.{insert_thread-IsMinted}
use atelier_code.Threads.Active.{
  HasSingleHolders, publish-Single, save-Single, forget_prior-Single, keep_prior-Single,
  hold-Single, drop_hold-Single, release_terminal-Single, insert_thread-Single, remove-Single,
  backfill_one-Single, create_observed-Single, observe_known-Single,
}
use atelier_code.Threads.Calls.{Call, run, run-Keeps}

insert_thread-IsStored :
    (w : World) (ids : List String) (r : ThreadRecord) (key : IdentityKey)
    → Keeps IsStored (insert_thread w ids r key)
insert_thread-IsStored w ids r key = record {
  apply = λ s p. (insert_thread-IsMinted w ids r key s p).stored;
}

-- A new thread that its terminal takes.
taken-IsStored :
    (w : World) (ids : List String) (r : ThreadRecord) (key : IdentityKey) (terminal : String)
    → Keeps IsStored (do
      minted ← insert_thread w ids r key
      publish (thread_created minted.id)
      commit w minted minted.id terminal false
      return minted.id)
unfolding publish ◌>>◌ ◌>>=◌ modify
taken-IsStored w ids r key terminal = record {
  apply = λ s p.
      let new = insert_thread-IsMinted w ids r key s p in
      after_step IsStored (insert_thread w ids r key)
        (λ m. do publish (thread_created m.id); commit w m m.id terminal false; return m.id) s
        new.stored
        λ m e. commit_then-IsStored w m terminal false _ (
          IsStored-IsWritten m _
            ((publish-Keeps IsStored-blind (thread_created m.id)).apply _ new.stored)
            (new.shown m e));
}

settle_prior-IsStored : (id : String) (r : ThreadRecord) → Keeps IsStored (settle_prior id r)
unfolding settle_prior
settle_prior-IsStored id r = branch-Keeps _ (return-Keeps tt) (forget_prior-Keeps IsStored-blind id)

create_observed-IsStored :
    (w : World) (o : SessionObservation) (at : ℕ) → Keeps IsStored (create_observed w o at)
unfolding create_observed
create_observed-IsStored w o at =
    search (steps, settle_prior-IsStored, local_directory-Keeps, classify-Keeps, taken-IsStored)
      depth 20

recorded-IsStored :
    (w : World) (r : ThreadRecord) (thread terminal : String) (changed : Bool)
    → r.id ≡ thread
    → Keeps IsStored (record_observed w r thread terminal changed)
recorded-IsStored w r thread terminal changed same =
    subst (λ id. Keeps IsStored (record_observed w r id terminal changed)) same
      (record_observed-IsStored w r terminal changed)

observe_known-IsStored :
    (w : World) (o : SessionObservation) (at : ℕ) (id : String) (r : ThreadRecord)
    → r.id ≡ id
    → Keeps IsStored (observe_known w o at id r)
unfolding observe_known
observe_known-IsStored w o at id r same =
    search (steps, settle_prior-IsStored, recorded-IsStored, same_ids) depth 20

-- The two invariants together.
abbrev IsConsistent : Service → Type 0
IsConsistent s = IsStored s × HasSingleHolders s

kept : KeptBySteps IsConsistent
kept = record {
  publishes = λ e. both-Keeps (publish-Keeps IsStored-blind e) (publish-Single e);
  keyed = λ s p. record { apply = p.0.keyed };
  saves = λ w id r same. both-Keeps (save-IsStored w id r same) (save-Single w id r);
  forgets = λ id. both-Keeps (forget_prior-Keeps IsStored-blind id) (forget_prior-Single id);
  keeps = λ r. both-Keeps (keep_prior-Keeps IsStored-blind r) (keep_prior-Single r);
  holds = λ id. both-Keeps (hold-Keeps IsStored-blind id) (hold-Single id);
  drops = λ id. both-Keeps (drop_hold-Keeps IsStored-blind id) (drop_hold-Single id);
  releases = λ t. both-Keeps (release_terminal-IsStored t) (release_terminal-Single t);
  inserts = λ w ids r key.
      both-Keeps (insert_thread-IsStored w ids r key) (insert_thread-Single w ids r key);
  removes = λ w id. both-Keeps (remove-IsStored w id) (remove-Single w id);
  assigns =
      λ w ps id r. both-Keeps (backfill_one-IsStored w ps id r) (backfill_one-Single w ps id r);
  creates = λ w o at. both-Keeps (create_observed-IsStored w o at) (create_observed-Single w o at);
  observes = λ w o at id r same.
      both-Keeps (observe_known-IsStored w o at id r same) (observe_known-Single w o at id r);
}

run_both :
    (cs : List (World × Call)) (s : Service)
    → IsStored s
    → HasSingleHolders s
    → IsConsistent (run cs s)
run_both cs s stored single = run-Keeps kept cs s (stored, single)

-- From a state in which the view agrees with the rows and no thread is open in two terminals, after
-- any history of the calls in Threads/Calls, those that the database refuses included, the view and
-- the rows hold the same threads, each under its own id, and agree on every column that updates write.
pub run-IsStored :
    (cs : List (World × Call)) (s : Service) → IsStored s → HasSingleHolders s → IsStored (run cs s)
run-IsStored cs s stored single = (run_both cs s stored single).0

-- From such a state, after any history of the calls in Threads/Calls no thread is open in two
-- terminals.
pub run-HasSingleHolders :
    (cs : List (World × Call)) (s : Service)
    → IsStored s
    → HasSingleHolders s
    → HasSingleHolders (run cs s)
run-HasSingleHolders cs s stored single = (run_both cs s stored single).1
