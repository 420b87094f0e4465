-- ===== src/Threads/Methods.antt =====
-- internal/threads/service.go: from the steps of the methods to the methods, for any invariant.
use atelier_code.Shared.{
  ℕ, String, ◌≡◌, Bool, true, false, Option, none, some, List, [], ◌∷◌, String-discrete,
}
use atelier_code.Finite.{select, keys as keys_of}
use atelier_code.Threads.Metadata.{most_specific}
use atelier_code.Threads.Record.{ThreadRecord}
use atelier_code.Threads.Keeps.{
  Keeps, IsKeyed, entry-Keeps, steps, >>=-Keeps, >>-Keeps, return-Keeps, throw-Keeps, branch-Keeps,
  on_option-Keeps,
}
use atelier_code.Threads.State.{
  IdentityKey, ◌>>=◌, read, on_option, view_of, Service, World, Method, Event, Result,
  ProjectRecord, TerminalStatus, publish, publish_when, ok, err, thread_updated,
}
use atelier_code.Threads.Observe.{
  SessionObservation, StatusObservation, ExternalObservation, save, coerce_inactive, forget_prior,
  settle_prior,
}
use atelier_code.Threads.Sessions.{
  create_observed, observe_known, observe_session, insert_thread, classify, local_directory,
}
use atelier_code.Threads.Leaving.{
  refresh, observe_status, release_terminal, leave, deactivate, detach_one, detach_all,
  terminal_removed, sweep_one, sweep_all, sweep,
}
use atelier_code.Threads.External.{
  hold, drop_hold, mint_external, mirror, observe_external, release_all, release_integration,
  archive_external,
}
use atelier_code.Threads.Requests.{
  ThreadUpdate, ProjectPatch, persist, check_project, patch_project, patch, update, remove, delete,
  discard_external, submit_turn, adopt, observe_turn_response, keep_prior,
}
use atelier_code.Threads.State.{modify}
use atelier_code.Threads.SameId.{same_ids}
use atelier_code.Threads.Projects.{backfill_one, backfill_all, backfill, is_assignable}
use atelier_code.Threads.Opening.{link, decide_open}

-- The steps that differ between invariants.
pub record KeptBySteps (P : Service → Type 0) : Type 0 where
  pub publishes : (e : Event) → Keeps P (publish e)
  pub keyed : (s : Service) → P s → IsKeyed s
  pub saves : (w : World) (id : String) (r : ThreadRecord) → r.id ≡ id → Keeps P (save w id r)
  pub forgets : (id : String) → Keeps P (forget_prior id)
  pub keeps : (r : ThreadRecord) → Keeps P (modify (keep_prior r))
  pub holds : (id : String) → Keeps P (hold id)
  pub drops : (id : String) → Keeps P (drop_hold id)
  pub releases : (terminal : String) → Keeps P (release_terminal terminal)
  pub inserts :
      (w : World) (ids : List String) (r : ThreadRecord) (key : IdentityKey)
      → Keeps P (insert_thread w ids r key)
  pub removes : (w : World) (id : String) → Keeps P (remove w id)
  pub assigns :
      (w : World) (ps : List ProjectRecord) (id : String) (r : ThreadRecord)
      → Keeps P (backfill_one w ps id r)
  pub creates : (w : World) (o : SessionObservation) (at : ℕ) → Keeps P (create_observed w o at)
  pub observes :
      (w : World) (o : SessionObservation) (at : ℕ) (id : String) (r : ThreadRecord)
      → r.id ≡ id
      → Keeps P (observe_known w o at id r)

module _ {P : Service → Type 0} where
  pub coerce-Keeps :
      ((s : Service) → P s → IsKeyed s)
      → ((w : World) (id : String) (r : ThreadRecord) → r.id ≡ id → Keeps P (save w id r))
      → (w : World) (id : String) → Keeps P (coerce_inactive w id)
  unfolding coerce_inactive
  coerce-Keeps keyed saves w id =
      entry-Keeps id keyed (return-Keeps false) λ r same. search (steps, saves, same_ids) depth 8

  pub local_directory-Keeps : (w : World) (dir : String) → Keeps P (local_directory w dir)
  unfolding local_directory
  local_directory-Keeps w dir = search steps

  pub classify-Keeps : (w : World) (dir : String) → Keeps P (classify w dir)
  unfolding classify
  classify-Keeps w dir = record { apply = λ s p. go s p w.projects }
    where
      go :
          (s : Service)
          → P s
          → (r : Result (List ProjectRecord))
          → P
              (elim r as (λ _. Service × Result String) [
                | ok ps ↦ (s, ok (most_specific ps dir))
                | err e ↦ (s, err e)
              ]).0
      go s p (ok ps) = p
      go s p (err e) = p

module _ {P : Service → Type 0} (k : KeptBySteps P) where
  open k use {
    publishes, saves, forgets, keeps, holds, drops, releases, inserts, removes, assigns, creates,
    observes,
  }

  from_entry :
      {B : Type 0} (id : String) {m : Method B} {f : ThreadRecord → Method B}
      → Keeps P m
      → ((r : ThreadRecord) → r.id ≡ id → Keeps P (f r))
      → Keeps P (read (view_of id) >>= λ e. on_option e m f)
  from_entry id h kept = entry-Keeps id k.keyed h kept

  pub publish_when-Keeps : (b : Bool) (e : Event) → Keeps P (publish_when b e)
  unfolding publish_when
  publish_when-Keeps b e = branch-Keeps b (publishes e) (return-Keeps tt)

  coerce_inactive-Keeps : (w : World) (id : String) → Keeps P (coerce_inactive w id)
  coerce_inactive-Keeps = coerce-Keeps k.keyed saves

  pub settle_prior-Keeps : (id : String) (r : ThreadRecord) → Keeps P (settle_prior id r)
  unfolding settle_prior
  settle_prior-Keeps id r = search (steps, forgets)

  pub observe_session-Keeps : (w : World) (o : SessionObservation) → Keeps P (observe_session w o)
  unfolding observe_session
  observe_session-Keeps w o = search (from_entry, steps, creates, observes) depth 14

  pub observe_status-Keeps : (w : World) (o : StatusObservation) → Keeps P (observe_status w o)
  unfolding observe_status refresh
  observe_status-Keeps w o =
      search (from_entry, steps, settle_prior-Keeps, saves, same_ids, publish_when-Keeps) depth 14

  pub deactivate-Keeps : (w : World) (terminal : String) → Keeps P (deactivate w terminal)
  unfolding deactivate leave
  deactivate-Keeps w terminal =
      search (from_entry, steps, saves, same_ids, releases, publish_when-Keeps, publishes) depth 14

  detach_one-Keeps :
      (w : World) (active : Option String) (id : String) → Keeps P (detach_one w active id)
  unfolding detach_one
  detach_one-Keeps w active id = search (from_entry, steps, saves, same_ids, publishes) depth 14

  detach_all-Keeps :
      (w : World) (active : Option String) (ids : List String) → Keeps P (detach_all w active ids)
  unfolding detach_all
  detach_all-Keeps w active [] = return-Keeps true
  detach_all-Keeps w active (id ∷ ids) =
      >>=-Keeps (detach_one-Keeps w active id)
        λ c. >>=-Keeps (detach_all-Keeps w active ids) (λ r. return-Keeps _)

  pub terminal_removed-Keeps :
      (w : World) (terminal : String) → Keeps P (terminal_removed w terminal)
  unfolding terminal_removed
  terminal_removed-Keeps w terminal = search (steps, detach_all-Keeps, releases) depth 14

  sweep_one-Keeps : (w : World) (terminal : String) → Keeps P (sweep_one w terminal)
  unfolding sweep_one
  sweep_one-Keeps w terminal = record { apply = λ s p. go s p (w.terminal terminal) }
    where
      go :
          (s : Service)
          → P s
          → (t : Option TerminalStatus)
          → P
              (elim t as (λ _. Service × Result (Unit {0})) [
                | none ↦ terminal_removed w terminal s
                | some TerminalStatus.exited ↦ deactivate w terminal s
                | some TerminalStatus.missing ↦ deactivate w terminal s
                | some _ ↦ (s, ok tt)
              ]).0
      go s p none = (terminal_removed-Keeps w terminal).apply s p
      go s p (some TerminalStatus.exited) = (deactivate-Keeps w terminal).apply s p
      go s p (some TerminalStatus.missing) = (deactivate-Keeps w terminal).apply s p
      go s p (some _) = p

  sweep_all-Keeps : (w : World) (ts : List String) → Keeps P (sweep_all w ts)
  unfolding sweep_all
  sweep_all-Keeps w [] = return-Keeps tt
  sweep_all-Keeps w (t ∷ ts) = >>-Keeps (sweep_one-Keeps w t) (sweep_all-Keeps w ts)

  pub sweep-Keeps : (w : World) → Keeps P (sweep w)
  unfolding sweep
  sweep-Keeps w = search (steps, sweep_all-Keeps)

  mint_external-Keeps :
      (w : World) (o : ExternalObservation) (at : ℕ) → Keeps P (mint_external w o at)
  unfolding mint_external
  mint_external-Keeps w o at =
      search
        (
          steps, local_directory-Keeps, classify-Keeps, settle_prior-Keeps, inserts, holds,
          publishes,
        )
        depth 20

  mirror-Keeps :
      (w : World) (o : ExternalObservation) (at : ℕ) (id : String) (r : ThreadRecord)
      → r.id ≡ id
      → Keeps P (mirror w o at id r)
  unfolding mirror
  mirror-Keeps w o at id r same =
      search (steps, settle_prior-Keeps, saves, same_ids, holds, publish_when-Keeps) depth 20

  pub observe_external-Keeps :
      (w : World) (o : ExternalObservation) → Keeps P (observe_external w o)
  unfolding observe_external
  observe_external-Keeps w o =
      search (from_entry, steps, mint_external-Keeps, mirror-Keeps) depth 12

  release_all-Keeps : (w : World) (ids : List String) → Keeps P (release_all w ids)
  unfolding release_all
  release_all-Keeps w [] = return-Keeps tt
  release_all-Keeps w (id ∷ ids) = >>=-Keeps (coerce_inactive-Keeps w id) λ c.
      >>-Keeps (drops id)
        (>>-Keeps (publish_when-Keeps c (thread_updated id)) (release_all-Keeps w ids))

  pub release_integration-Keeps :
      (w : World) (integration : String) → Keeps P (release_integration w integration)
  unfolding release_integration
  release_integration-Keeps w integration = search (steps, release_all-Keeps)

  pub archive_external-Keeps : (w : World) (key : IdentityKey) → Keeps P (archive_external w key)
  unfolding archive_external
  archive_external-Keeps w key =
      search (from_entry, steps, saves, same_ids, drops, publish_when-Keeps) depth 16

  persist-Keeps : (w : World) (r : ThreadRecord) → Keeps P (persist w r)
  unfolding persist
  persist-Keeps w r = search (steps, saves)

  check_project-Keeps :
      (ps : Result (List ProjectRecord)) (p : String) → Keeps P (check_project ps p)
  unfolding check_project
  check_project-Keeps (err e) p = throw-Keeps e
  check_project-Keeps (ok ps) p = search steps

  patch_project-Keeps :
      (w : World) (u : ProjectPatch) (r : ThreadRecord) → Keeps P (patch_project w u r)
  unfolding patch_project
  patch_project-Keeps w ProjectPatch.keep r = return-Keeps _
  patch_project-Keeps w ProjectPatch.clear r = return-Keeps _
  patch_project-Keeps w (ProjectPatch.assign p) r = check_project-Keeps w.projects p

  pub update-Keeps : (w : World) (id : String) (u : ThreadUpdate) → Keeps P (update w id u)
  unfolding update patch
  update-Keeps w id u =
      search (from_entry, steps, patch_project-Keeps, saves, same_ids, publish_when-Keeps) depth 30

  pub delete-Keeps : (w : World) (id : String) → Keeps P (delete w id)
  unfolding delete
  delete-Keeps w id = search (steps, removes) depth 12

  pub discard_external-Keeps : (w : World) (key : IdentityKey) → Keeps P (discard_external w key)
  unfolding discard_external
  discard_external-Keeps w key = search (steps, removes) depth 12

  pub submit_turn-Keeps : (w : World) (id : String) → Keeps P (submit_turn w id)
  unfolding submit_turn
  submit_turn-Keeps w id = search (steps, keeps, persist-Keeps, publishes) depth 14

  pub observe_turn_response-Keeps :
      (w : World) (id turn response : String) → Keeps P (observe_turn_response w id turn response)
  unfolding observe_turn_response adopt
  observe_turn_response-Keeps w id turn response =
      search (steps, saves, publish_when-Keeps) depth 14

  backfill_all-Keeps :
      (w : World) (ps : List ProjectRecord) (before : Service) (ids : List String)
      → Keeps P (backfill_all w ps before ids)
  unfolding backfill_all
  backfill_all-Keeps w ps before [] = return-Keeps tt
  backfill_all-Keeps w ps before (id ∷ ids) =
      >>-Keeps (on_option-Keeps _ (return-Keeps tt) (assigns w ps id))
        (backfill_all-Keeps w ps before ids)

  pub backfill-Keeps : (w : World) → Keeps P (backfill w)
  unfolding backfill
  backfill-Keeps w = record { apply = λ s p. go s p w.projects }
    where
      go :
          (s : Service)
          → P s
          → (r : Result (List ProjectRecord))
          → P
              (elim r as (λ _. Service × Result (Unit {0})) [
                | err e ↦ (s, err e)
                | ok ps ↦
                    backfill_all w ps s
                      (w.sort (
                        select String-discrete
                          (is_assignable ps)
                          (keys_of String-discrete s.view)
                          s.view))
                      s
              ]).0
      go s p (ok ps) = (backfill_all-Keeps w ps s _).apply s p
      go s p (err e) = p

  pub link-Keeps : (w : World) (id t : String) → Keeps P (link w id t)
  unfolding link
  link-Keeps w id t = search (from_entry, steps, saves, same_ids, publishes) depth 14

  pub decide_open-Keeps : (w : World) (id : String) → Keeps P (decide_open w id)
  unfolding decide_open
  decide_open-Keeps w id = search (steps, link-Keeps) depth 14
