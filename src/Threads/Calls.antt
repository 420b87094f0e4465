-- ===== src/Threads/Calls.antt =====
-- internal/threads/service.go: the service's methods as calls, and histories of them. Each call stands
-- for one hold of the `ops` lock, so a history is any interleaving of the callers' methods; `Open` is
-- its decision and its landing.
use atelier_code.Shared.{String, List, [], ◌∷◌}
use atelier_code.Threads.Observe.{SessionObservation, StatusObservation, ExternalObservation}
use atelier_code.Threads.State.{IdentityKey, Service, World}
use atelier_code.Threads.Sessions.{observe_session}
use atelier_code.Threads.Leaving.{observe_status, deactivate, terminal_removed, sweep}
use atelier_code.Threads.External.{observe_external, release_integration, archive_external}
use atelier_code.Threads.Requests.{
  ThreadUpdate, update, delete, discard_external, submit_turn, observe_turn_response,
}
use atelier_code.Threads.Projects.{backfill}
use atelier_code.Threads.Opening.{link, decide_open}
use atelier_code.Threads.Methods.{
  KeptBySteps, observe_session-Keeps, observe_status-Keeps, deactivate-Keeps,
  terminal_removed-Keeps, sweep-Keeps, observe_external-Keeps, release_integration-Keeps,
  archive_external-Keeps, update-Keeps, delete-Keeps, discard_external-Keeps, submit_turn-Keeps,
  observe_turn_response-Keeps, backfill-Keeps, link-Keeps, decide_open-Keeps,
}

pub data Call : Type 0 where
  observes_session : SessionObservation → Call
  observes_status : StatusObservation → Call
  deactivates terminal_leaves : String → Call
  sweeps : Call
  observes_external : ExternalObservation → Call
  integration_leaves : String → Call
  archives discards : IdentityKey → Call
  updates : String → ThreadUpdate → Call
  deletes submits decides : String → Call
  responds : String → String → String → Call
  backfills : Call
  lands : String → String → Call

-- The state that a call leaves, whatever its result.
unfoldable pub perform : World → Call → Service → Service
perform w (observes_session o) s = (observe_session w o s).0
perform w (observes_status o) s = (observe_status w o s).0
perform w (deactivates t) s = (deactivate w t s).0
perform w (terminal_leaves t) s = (terminal_removed w t s).0
perform w sweeps s = (sweep w s).0
perform w (observes_external o) s = (observe_external w o s).0
perform w (integration_leaves i) s = (release_integration w i s).0
perform w (archives key) s = (archive_external w key s).0
perform w (discards key) s = (discard_external w key s).0
perform w (updates id u) s = (update w id u s).0
perform w (deletes id) s = (delete w id s).0
perform w (submits id) s = (submit_turn w id s).0
perform w (decides id) s = (decide_open w id s).0
perform w (responds id turn response) s = (observe_turn_response w id turn response s).0
perform w backfills s = (backfill w s).0
perform w (lands id t) s = (link w id t s).0

unfoldable pub run : List (World × Call) → Service → Service
run [] s = s
run ((w, c) ∷ cs) s = run cs (perform w c s)

module _ {P : Service → Type 0} (k : KeptBySteps P) where
  pub perform-Keeps : (w : World) (c : Call) (s : Service) → P s → P (perform w c s)
  unfolding perform
  perform-Keeps w (observes_session o) = (observe_session-Keeps k w o).apply
  perform-Keeps w (observes_status o) = (observe_status-Keeps k w o).apply
  perform-Keeps w (deactivates t) = (deactivate-Keeps k w t).apply
  perform-Keeps w (terminal_leaves t) = (terminal_removed-Keeps k w t).apply
  perform-Keeps w sweeps = (sweep-Keeps k w).apply
  perform-Keeps w (observes_external o) = (observe_external-Keeps k w o).apply
  perform-Keeps w (integration_leaves i) = (release_integration-Keeps k w i).apply
  perform-Keeps w (archives key) = (archive_external-Keeps k w key).apply
  perform-Keeps w (discards key) = (discard_external-Keeps k w key).apply
  perform-Keeps w (updates id u) = (update-Keeps k w id u).apply
  perform-Keeps w (deletes id) = (delete-Keeps k w id).apply
  perform-Keeps w (submits id) = (submit_turn-Keeps k w id).apply
  perform-Keeps w (decides id) = (decide_open-Keeps k w id).apply
  perform-Keeps w (responds id turn response) =
      (observe_turn_response-Keeps k w id turn response).apply
  perform-Keeps w backfills = (backfill-Keeps k w).apply
  perform-Keeps w (lands id t) = (link-Keeps k w id t).apply

  pub run-Keeps : (cs : List (World × Call)) (s : Service) → P s → P (run cs s)
  unfolding run
  run-Keeps [] s p = p
  run-Keeps ((w, c) ∷ cs) s p = run-Keeps cs (perform w c s) (perform-Keeps w c s p)
