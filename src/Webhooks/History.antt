-- ===== src/Webhooks/History.antt =====
-- internal/webhooks/webhooks.go: what any run of deliveries, work and pruning keeps.
use atelier_code.Shared.{String, Bool, ◌&&◌, refl, Option, none, some, List, [], ◌∷◌, if-cases}
use atelier_code.Webhooks.Inbox.{Row}
use atelier_code.Webhooks.Inbox.Valid.{
  IsValid, snoc-IsValid, complete-IsValid, fail-IsValid, prune-IsValid,
}
use atelier_code.Webhooks.Attempts.{
  process_due, process, process_all, settle, attempt, prune_receipts,
}
use atelier_code.Webhooks.Service.{
  World, Service, Incoming, Response, serve_delivery, row_of, record_failure, set_storage_failing,
}
use atelier_code.Webhooks.Acceptance.{
  IsAnswered, turned_away, known, kept, serve_delivery-IsAnswered,
}

abbrev IsSound : Service → Type 0
IsSound s = IsValid s.capacity s.inbox

answered-IsSound :
    (w : World) (i : Incoming) (s : Service) (x : Service × Response)
    → IsAnswered w i s x
    → IsSound s
    → IsSound x.0
unfolding row_of set_storage_failing
answered-IsSound w i s x (turned_away e f _) v = rw (e, f) v
answered-IsSound w i s x (known route d _ _ e _) v = rw e v
answered-IsSound w i s x (kept route d _ fresh free room e _) v =
    rw e (snoc-IsValid (row_of w route d) s.capacity s.inbox refl fresh free room v)

settle-IsSound :
    (w : World) (r : Row) (o : Option String) (s : Service) → IsSound s → IsSound (settle w r o s)
unfolding settle record_failure set_storage_failing
settle-IsSound w r (some e) s v =
    if-cases IsSound w.refuses (λ e. v) (λ e. fail-IsValid s.capacity r.id _ _ s.inbox v)
settle-IsSound w r none s v =
    if-cases IsSound w.refuses (λ e. v) (λ e. complete-IsValid s.capacity r.id w.now s.inbox v)

process-IsSound : (w : World) (r : Row) (s : Service) → IsSound s → IsSound (process w r s)
unfolding process
process-IsSound w r s v =
    if-cases IsSound w.stopping (λ e. v) (λ e. settle-IsSound w r (attempt w s r) s v)

process_all-IsSound :
    (w : World) (rs : List Row) (s : Service) → IsSound s → IsSound (process_all w rs s)
unfolding process_all
process_all-IsSound w [] s v = v
process_all-IsSound w (r ∷ rs) s v =
    process_all-IsSound w rs (process w r s) (process-IsSound w r s v)

process_due-IsSound : (w : World) (s : Service) → IsSound s → IsSound (process_due w s).0
unfolding process_due set_storage_failing
process_due-IsSound w s v =
    if-cases (λ (x : Service × Bool). IsSound x.0) w.refuses
      (λ e. if-cases IsSound w.stopping (λ f. v) (λ f. v))
      (λ e.
        if-cases (λ (x : Service × Bool). IsSound x.0) (w.stopping && _) (λ f. v)
          (λ f. process_all-IsSound w _ _ v))

prune_receipts-IsSound : (w : World) (s : Service) → IsSound s → IsSound (prune_receipts w s)
unfolding prune_receipts
prune_receipts-IsSound w s v =
    if-cases IsSound w.refuses (λ e. v) (λ e. prune-IsValid w.below _ _ s.capacity s.inbox v)

-- One call on the service.
pub data Step : Service → Service → Type 0 where
  delivery : {s : Service} (w : World) (i : Incoming) → Step s (serve_delivery w i s).0
  work : {s : Service} (w : World) → Step s (process_due w s).0
  pruning : {s : Service} (w : World) → Step s (prune_receipts w s)

pub data Run : Service → Service → Type 0 where
  rest : {s : Service} → Run s s
  step : {s t u : Service} → Step s t → Run t u → Run s u

Step-IsSound : {s t : Service} → Step s t → IsSound s → IsSound t
Step-IsSound (delivery {s} w i) v = answered-IsSound w i s _ (serve_delivery-IsAnswered w i s) v
Step-IsSound (work {s} w) v = process_due-IsSound w s v
Step-IsSound (pruning {s} w) v = prune_receipts-IsSound w s v

-- Whatever deliveries, rounds of work and prunings follow each other, no two rows of the inbox share
-- a delivery identity or an id, at most `capacity` rows are pending, and a completed row has no
-- payload, if this held at first.
pub Run-IsValid :
    {s t : Service} → Run s t → IsValid s.capacity s.inbox → IsValid t.capacity t.inbox
Run-IsValid rest v = v
Run-IsValid (step a r) v = Run-IsValid r (Step-IsSound a v)
