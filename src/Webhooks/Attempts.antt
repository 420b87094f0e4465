-- ===== src/Webhooks/Attempts.antt =====
-- internal/webhooks/webhooks.go: the attempts to process the inbox, and the pruning of the receipts.
-- One attempt is one step; what a handler does about its deadline is part of what it returns.
use Prim.Native.String.{◌++◌ as join}
use atelier_code.Shared.{
  ℕ, zero, suc, ◌+◌, ◌-◌, ◌*◌, min, ℕ_discrete, String, Bool, true, false, not, ◌&&◌, Option, none,
  some, List, [], ◌∷◌, String-discrete, differ, ltb, if◌then◌else◌,
}
use atelier_code.Finite.{lookup}
use atelier_code.Webhooks.Inbox.{Row, complete, fail, prune, due}
use atelier_code.Webhooks.Service.{
  retry_base, retry_max, receipt_retention, receipt_keep, process_batch, Service, World,
  record_failure, set_storage_failing,
}

-- The loop of `backoff`: `n` more doublings at most.
unfoldable pub doubled : ℕ → ℕ → ℕ
doubled zero delay = delay
doubled (suc n) delay =
    let more = doubled n (delay * 2) in if ltb delay retry_max then more else delay

unfoldable pub backoff : ℕ → ℕ
backoff attempts = min (doubled (attempts - 1) retry_base) retry_max

-- The error of an attempt, if it has one.
unfoldable pub late_error : Option String × Bool → Option String
late_error (none, true) = some "context deadline exceeded"
late_error (error, late) = error

unfoldable pub attempt : World → Service → Row → Option String
attempt w s r = elim (lookup String-discrete r.route s.routes) [
  | none ↦ some (join "no handler registered for route " r.route)
  | some route ↦
      if differ String-discrete route.integration_id r.integration_id
      then some (
          join "route " (
            join r.route (
              join " now belongs to "
                (join route.integration_id (join ", not " r.integration_id)))))
      else late_error (
          route.process w.now (record {
            id = r.id;
            delivery_id = r.delivery_id;
            payload = r.payload;
            attempts = r.attempts;
          }))
]

-- What an attempt leaves in the inbox.
unfoldable pub settle : World → Row → Option String → Service → Service
settle w r (some error) s =
    let t = record_failure r.route error s in
    if w.refuses
    then set_storage_failing true t
    else record t { inbox = fail r.id (r.attempts + 1) (w.now + backoff (r.attempts + 1)) t.inbox }
settle w r none s =
    if w.refuses
    then set_storage_failing true s
    else record s { inbox = complete r.id w.now s.inbox }

-- `process`: a server that stops leaves the row for the next start.
unfoldable pub process : World → Row → Service → Service
process w r s = if w.stopping then s else settle w r (attempt w s r) s

unfoldable pub process_all : World → List Row → Service → Service
process_all w [] s = s
process_all w (r ∷ rs) s = process_all w rs (process w r s)

unfoldable pub row_count : List Row → ℕ
row_count [] = 0
row_count (r ∷ rs) = 1 + row_count rs

-- `processDue`: whether the batch was full. The worker does not look again while it stops.
unfoldable pub process_due : World → Service → Service × Bool
process_due w s =
    if w.refuses
    then (if w.stopping then s else set_storage_failing true s, false)
    else let rows = due w.below w.now process_batch s.inbox in
      if w.stopping && ltb 0 (row_count rows) then (set_storage_failing false s, false) else (
        process_all w rows (set_storage_failing false s),
        not (differ ℕ_discrete (row_count rows) process_batch),
      )

-- `prune`, on the service.
unfoldable pub prune_receipts : World → Service → Service
prune_receipts w s =
    if w.refuses
    then s
    else record s { inbox = prune w.below (w.now - receipt_retention) receipt_keep s.inbox }
