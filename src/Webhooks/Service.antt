-- ===== src/Webhooks/Service.antt =====
-- internal/webhooks/webhooks.go: the service, the acceptance path and the status. One call of the
-- channel handler is one step. The handlers of the Integrations are functions that a route carries;
-- their deadlines and their failures are part of what they return.
use Prim.Native.String.{len, slice, ◌++◌ as join}
use atelier_code.Shared.{
  ℕ, ◌+◌, ◌-◌, ◌*◌, String, Bool, true, false, ◌||◌, Option, none, some, List, map, String-discrete,
  is_empty, ltb, leb, if◌then◌else◌,
}
use atelier_code.Finite.{lookup}
use atelier_code.Webhooks.Inbox.{
  Row, Inbox, Acceptance, accepted, duplicate, inbox_full, id_taken, accept, count_pending,
}

-- Nanoseconds.
abbrev pub second : ℕ
second = 1_000_000_000

abbrev pub retry_base : ℕ
retry_base = 5 * second

abbrev pub retry_max : ℕ
retry_max = 3600 * second

abbrev pub receipt_retention : ℕ
receipt_retention = 2_592_000 * second

abbrev pub receipt_keep : ℕ
receipt_keep = 10_000

abbrev pub process_batch : ℕ
process_batch = 16

abbrev pub default_capacity : ℕ
default_capacity = 1000

abbrev pub prune_interval : ℕ
prune_interval = 3600 * second

abbrev pub summary_limit : ℕ
summary_limit = 200

-- Of the package `receiver`.
abbrev pub max_body_bytes : ℕ
max_body_bytes = 1_048_576

abbrev pub concurrency : ℕ
concurrency = 32

pub record Request : Type 0 where
  pub method : String
  pub path : String
  pub raw_query : String
  pub header : List (String × List String)
  pub body : String

pub record Delivery : Type 0 where
  pub id : String
  pub payload : String

-- What Verify returns; the error of a deadline that had passed is `broken` too.
pub data Verdict : Type 0 where
  verified : Delivery → Verdict
  rejected : ℕ → String → Verdict
  broken : Verdict

pub record Accepted : Type 0 where
  pub id : String
  pub delivery_id : String
  pub payload : Option String
  pub attempts : ℕ

-- A handler is called at a time. Whether the deadline had passed is the second component; `process`
-- returns its error's text.
pub record Route : Type 0 where
  pub integration_id : String
  pub path : String
  pub verify : ℕ → Request → Verdict × Bool
  pub process : ℕ → Accepted → Option String × Bool

pub data WebhookState : Type 0 where
  disabled starting ready unavailable : WebhookState

pub record ExposureState : Type 0 where
  pub state : WebhookState
  pub url : String
  pub action : String
  pub reason : String

pub record Service : Type 0 where
  pub inbox : Inbox
  pub routes : List (String × Route)
  pub ordered : List Route
  pub capacity : ℕ
  pub kicked : Bool
  pub rejected : ℕ
  pub last_rejection : String
  pub failures : ℕ
  pub last_failure : String
  pub storage_failing : Bool
  pub exposure : ExposureState

-- What a call finds outside: the time, a fresh id, the deliveries in flight, whether the database
-- refuses, whether the server is stopping, the order of texts, and the decimal text of a number.
pub record World : Type 0 where
  pub now : ℕ
  pub fresh : String
  pub in_flight : ℕ
  pub refuses : Bool
  pub stopping : Bool
  pub below : String → String → Bool
  pub show : ℕ → String

-- A request's body as it arrives: what was read, and whether the reading then failed.
pub record Incoming : Type 0 where
  pub request : Request
  pub is_cut_off : Bool

-- A problem's code, empty on acceptance.
pub record Response : Type 0 where
  pub status : ℕ
  pub code : String
  pub retry_after : Option ℕ
  pub id : Option String
  pub is_duplicate : Bool

abbrev pub problem : ℕ → String → Response
problem status code = record {
  status = status;
  code = code;
  retry_after = none;
  id = none;
  is_duplicate = false;
}

abbrev pub retry_later : ℕ → String → Response
retry_later after code = record (problem 503 code) { retry_after = some after }

-- `truncate`. Go cuts at a byte; `slice` leaves out a character that the cut would split.
unfoldable pub truncate : String → String
truncate text =
    if ltb summary_limit (len text) then join (slice text 0 (summary_limit - 1)) "…" else text

unfoldable pub record_rejection : World → Route → ℕ → String → Service → Service
record_rejection w route status reason s = record s {
  rejected = s.rejected + 1;
  last_rejection = truncate (join route.path (join ": " (join (w.show status) (join " " reason))));
}

unfoldable pub record_failure : String → String → Service → Service
record_failure route error s = record s {
  failures = s.failures + 1;
  last_failure = truncate (join route (join ": " error));
}

unfoldable pub set_storage_failing : Bool → Service → Service
set_storage_failing b s = record s { storage_failing = b }

unfoldable pub row_of : World → Route → Delivery → Row
row_of w route d = record {
  id = w.fresh;
  integration_id = route.integration_id;
  route = route.path;
  delivery_id = d.id;
  payload = some d.payload;
  attempts = 0;
  next_attempt_at = w.now;
  accepted_at = w.now;
  completed_at = none;
}

-- The answer to an acceptance, after the write.
unfoldable pub answer : World → Row → Inbox × Acceptance → Service → Service × Response
answer w r (inbox, accepted) s = (
  record (set_storage_failing false s) { inbox = inbox; kicked = true },
  record (problem 202 "") { id = some r.id },
)
answer w r (inbox, duplicate) s =
    (set_storage_failing false s, record (problem 202 "") { is_duplicate = true })
answer w r (inbox, inbox_full) s = (s, retry_later 60 "webhook_inbox_full")
answer w r (inbox, id_taken) s =
    (set_storage_failing true s, retry_later 60 "webhook_storage_failed")

-- The durable acceptance of a verified delivery.
unfoldable pub store_delivery : World → Route → Delivery → Service → Service × Response
store_delivery w route d s =
    let r = row_of w route d in
    if w.refuses
    then (set_storage_failing true s, retry_later 60 "webhook_storage_failed")
    else answer w r (accept r s.capacity s.inbox) s

unfoldable pub no_verdict : World → Route → String → Service → Service × Response
no_verdict w route reason s =
    (record_rejection w route 500 reason s, problem 500 "webhook_verification_failed")

unfoldable pub judge : World → Route → Verdict × Bool → Service → Service × Response
judge w route (verified d, false) s =
    if is_empty d.id
    then no_verdict w route "integration supplied no delivery identity" s
    else store_delivery w route d s
judge w route (verified d, true) s = no_verdict w route "verification failed" s
judge w route (rejected status reason, late) s =
    (record_rejection w route status reason s, problem status "webhook_rejected")
judge w route (broken, late) s = no_verdict w route "verification failed" s

-- The bounded reading of the body.
unfoldable pub receive : World → Route → Incoming → Service → Service × Response
receive w route i s =
    if ltb max_body_bytes (len i.request.body)
    then (record_rejection w route 413 "body exceeds limit" s, problem 413 "webhook_body_too_large")
    else if i.is_cut_off
    then (s, problem 400 "webhook_body_unreadable")
    else judge w route (route.verify w.now i.request) s

-- A request whose path has this route, if any.
unfoldable pub served : World → Incoming → Service → Option Route → Service × Response
served w i s none = (s, problem 404 "webhook_route_not_found")
served w i s (some route) =
    if ltb w.in_flight concurrency then receive w route i s else (s, retry_later 5 "webhook_busy")

-- `serveDelivery`.
unfoldable pub serve_delivery : World → Incoming → Service → Service × Response
serve_delivery w i s = served w i s (lookup String-discrete i.request.path s.routes)

-- `setExposure`: an equal state is not set again, which leaves no trace but the log's.
unfoldable pub set_exposure : ExposureState → Service → Service
set_exposure e s = record s { exposure = e }

-- `Status`, without the routes' list. A count that cannot be read is 0.
pub record Status : Type 0 where
  pub exposure : ExposureState
  pub pending : ℕ
  pub is_intake_blocked : Bool
  pub rejected : ℕ
  pub last_rejection : String
  pub failures : ℕ
  pub last_failure : String
  pub routes : List (String × String)

unfoldable pub status : World → Service → Service × Status
status w s =
    let pending = (if w.refuses then 0 else count_pending s.inbox) in
    let t = (if w.refuses then set_storage_failing true s else s) in
    (
      t,
      record {
        exposure = t.exposure;
        pending = pending;
        is_intake_blocked = t.storage_failing || leb t.capacity pending;
        rejected = t.rejected;
        last_rejection = t.last_rejection;
        failures = t.failures;
        last_failure = t.last_failure;
        routes = map (λ (r : Route). (r.integration_id, r.path)) t.ordered;
      },
    )
