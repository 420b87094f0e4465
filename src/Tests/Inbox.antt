-- ===== src/Tests/Inbox.antt =====
-- Deliveries at the webhook inbox.
use atelier_code.Shared.{
  ℕ, zero, suc, ◌-◌, ◌*◌, ◌^◌, ◌≤◌, ◌<◌, min, true, false, String, ◌≡◌, refl, Option, none, some,
  [], ◌∷◌, arith, is_empty, String-discrete,
}
use atelier_code.Finite.{lookup}
use atelier_code.Webhooks.Inbox.{Row, accept, due, has_identity, has_id, count_pending}
use atelier_code.Webhooks.Inbox.Valid.{IsValid}
use atelier_code.Webhooks.Attempts.{process_due, process, backoff}
use atelier_code.Webhooks.Service.{
  World, Service, Route, verified, Incoming, ready, serve_delivery, served, receive, judge, row_of,
  store_delivery, answer, set_storage_failing, problem, retry_base, retry_max,
}
use atelier_code.Webhooks.Worker.{drain}
use atelier_code.Webhooks.Backoff.{backoff-eq}
use atelier_code.Webhooks.History.{rest, step, delivery, work, Run-IsValid}
use atelier_code.Webhooks.Due.{count_due}
use atelier_code.Webhooks.Draining.{drain-due}
use atelier_code.Webhooks.Redelivery.{after, serve_delivery-again}
use atelier_code.Webhooks.Inbox.Lookup.{row_at}
use atelier_code.Webhooks.Processing.{IsHandled, IsReceipt, IsRetried, IsProcessed, process-outcome}

unfoldable first_failure : ℕ → Option String
first_failure zero = some "lost"
first_failure (suc n) = none

-- A handler that takes a request's query as the identity, and fails on its first attempt.
abbrev linear : Route
linear = record {
  integration_id = "linear";
  path = "/linear";
  verify = λ now r. (verified (record { id = r.raw_query; payload = r.body }), false);
  process = λ now d. (first_failure d.attempts, false);
}

abbrev fresh_service : Service
fresh_service = record {
  inbox = [];
  routes = ("/linear", linear) ∷ [];
  ordered = linear ∷ [];
  capacity = 1;
  kicked = false;
  rejected = 0;
  last_rejection = "";
  failures = 0;
  last_failure = "";
  storage_failing = false;
  exposure = record { state = ready; url = ""; action = ""; reason = "" };
}

abbrev world : World
world = record {
  now = 7;
  fresh = "d1";
  in_flight = 0;
  refuses = false;
  stopping = false;
  below = λ a b. false;
  show = λ n. "?";
}

abbrev session_created : Incoming
session_created = record {
  request = record {
    method = "POST";
    path = "/linear";
    raw_query = "e1";
    header = [];
    body = "{}";
  };
  is_cut_off = false;
}

abbrev pending_row : Row
pending_row = record {
  id = "d1";
  integration_id = "linear";
  route = "/linear";
  delivery_id = "e1";
  payload = some "{}";
  attempts = 0;
  next_attempt_at = 7;
  accepted_at = 7;
  completed_at = none;
}

abbrev stored_service : Service
stored_service = record fresh_service { inbox = pending_row ∷ []; kicked = true }

room : count_pending [] ≤ 1
unfolding count_pending
room = omega arith

accepted_first : is_empty (serve_delivery world session_created fresh_service).1.code ≡ true
unfolding serve_delivery served receive judge store_delivery answer accept row_of has_identity
    has_id count_pending set_storage_failing lookup String-discrete
accepted_first = refl

pending_stored : row_at "d1" (pending_row ∷ []) ≡ some pending_row
unfolding row_at String-discrete
pending_stored = refl

due_once : count_due 7 (pending_row ∷ []) < 2
unfolding count_due
due_once = omega arith

backoff-eq_example :
    (backoff 3 ≡ min (retry_base * 2 ^ (3 - 1)) retry_max)
    × (retry_base ≤ backoff 3)
    × (backoff 3 ≤ retry_max)
    × ((more : ℕ) → 3 ≤ more → backoff 3 ≤ backoff more)
backoff-eq_example = backoff-eq 3

Run-IsValid_example :
    let s = (serve_delivery world session_created fresh_service).0 in
    let t = (process_due world s).0 in IsValid t.capacity t.inbox
Run-IsValid_example =
    Run-IsValid (step (delivery world session_created) (step (work world) rest))
      (record { distinct = tt; bounded = room; stripped = tt })

serve_delivery-again_example :
    let t = after (world ∷ []) (serve_delivery world session_created fresh_service).0 in
    serve_delivery world session_created t
    ≡ (set_storage_failing false t, record (problem 202 "") { is_duplicate = true })
serve_delivery-again_example =
    serve_delivery-again world world (world ∷ []) session_created fresh_service accepted_first refl
      refl (λ route e. refl)

process-outcome_example :
    let t = process world pending_row stored_service in
    (IsHandled world pending_row stored_service
      → IsProcessed pending_row stored_service t 0 (IsReceipt 7 pending_row))
    × (¬ IsHandled world pending_row stored_service
        → IsProcessed pending_row stored_service t 1 (IsRetried 7 pending_row))
process-outcome_example =
    process-outcome world pending_row stored_service refl refl pending_stored refl

drain-due_example :
    let x = drain 2 world 0 stored_service in (x.2 ≡ true) × (due world.below 7 16 x.0.inbox ≡ [])
drain-due_example = drain-due world 2 0 16 stored_service refl refl due_once
