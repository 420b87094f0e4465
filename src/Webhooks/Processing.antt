-- ===== src/Webhooks/Processing.antt =====
-- internal/webhooks/webhooks.go, `process`: what becomes of one row and of every other.
use atelier_code.Shared.{
  ℕ, ◌+◌, ◌*◌, ◌^◌, min, Bool, Option-cases, inl, inr, String, true, false, ◌≡◌, refl, sym, ap,
  subst, ◌∙◌, ◌≢◌, Option, none, some, arith, if-cases, String-discrete,
}
use atelier_code.Webhooks.Inbox.{Row, is_pending, update_pending, completed, failed, complete, fail}
use atelier_code.Finite.{lookup}
use atelier_code.Webhooks.Inbox.Lookup.{row_at, row_at-update, row_at-other}
use atelier_code.Webhooks.Attempts.{process, settle, attempt, late_error, backoff}
use atelier_code.Webhooks.Backoff.{backoff-eq}
use atelier_code.Webhooks.Service.{
  World, Service, Route, Accepted, retry_base, retry_max, record_failure,
}

-- The route of the row is registered by the row's Integration, and its handler processed the delivery
-- in time and without an error.
pub record IsHandled (w : World) (r : Row) (s : Service) : Type 0 where
  pub route : Route
  pub registered : lookup String-discrete r.route s.routes ≡ some route
  pub owner : route.integration_id ≡ r.integration_id
  pub done :
      route.process w.now (record {
        id = r.id;
        delivery_id = r.delivery_id;
        payload = r.payload;
        attempts = r.attempts;
      })
      ≡ (none, false)

-- `x` is what is kept of `r` when it was completed at `now`.
pub record IsReceipt (now : ℕ) (r x : Row) : Type 0 where
  pub payload : x.payload ≡ none
  pub completed_at : x.completed_at ≡ some now
  pub frame : record x { payload = r.payload; completed_at = r.completed_at } ≡ r

-- `x` is `r` after one more attempt, which failed at `now`.
pub record IsRetried (now : ℕ) (r x : Row) : Type 0 where
  pub attempts : x.attempts ≡ r.attempts + 1
  pub due : x.next_attempt_at ≡ now + min (retry_base * 2 ^ r.attempts) retry_max
  pub frame : record x { attempts = r.attempts; next_attempt_at = r.next_attempt_at } ≡ r

late_error-none : (x : Option String × Bool) → late_error x ≡ none → x ≡ (none, false)
unfolding late_error
late_error-none (none, true) h = cc h
late_error-none (none, false) h = refl
late_error-none (some e, late) h = cc h

abbrev accepted_of : Row → Accepted
accepted_of r = record {
  id = r.id;
  delivery_id = r.delivery_id;
  payload = r.payload;
  attempts = r.attempts;
}

attempt_owned :
    (w : World) (r : Row) (s : Service) (route : Route)
    → lookup String-discrete r.route s.routes ≡ some route
    → route.integration_id ≡ r.integration_id
    → attempt w s r ≡ late_error (route.process w.now (accepted_of r))
unfolding attempt
attempt_owned w r s route e o = ground (arith, e, o)

attempt_foreign :
    (w : World) (r : Row) (s : Service) (route : Route)
    → lookup String-discrete r.route s.routes ≡ some route
    → route.integration_id ≢ r.integration_id
    → attempt w s r ≢ none
unfolding attempt
attempt_foreign w r s route e n h = ground (arith, e, n, h)

attempt_unregistered :
    (w : World) (r : Row) (s : Service)
    → lookup String-discrete r.route s.routes ≡ none
    → attempt w s r ≢ none
unfolding attempt
attempt_unregistered w r s e h = ground (arith, e, h)

attempt-IsHandled : (w : World) (r : Row) (s : Service) → IsHandled w r s → attempt w s r ≡ none
unfolding late_error
attempt-IsHandled w r s h = attempt_owned w r s h.route h.registered h.owner ∙ ap late_error h.done

handled : (w : World) (r : Row) (s : Service) → attempt w s r ≡ none → IsHandled w r s
handled w r s h = elim (Option-cases (lookup String-discrete r.route s.routes)) [
  | inl e ↦ absurd (attempt_unregistered w r s e h)
  | inr (route, e) ↦ elim (String-discrete route.integration_id r.integration_id) [
    | no n ↦ absurd (attempt_foreign w r s route e n h)
    | yes o ↦ record {
      route = route;
      registered = e;
      owner = o;
      done = late_error-none _ (sym (attempt_owned w r s route e o) ∙ h);
    }
  ]
]

-- The inbox and the counted failures after an attempt.
record IsSettled (w : World) (r : Row) (s t : Service) (f : Row → Row) (failed_once : ℕ)
    : Type 0 where
  keeps_id : (x : Row) → (f x).id ≡ x.id
  inbox : t.inbox ≡ update_pending r.id f s.inbox
  failures : t.failures ≡ s.failures + failed_once

settle_done :
    (w : World) (r : Row) (s : Service)
    → w.refuses ≡ false
    → IsSettled w r s (settle w r none s) (completed w.now) 0
unfolding settle complete
settle_done w r s works =
    rw (works) (record { keeps_id = λ x. refl; inbox = refl; failures = omega arith })

settle-failed :
    (w : World) (r : Row) (s : Service) (error : String)
    → w.refuses ≡ false
    → IsSettled w r s
        (settle w r (some error) s)
        (failed (r.attempts + 1) (w.now + backoff (r.attempts + 1)))
        1
unfolding settle fail record_failure
settle-failed w r s error works =
    rw (works) (record { keeps_id = λ x. refl; inbox = refl; failures = refl })

failed-IsRetried :
    (now : ℕ) (r : Row)
    → IsRetried now r (failed (r.attempts + 1) (now + backoff (r.attempts + 1)) r)
failed-IsRetried now r = record {
  attempts = refl;
  due =
      ap (λ (k : ℕ). now + k)
        ((backoff-eq (r.attempts + 1)).0
          ∙ ap (λ (k : ℕ). min (retry_base * 2 ^ k) retry_max) (omega arith));
  frame = refl;
}

-- What one processing leaves, where `P` describes the row in place of `r`.
pub record IsProcessed (r : Row) (s t : Service) (failed_once : ℕ) (P : Row → Type 0) : Type 0 where
  pub row : Row
  pub found : row_at r.id t.inbox ≡ some row
  pub outcome : P row
  pub others : (other : String) → other ≢ r.id → row_at other t.inbox ≡ row_at other s.inbox
  pub failures : t.failures ≡ s.failures + failed_once

settled-IsProcessed :
    (w : World) (r : Row) (s t : Service) (f : Row → Row) (n : ℕ) (P : Row → Type 0)
    → row_at r.id s.inbox ≡ some r
    → is_pending r ≡ true
    → P (f r)
    → IsSettled w r s t f n
    → IsProcessed r s t n P
settled-IsProcessed w r s t f n P h p q k = record {
  row = f r;
  found = ap (row_at r.id) k.inbox ∙ row_at-update r f s.inbox k.keeps_id h p;
  outcome = q;
  others = λ other m. ap (row_at other) k.inbox ∙ row_at-other r.id other f s.inbox k.keeps_id m;
  failures = k.failures;
}

process_settles :
    (w : World) (r : Row) (s : Service) (o : Option String)
    → w.stopping ≡ false
    → attempt w s r ≡ o
    → settle w r o s ≡ process w r s
unfolding process
process_settles w r s o runs e =
    if-cases (λ (t : Service). settle w r o s ≡ t) w.stopping
      (λ f. absurd (ground (arith, f, runs))) (λ f. ap (λ x. settle w r x s) (sym e))

-- Processing a pending row while the database works and the server runs. If a handler that the row's
-- Integration registered for its route does its work in time and without an error, the row is
-- completed at this time and its payload gone. Otherwise the row stays pending with its payload, has
-- one attempt more, and comes due after the base delay doubled for each earlier attempt, at most the
-- longest delay; one failure more is counted. Nothing else of the row changes, and no other row.
pub process-outcome :
    (w : World) (r : Row) (s : Service)
    → w.refuses ≡ false
    → w.stopping ≡ false
    → row_at r.id s.inbox ≡ some r
    → is_pending r ≡ true
    → (IsHandled w r s → IsProcessed r s (process w r s) 0 (IsReceipt w.now r))
      × (¬ IsHandled w r s → IsProcessed r s (process w r s) 1 (IsRetried w.now r))
process-outcome w r s works runs h p = (
  λ done.
      subst (λ t. IsProcessed r s t 0 (IsReceipt w.now r))
        (process_settles w r s none runs (attempt-IsHandled w r s done))
        (settled-IsProcessed w r s _ (completed w.now) 0 (IsReceipt w.now r) h p
          (record { payload = refl; completed_at = refl; frame = refl }) (settle_done w r s works)),
  λ undone. elim (Option-cases (attempt w s r)) [
    | inl e ↦ absurd (undone (handled w r s e))
    | inr (error, e) ↦
        subst (λ t. IsProcessed r s t 1 (IsRetried w.now r))
          (process_settles w r s (some error) runs e)
          (settled-IsProcessed w r s _ _ 1 (IsRetried w.now r) h p (failed-IsRetried w.now r)
            (settle-failed w r s error works))
  ],
)
