-- ===== src/Webhooks/Acceptance.antt =====
-- internal/webhooks/webhooks.go, `serveDelivery`: what the sender is told is what the inbox holds.
use Prim.Native.String.{len}
use atelier_code.Shared.{
  ◌≤◌, String, Bool, true, false, ◌≡◌, refl, ap, Option, none, some, [], ◌∷◌, ◌++◌, arith,
  String-discrete, is_empty, ltb, if-cases,
}
use atelier_code.Finite.{lookup}
use atelier_code.Webhooks.Inbox.{
  Inbox, Acceptance, has_identity, has_id, count_pending, duplicate, accepted, inbox_full, id_taken,
}
use atelier_code.Webhooks.Inbox.Valid.{AcceptCases, found, refused, stored, accept_cases}
use atelier_code.Webhooks.Service.{
  World, Service, Route, Delivery, Verdict, verified, rejected, broken, Incoming, Response,
  serve_delivery, served, receive, judge, store_delivery, answer, row_of, no_verdict,
  record_rejection, set_storage_failing, problem, max_body_bytes, concurrency,
}

-- A request that passes every check on the way to the inbox.
pub record IsReceived (w : World) (i : Incoming) (s : Service) (route : Route) (d : Delivery)
    : Type 0 where
  pub routed : lookup String-discrete i.request.path s.routes ≡ some route
  pub small : ltb max_body_bytes (len i.request.body) ≡ false
  pub whole : i.is_cut_off ≡ false
  pub verified_as : route.verify w.now i.request ≡ (verified d, false)
  pub identified : is_empty d.id ≡ false

-- What one delivery leaves of the inbox, by the answer.
pub data IsAnswered (w : World) (i : Incoming) (s : Service) (x : Service × Response) : Type 0 where
  turned_away :
      x.0.inbox ≡ s.inbox
      → x.0.capacity ≡ s.capacity
      → is_empty x.1.code ≡ false
      → IsAnswered w i s x
  known :
      (route : Route) (d : Delivery)
      → IsReceived w i s route d
      → has_identity (row_of w route d) s.inbox ≡ true
      → x.0 ≡ set_storage_failing false s
      → x.1 ≡ record (problem 202 "") { is_duplicate = true }
      → IsAnswered w i s x
  kept :
      (route : Route) (d : Delivery)
      → IsReceived w i s route d
      → has_identity (row_of w route d) s.inbox ≡ false
      → has_id w.fresh s.inbox ≡ false
      → count_pending (s.inbox ++ row_of w route d ∷ []) ≤ s.capacity
      → x.0 ≡ record (set_storage_failing false s) {
        inbox = s.inbox ++ row_of w route d ∷ [];
        kicked = true;
      }
      → x.1 ≡ record (problem 202 "") { id = some w.fresh }
      → IsAnswered w i s x

module _ (w : World) (i : Incoming) (route : Route) (d : Delivery) (s : Service)
    (v : IsReceived w i s route d) where
  answer-IsAnswered :
      (x : Inbox × Acceptance)
      → AcceptCases (row_of w route d) s.capacity s.inbox x
      → IsAnswered w i s (answer w (row_of w route d) x s)
  unfolding answer set_storage_failing row_of String-discrete
  answer-IsAnswered (inbox, accepted) (found _ _ e) = absurd (ground arith)
  answer-IsAnswered (inbox, accepted) (refused _ _ _ e) = absurd (e refl)
  answer-IsAnswered (inbox, accepted) (stored e f h g _) =
      kept route d v e f h
        (ap (λ y. record (set_storage_failing false s) { inbox = y; kicked = true }) g) refl
  answer-IsAnswered (inbox, duplicate) (found e f _) = known route d v e refl refl
  answer-IsAnswered (inbox, duplicate) (refused _ _ e _) = absurd (e refl)
  answer-IsAnswered (inbox, duplicate) (stored _ _ _ _ e) = absurd (ground arith)
  answer-IsAnswered (inbox, inbox_full) c = turned_away refl refl refl
  answer-IsAnswered (inbox, id_taken) c = turned_away refl refl refl

  store_delivery-IsAnswered : IsAnswered w i s (store_delivery w route d s)
  unfolding store_delivery set_storage_failing String-discrete
  store_delivery-IsAnswered =
      if-cases (IsAnswered w i s) w.refuses (λ e. turned_away refl refl refl)
        (λ e. answer-IsAnswered _ (accept_cases (row_of w route d) s.capacity s.inbox))

no_verdict-IsAnswered :
    (w : World) (i : Incoming) (route : Route) (reason : String) (s : Service)
    → IsAnswered w i s (no_verdict w route reason s)
unfolding no_verdict record_rejection String-discrete
no_verdict-IsAnswered w i route reason s = turned_away refl refl refl

module _ (w : World) (i : Incoming) (route : Route) (s : Service)
    (routed : lookup String-discrete i.request.path s.routes ≡ some route) where
  judge-IsAnswered :
      (x : Verdict × Bool)
      → ltb max_body_bytes (len i.request.body) ≡ false
      → i.is_cut_off ≡ false
      → route.verify w.now i.request ≡ x
      → IsAnswered w i s (judge w route x s)
  unfolding judge record_rejection String-discrete
  judge-IsAnswered (verified d, false) small whole v =
      if-cases (IsAnswered w i s) (is_empty d.id) (λ e. no_verdict-IsAnswered w i route _ s)
        (λ e. store_delivery-IsAnswered w i route d s (record {
          routed = routed;
          small = small;
          whole = whole;
          verified_as = v;
          identified = e;
        }))
  judge-IsAnswered (verified d, true) small whole v = no_verdict-IsAnswered w i route _ s
  judge-IsAnswered (rejected n r, late) small whole v = turned_away refl refl refl
  judge-IsAnswered (broken, late) small whole v = no_verdict-IsAnswered w i route _ s

  receive-IsAnswered : IsAnswered w i s (receive w route i s)
  unfolding receive record_rejection String-discrete
  receive-IsAnswered =
      if-cases (IsAnswered w i s) (ltb max_body_bytes (len i.request.body))
        (λ e. turned_away refl refl refl)
        (λ e.
          if-cases (IsAnswered w i s) i.is_cut_off (λ f. turned_away refl refl refl)
            (λ f. judge-IsAnswered _ e f refl))

served-IsAnswered :
    (w : World) (i : Incoming) (s : Service) (o : Option Route)
    → lookup String-discrete i.request.path s.routes ≡ o
    → IsAnswered w i s (served w i s o)
unfolding served String-discrete
served-IsAnswered w i s none e = turned_away refl refl refl
served-IsAnswered w i s (some route) e =
    if-cases (IsAnswered w i s) (ltb w.in_flight concurrency)
      (λ f. receive-IsAnswered w i route s e) (λ f. turned_away refl refl refl)

pub serve_delivery-IsAnswered :
    (w : World) (i : Incoming) (s : Service) → IsAnswered w i s (serve_delivery w i s)
unfolding serve_delivery
serve_delivery-IsAnswered w i s = served-IsAnswered w i s _ refl
