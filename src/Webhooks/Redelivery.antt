-- ===== src/Webhooks/Redelivery.antt =====
-- internal/webhooks/webhooks.go: a sender that delivers again what was accepted.

use atelier_code.Shared.{
  String, Bool, true, false, ◌&&◌, ◌≡◌, refl, ap, ◌∙◌, Option, none, some, List, [], ◌∷◌, ◌++◌,
  arith, if-cases, String-discrete, is_empty, ltb,
}
use atelier_code.Finite.{lookup}
use atelier_code.Webhooks.Inbox.{Inbox, Row, accept, has_identity}
use atelier_code.Webhooks.Inbox.Valid.{has_identity-complete, has_identity-fail}
use atelier_code.Webhooks.Attempts.{process_due, process, process_all, settle, attempt}
use atelier_code.Webhooks.Service.{
  World, Service, Route, Delivery, Incoming, Response, serve_delivery, served, receive, judge,
  store_delivery, answer, row_of, record_failure, set_storage_failing, problem, concurrency,
}
use atelier_code.Webhooks.Acceptance.{
  IsAnswered, IsReceived, turned_away, known, kept, serve_delivery-IsAnswered,
}

-- The worker's rounds keep the routes and the identities.
abbrev Keeps : Service → Service → Type 0
Keeps s t = (t.routes ≡ s.routes) × ((r : Row) → has_identity r t.inbox ≡ has_identity r s.inbox)

settle-Keeps : (w : World) (r : Row) (o : Option String) (s : Service) → Keeps s (settle w r o s)
unfolding settle record_failure set_storage_failing
settle-Keeps w r (some e) s =
    if-cases (Keeps s) w.refuses (λ e. (refl, λ x. refl))
      (λ e. (refl, λ x. has_identity-fail x r.id _ _ s.inbox))
settle-Keeps w r none s =
    if-cases (Keeps s) w.refuses (λ e. (refl, λ x. refl))
      (λ e. (refl, λ x. has_identity-complete x r.id w.now s.inbox))

process-Keeps : (w : World) (r : Row) (s : Service) → Keeps s (process w r s)
unfolding process
process-Keeps w r s =
    if-cases (Keeps s) w.stopping (λ e. (refl, λ x. refl)) (λ e. settle-Keeps w r (attempt w s r) s)

process_all-Keeps : (w : World) (rs : Inbox) (s : Service) → Keeps s (process_all w rs s)
unfolding process_all
process_all-Keeps w [] s = (refl, λ x. refl)
process_all-Keeps w (r ∷ rs) s =
    let (e, f) = process_all-Keeps w rs (process w r s) in
    let (g, h) = process-Keeps w r s in (e ∙ g, λ x. f x ∙ h x)

process_due-Keeps : (w : World) (s : Service) → Keeps s (process_due w s).0
unfolding process_due set_storage_failing
process_due-Keeps w s =
    if-cases (λ (x : Service × Bool). Keeps s x.0) w.refuses
      (λ e. if-cases (Keeps s) w.stopping (λ f. (refl, λ x. refl)) (λ f. (refl, λ x. refl)))
      (λ e.
        if-cases (λ (x : Service × Bool). Keeps s x.0) (w.stopping && _) (λ f. (refl, λ x. refl))
          (λ f. process_all-Keeps w _ _))

-- Rounds of work, one per world.
unfoldable pub after : List World → Service → Service
after [] s = s
after (w ∷ ws) s = after ws (process_due w s).0

after-Keeps : (ws : List World) (s : Service) → Keeps s (after ws s)
unfolding after
after-Keeps [] s = (refl, λ x. refl)
after-Keeps (w ∷ ws) s =
    let (e, f) = after-Keeps ws (process_due w s).0 in
    let (g, h) = process_due-Keeps w s in (e ∙ g, λ x. f x ∙ h x)

has_identity-world :
    (w v : World) (route : Route) (d : Delivery) (xs : Inbox)
    → has_identity (row_of w route d) xs ≡ has_identity (row_of v route d) xs
unfolding has_identity row_of
has_identity-world w v route d [] = refl
has_identity-world w v route d (x ∷ xs) = ground (arith, has_identity-world w v route d xs)

has_identity-last : (r : Row) (xs : Inbox) → has_identity r (xs ++ r ∷ []) ≡ true
unfolding has_identity
has_identity-last r [] = ground arith
has_identity-last r (x ∷ xs) = ground (arith, has_identity-last r xs)

again :
    (w : World) (i : Incoming) (s : Service) (route : Route) (d : Delivery)
    → IsReceived w i s route d
    → ltb w.in_flight concurrency ≡ true
    → w.refuses ≡ false
    → has_identity (row_of w route d) s.inbox ≡ true
    → serve_delivery w i s
      ≡ (set_storage_failing false s, record (problem 202 "") { is_duplicate = true })
unfolding serve_delivery served receive judge store_delivery answer accept
again w i s route d v free works h =
    rw (v.routed, free, v.small, v.whole, v.verified_as, v.identified, h, works) refl

held-again :
    (w v : World) (i : Incoming) (s t : Service) (route : Route) (d : Delivery)
    → IsReceived w i s route d
    → t.routes ≡ s.routes
    → has_identity (row_of w route d) t.inbox ≡ true
    → ltb v.in_flight concurrency ≡ true
    → v.refuses ≡ false
    → route.verify v.now i.request ≡ route.verify w.now i.request
    → serve_delivery v i t
      ≡ (set_storage_failing false t, record (problem 202 "") { is_duplicate = true })
held-again w v i s t route d a k h free works same =
    again v i t route d
      (record {
        routed = ap (lookup String-discrete i.request.path) k ∙ a.routed;
        small = a.small;
        whole = a.whole;
        verified_as = same ∙ a.verified_as;
        identified = a.identified;
      })
      free works (has_identity-world v w route d t.inbox ∙ h)

answered-held :
    (w : World) (i : Incoming) (s : Service) (x : Service × Response)
    → IsAnswered w i s x
    → is_empty x.1.code ≡ true
    → (route : Route) × (d : Delivery) × IsReceived w i s route d
      × (x.0.routes ≡ s.routes)
      × (has_identity (row_of w route d) x.0.inbox ≡ true)
unfolding set_storage_failing
answered-held w i s x (turned_away _ _ f) e = absurd (ground arith)
answered-held w i s x (known route d a h g _) e = (
  route,
  d,
  a,
  ap (λ (t : Service). t.routes) g,
  ap (λ (t : Service). has_identity (row_of w route d) t.inbox) g ∙ h,
)
answered-held w i s x (kept route d a _ _ _ g _) e = (
  route,
  d,
  a,
  ap (λ (t : Service). t.routes) g,
  ap (λ (t : Service). has_identity (row_of w route d) t.inbox) g
      ∙ has_identity-last (row_of w route d) s.inbox,
)

-- A request that was answered 202 is a duplicate when it comes again, whatever rounds of work were
-- between, if its route's handler still verifies it alike, fewer than 32 requests are in flight and
-- the database works: it is answered 202 as a duplicate, and nothing changes but that the storage
-- counts as working.
pub serve_delivery-again :
    (w v : World) (ws : List World) (i : Incoming) (s : Service)
    → is_empty (serve_delivery w i s).1.code ≡ true
    → ltb v.in_flight concurrency ≡ true
    → v.refuses ≡ false
    → ((route : Route)
        → lookup String-discrete i.request.path s.routes ≡ some route
        → route.verify v.now i.request ≡ route.verify w.now i.request)
    → let t = after ws (serve_delivery w i s).0 in
      serve_delivery v i t
      ≡ (set_storage_failing false t, record (problem 202 "") { is_duplicate = true })
serve_delivery-again w v ws i s e free works same =
    let x = serve_delivery w i s in
    let (route, d, a, g, h) = answered-held w i s x (serve_delivery-IsAnswered w i s) e in
    let k = after-Keeps ws x.0 in
    held-again w v i s (after ws x.0) route d a (k.0 ∙ g) (k.1 (row_of w route d) ∙ h) free works
      (same route a.routed)
