-- ===== src/Webhooks/Worker.antt =====
-- internal/webhooks/webhooks.go: `New`, and one round of the worker's loop.
use Prim.Native.String.{len, slice}
use text.Mathlib.Text.{starts_with, ◌==◌ as text_eq}
use atelier_code.Shared.{
  ℕ, zero, suc, ◌-◌, String, Bool, true, false, not, ◌&&◌, Option, none, some, List, [], ◌∷◌, ◌++◌,
  String-discrete, ℕ_discrete, is_empty, is_some, differ, ltb, leb, if◌then◌else◌,
}
use atelier_code.Finite.{lookup, insert}
use atelier_code.Webhooks.Attempts.{process_due, prune_receipts}
use atelier_code.Webhooks.Service.{
  Service, World, Route, disabled, starting, default_capacity, prune_interval,
}

pub data RegistrationError : Type 0 where
  no_integration invalid_path registered_twice : String → RegistrationError

-- Paths are absolute, non-root, without a trailing slash.
unfoldable pub is_route_path : String → Bool
is_route_path p =
    starts_with p "/" && not (ltb (len p) 2) && not (text_eq (slice p (len p - 1) (len p)) "/")

-- One registration, which a missing handler cannot reach here.
unfoldable pub register : Route → Service → Option RegistrationError × Service
register r s =
    if is_empty r.integration_id
    then (some (no_integration r.path), s)
    else if not (is_route_path r.path)
    then (some (invalid_path r.path), s)
    else if is_some (lookup String-discrete r.path s.routes)
    then (some (registered_twice r.path), s)
    else (
      none,
      record s { routes = insert String-discrete r.path r s.routes; ordered = s.ordered ++ r ∷ [] },
    )

unfoldable pub register_all : List Route → Service → Option RegistrationError × Service
register_all [] s = (none, s)
register_all (r ∷ rs) s = elim (register r s).0 [
  | none ↦ register_all rs (register r s).1
  | some e ↦ (some e, s)
]

-- `New`, on an inbox; `ingress` tells whether intake is enabled.
unfoldable pub new_service : List Route → ℕ → Bool → Service → Option RegistrationError × Service
new_service routes capacity ingress stored = register_all routes (record stored {
  routes = [];
  ordered = [];
  capacity = if differ ℕ_discrete capacity 0 then capacity else default_capacity;
  exposure = record {
    state = if ingress then starting else disabled;
    url = "";
    action = "";
    reason = if ingress then "starting" else "";
  };
})

-- One round of `work`: the state, the time of the last prune, and whether to go straight back.
unfoldable pub work_round : World → ℕ → Service → Service × ℕ × Bool
work_round w last_prune s =
    let (t, busy) = process_due w s in
    if leb prune_interval (w.now - last_prune)
    then (prune_receipts w t, w.now, busy)
    else (t, last_prune, busy)

-- The rounds that follow each other without a wait, at most `fuel` of them, and whether the last was
-- followed by a wait.
unfoldable pub drain : ℕ → World → ℕ → Service → Service × ℕ × Bool
drain zero w last_prune s = (s, last_prune, false)
drain (suc fuel) w last_prune s =
    let (t, last, busy) = work_round w last_prune s in
    let rest = drain fuel w last t in if busy then rest else (t, last, true)
