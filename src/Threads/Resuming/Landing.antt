-- ===== src/Threads/Resuming/Landing.antt =====
-- internal/threads/service.go, the end of `Open`: what a launch leaves, however it ended.
use atelier_code.Shared.{
  String, Bool, true, false, ◌≡◌, refl, sym, ap, ◌∙◌, subst, ◌⊎◌, ◌≢◌, inl, inr, Option, none, some,
  arith, String-discrete, is_empty,
}
use atelier_code.Finite.{lookup-erase}
use atelier_code.Threads.State.{
  Service, World, Method, Result, Error, ok, err, link_failed, compensation_failed, ◌>>=◌, ◌>>◌,
  return, throw, modify,
}
use atelier_code.Threads.Requests.{is_opening}
use atelier_code.Threads.Opening.{link, clear_opening}
use atelier_code.Threads.Resuming.{Opened, attempt, finish_open, after_link, land_open}
use atelier_code.Threads.Resuming.Linking.{ShowsTerminal, IsUnlinkable, IsLinked, link-IsLinked}

-- `v` is `u` without the thread's mark.
pub record IsUnmarked (id : String) (u v : Service) : Type 0 where
  pub landed : is_opening id v ≡ false
  pub others : (j : String) → j ≢ id → is_opening j v ≡ is_opening j u
  pub frame : record v { opening = u.opening } ≡ u

clear_opening-IsUnmarked : (id : String) (u : Service) → IsUnmarked id u (clear_opening id u)
unfolding clear_opening
clear_opening-IsUnmarked id u = record {
  landed = ground (arith, lookup-erase String-discrete id id u.opening);
  others = λ j n. ground (arith, n, lookup-erase String-discrete id j u.opening);
  frame = refl;
}

-- The terminal is the caller's, and the thread shows it.
pub record IsHandedOver (id t : String) (failed : Option Error) (s v : Service) (y : Result Opened)
    : Type 0 where
  pub linked : Service
  pub shows : ShowsTerminal id t s linked
  pub unmarked : IsUnmarked id linked v
  pub result : y ≡ ok (record { terminal = t; created = true; failure = failed })

-- The thread could not be linked, so the terminal was discarded, on the state before.
pub record IsDiscarded (w : World) (id : String) (discard : Method (Unit {0})) (s v : Service)
    (y : Result Opened) : Type 0 where
  pub why : IsUnlinkable w id s
  pub unmarked : IsUnmarked id (discard s).0 v
  pub discarded : (discard s).1 ≡ ok tt → y ≡ err link_failed
  pub kept : (discard s).1 ≢ ok tt → y ≡ err compensation_failed

abbrev pub IsLanded :
    World
    → String
    → String
    → Option Error
    → Method (Unit {0})
    → Service
    → Service × Result Opened
    → Type 0
IsLanded w id t failed discard s (v, y) =
    IsHandedOver id t failed s v y ⊎ IsDiscarded w id discard s v y

after_link-IsLanded :
    (w : World) (id t : String) (failed : Option Error) (discard : Method (Unit {0}))
    (s u : Service) (x : Result (Unit {0}))
    → IsLinked w id t s (u, x)
    → IsLanded w id t failed discard s (after_link id t failed discard x u)
unfolding after_link attempt finish_open ◌>>=◌ ◌>>◌ return throw modify
after_link-IsLanded w id t failed discard s u (ok tt) (inl (_, shows)) =
    inl (record {
      linked = u;
      shows = shows;
      unmarked = clear_opening-IsUnmarked id u;
      result = refl;
    })
after_link-IsLanded w id t failed discard s u (ok tt) (inr (n, _, _)) = absurd (n refl)
after_link-IsLanded w id t failed discard s u (err e) (inl (f, _)) = absurd (ground arith)
after_link-IsLanded w id t failed discard s u (err e) (inr (_, same, why)) =
    go (discard u).0 (discard u).1 (ap discard same)
  where
    go :
        (v : Service) (r : Result (Unit {0}))
        → (v, r) ≡ discard s
        → IsLanded w id t failed discard s (
            (elim r as (λ _. Method Opened) [
              | ok _ ↦ throw link_failed
              | err _ ↦ throw compensation_failed
            ])
              (clear_opening id v))
    go v (ok tt) q = inr (record {
      why = why;
      unmarked =
          subst (λ (x : Service × Result (Unit {0})). IsUnmarked id x.0 (clear_opening id v)) q
            (clear_opening-IsUnmarked id v);
      discarded = λ h. refl;
      kept = λ h. absurd (h (sym (ap (λ (x : Service × Result (Unit {0})). x.1) q)));
    })
    go v (err e) q = inr (record {
      why = why;
      unmarked =
          subst (λ (x : Service × Result (Unit {0})). IsUnmarked id x.0 (clear_opening id v)) q
            (clear_opening-IsUnmarked id v);
      discarded = λ h. let p = ap (λ (x : Service × Result (Unit {0})). x.1) q ∙ h in cc (p);
      kept = λ h. refl;
    })

-- A launch without a terminal: its error is returned, and nothing is linked or discarded.
pub record IsGivenUp (id : String) (e : Error) (s v : Service) (y : Result Opened) : Type 0 where
  pub unmarked : IsUnmarked id s v
  pub result : y ≡ err e

linked_land :
    (w : World) (id t : String) (failed : Option Error) (discard : Method (Unit {0})) (s : Service)
    → IsLanded w id t failed discard s
        ((do linked ← attempt (link w id t); after_link id t failed discard linked) s)
unfolding attempt ◌>>=◌
linked_land w id t failed discard s =
    after_link-IsLanded w id t failed discard s (link w id t s).0 (link w id t s).1
      (link-IsLinked w id t s)

-- However a launch ends, the thread is no longer marked as opening when it has landed, and other
-- threads' marks are as the launch, or the discarding, left them. A launch that returned a terminal,
-- with an error of its own or not, ends in one of two ways. Either the terminal is handed over, with
-- the launch's error, and the thread shows it and is unarchived, no other thread's entry in the view
-- changed. Or the thread is unknown or its record cannot be written, nothing was linked, and the
-- terminal was discarded: the caller learns that the link failed if that succeeded, else that the
-- compensation failed. A launch without a terminal returns its error, and nothing but the mark changes.
pub land_open-IsLanded :
    (w : World) (id t : String) (failed : Option Error) (discard : Method (Unit {0})) (s : Service)
    → ((t ≢ "") ⊎ (failed ≡ none)
        → IsLanded w id t failed discard s (land_open w id t failed discard s))
      × ((e : Error)
          → t ≡ ""
          → failed ≡ some e
          → let (v, y) = land_open w id t failed discard s in IsGivenUp id e s v y)
unfolding land_open finish_open ◌>>=◌ ◌>>◌ throw modify
land_open-IsLanded w id t none discard s =
    (λ h. linked_land w id t none discard s, λ e q f. absurd (ground arith))
land_open-IsLanded w id t (some x) discard s = go (is_empty t) refl
  where
    go :
        (b : Bool)
        → is_empty t ≡ b
        → let y : Service × Result Opened =
            (elim b as (λ _. Method Opened) [
              | true ↦ do finish_open id; throw x
              | false ↦ do linked ← attempt (link w id t); after_link id t (some x) discard linked
            ])
              s in
          ((t ≢ "") ⊎ (some x ≡ none) → IsLanded w id t (some x) discard s y)
          × ((e : Error) → t ≡ "" → some x ≡ some e → IsGivenUp id e s y.0 y.1)
    go true q = (
      λ h. absurd (ground arith),
      λ e r f. record { unmarked = clear_opening-IsUnmarked id s; result = ground arith },
    )
    go false q = (λ h. linked_land w id t (some x) discard s, λ e r f. absurd (ground arith))
