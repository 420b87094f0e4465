-- ===== src/Threads/Blind.antt =====
-- internal/threads/service.go: the steps that touch neither the threads nor the terminals' projection.
use atelier_code.Shared.{String, ◌≡◌, refl, Bool}
use atelier_code.Threads.Record.{ThreadRecord}
use atelier_code.Threads.Keeps.{Keeps, branch-Keeps, return-Keeps}
use atelier_code.Threads.State.{Service, Event, modify, publish, publish_when}
use atelier_code.Threads.Observe.{forget_prior}
use atelier_code.Threads.External.{hold, drop_hold}
use atelier_code.Threads.Requests.{keep_prior}

-- `P` does not depend on the events, the holds, the launches and the prior statuses.
abbrev pub IsBlind : (Service → Type 0) → Type 0
IsBlind P =
    (s t : Service)
    → t.rows ≡ s.rows
    → t.view ≡ s.view
    → t.active ≡ s.active
    → t.identities ≡ s.identities
    → t.identity_keys ≡ s.identity_keys
    → t.identity_rows ≡ s.identity_rows
    → P s
    → P t

module _ {P : Service → Type 0} (blind : IsBlind P) where
  pub publish-Keeps : (e : Event) → Keeps P (publish e)
  unfolding publish modify
  publish-Keeps e = record { apply = λ s. blind s _ refl refl refl refl refl refl }

  pub publish_when-Keeps : (b : Bool) (e : Event) → Keeps P (publish_when b e)
  unfolding publish_when
  publish_when-Keeps b e = branch-Keeps b (publish-Keeps e) (return-Keeps tt)

  pub forget_prior-Keeps : (id : String) → Keeps P (forget_prior id)
  unfolding forget_prior modify
  forget_prior-Keeps id = record { apply = λ s. blind s _ refl refl refl refl refl refl }

  pub hold-Keeps : (id : String) → Keeps P (hold id)
  unfolding hold modify
  hold-Keeps id = record { apply = λ s. blind s _ refl refl refl refl refl refl }

  pub drop_hold-Keeps : (id : String) → Keeps P (drop_hold id)
  unfolding drop_hold modify
  drop_hold-Keeps id = record { apply = λ s. blind s _ refl refl refl refl refl refl }

  pub keep_prior-Keeps : (r : ThreadRecord) → Keeps P (modify (keep_prior r))
  unfolding keep_prior modify
  keep_prior-Keeps r = record { apply = λ s. blind s _ refl refl refl refl refl refl }
