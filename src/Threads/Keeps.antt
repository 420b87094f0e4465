-- ===== src/Threads/Keeps.antt =====
-- Invariants of the service's state, method by method: what every step of a method keeps, the whole
-- method keeps.
use atelier_code.Shared.{String, ◌≡◌, refl, Bool, true, false, Option, none, some}
use atelier_code.Threads.Record.{ThreadRecord}
use atelier_code.Threads.State.{
  Service, Method, Error, Result, ok, err, ◌>>=◌, ◌>>◌, return, throw, read, modify, branch,
  on_option, view_of,
}
use atelier_code.Threads.Observe.{quietly}

pub record Keeps {A : Type 0} (P : Service → Type 0) (m : Method A) : Type 0 where
  pub apply : (s : Service) → P s → P (m s).0

-- Each view entry carries the id that it is kept under.
pub record IsKeyed (s : Service) : Type 0 where
  pub apply : (id : String) (r : ThreadRecord) → view_of id s ≡ some r → r.id ≡ id

module _ {P : Service → Type 0} where
  after_result :
      {A B : Type 0} {f : A → Method B}
      → ((a : A) → Keeps P (f a))
      → (s : Service) (r : Result A) → P s
      → P (elim r as (λ _. Service × Result B) [ ok a ↦ f a s | err e ↦ (s, err e) ]).0
  after_result k s (ok a) p = (k a).apply s p
  after_result k s (err e) p = p

  pub >>=-Keeps :
      {A B : Type 0} {m : Method A} {f : A → Method B}
      → Keeps P m
      → ((a : A) → Keeps P (f a))
      → Keeps P (m >>= f)
  unfolding ◌>>=◌
  >>=-Keeps {m = m} h k = record { apply = λ s p. after_result k (m s).0 (m s).1 (h.apply s p) }

  pub >>-Keeps :
      {B : Type 0} {m : Method (Unit {0})} {k : Method B} → Keeps P m → Keeps P k → Keeps P (m >> k)
  unfolding ◌>>◌
  >>-Keeps h k = >>=-Keeps h (λ _. k)

  pub return-Keeps : {A : Type 0} (a : A) → Keeps P (return a)
  unfolding return
  return-Keeps a = record { apply = λ s p. p }

  pub throw-Keeps : {A : Type 0} (e : Error) → Keeps {A = A} P (throw e)
  unfolding throw
  throw-Keeps e = record { apply = λ s p. p }

  pub read-Keeps : {A : Type 0} (f : Service → A) → Keeps P (read f)
  unfolding read
  read-Keeps f = record { apply = λ s p. p }

  pub modify-Keeps : (f : Service → Service) → ((s : Service) → P s → P (f s)) → Keeps P (modify f)
  unfolding modify
  modify-Keeps f h = record { apply = h }

  pub branch-Keeps :
      {A : Type 0} (b : Bool) {m k : Method A} → Keeps P m → Keeps P k → Keeps P (branch b m k)
  unfolding branch
  branch-Keeps true h k = record { apply = h.apply }
  branch-Keeps false h k = record { apply = k.apply }

  pub on_option-Keeps :
      {A B : Type 0} (o : Option A) {m : Method B} {f : A → Method B}
      → Keeps P m
      → ((a : A) → Keeps P (f a))
      → Keeps P (on_option o m f)
  unfolding on_option
  on_option-Keeps none h k = record { apply = h.apply }
  on_option-Keeps (some a) h k = record { apply = (k a).apply }

  pub quietly-Keeps : {m : Method Bool} → Keeps P m → Keeps P (quietly m)
  unfolding quietly
  quietly-Keeps {m = m} h = record { apply = λ s p. quiet (m s).0 (m s).1 (h.apply s p) }
    where
      quiet :
          (s : Service) (r : Result Bool)
          → P s
          → P
              (elim r as (λ _. Service × Result Bool) [
                | ok b ↦ (s, ok b)
                | err e ↦ (s, ok false)
              ]).0
      quiet s (ok b) p = p
      quiet s (err e) p = p

  -- A method that reads a view entry first, where entries carry their own ids.
  pub entry-Keeps :
      {B : Type 0} (id : String) {m : Method B} {f : ThreadRecord → Method B}
      → ((s : Service) → P s → IsKeyed s)
      → Keeps P m
      → ((r : ThreadRecord) → r.id ≡ id → Keeps P (f r))
      → Keeps P (read (view_of id) >>= λ e. on_option e m f)
  unfolding ◌>>=◌ read on_option
  entry-Keeps {B} id {m = m} {f = f} keyed h k = record {
    apply = λ s p. go s p (view_of id s) refl;
  }
    where
      go :
          (s : Service)
          → P s
          → (e : Option ThreadRecord) → view_of id s ≡ e
          → P (elim e as (λ _. Service × Result B) [ none ↦ m s | some r ↦ f r s ]).0
      go s p none e = h.apply s p
      go s p (some r) e = (k r ((keyed s p).apply id r e)).apply s p

pub both-Keeps :
    {A : Type 0} {P Q : Service → Type 0} {m : Method A}
    → Keeps P m
    → Keeps Q m
    → Keeps (λ s. P s × Q s) m
both-Keeps h k = record { apply = λ s p. (h.apply s p.0, k.apply s p.1) }

pub ruleset steps = (
  >>=-Keeps, >>-Keeps, return-Keeps, throw-Keeps, read-Keeps, branch-Keeps, on_option-Keeps,
  quietly-Keeps,
)
