-- ===== src/Terminals/Durable.antt =====
-- internal/terminals/service.go: a recorded exit, under the phases of a pass.
pub mod Requests
pub mod Minting
use atelier_code.Shared.{
  ℕ, String, Bool, true, false, not, ◌&&◌, ◌||◌, ◌≡◌, refl, sym, ap, ◌∙◌, ◌≢◌, Option, none, some,
  List, [], ◌∷◌, arith, ite, Bool-cases, if-cases, option-cases, String-discrete, is_some, is_empty,
  if◌then◌else◌,
}
use atelier_code.Finite.{lookup, insert, erase, lookup-insert, lookup-erase}
use atelier_code.Terminals.State.{
  Service, Entry, TerminalRecord, Terminal, Texts, Result, done, failed, Error, has, get,
  result-cases,
}
use atelier_code.Terminals.Reconcile.{
  Candidate, Exit, Finding, inspect_all, inspect, inspect_read, inspect_current, current, Report,
  weigh, weigh_exit, record_exit, apply, apply_all, observed_in, publish_updates,
}
use atelier_code.Terminals.Requests.{
  World, Patch, absent, null, value, update, patch_entry, write_changes, write_patch, renamed,
  patched_name, patched_space, live_space, record_stop, stopping, remove_record,
}
use atelier_code.Terminals.Create.{AppLaunch, composed, commit, mint, insert_row, install, unsettle}

-- A key's value through `f`, in a map.
abbrev pub at_key {ℓ} : {V X : Type ℓ} → (V → Option X) → Option V → Option X
at_key f none = none
at_key f (some v) = f v

module _ {V X : Type 0} (f : V → Option X) (id : String) (x : X) where
  pub insert_keeps :
      (k : String) (v : V) (m : List (String × V))
      → at_key f (lookup String-discrete id m) ≡ some x
      → (k ≡ id → f v ≡ some x)
      → at_key f (lookup String-discrete id (insert String-discrete k v m)) ≡ some x
  insert_keeps k v m h g =
      ap (at_key f) (lookup-insert String-discrete k id v m)
      ∙ (elim (String-discrete k id)
          as (λ d. at_key f (ite d (some v) (lookup String-discrete id m)) ≡ some x) [
            | yes e ↦ g e
            | no n ↦ h
          ])

  pub erase_keeps :
      (k : String) (m : List (String × V))
      → k ≢ id
      → at_key f (lookup String-discrete id m) ≡ some x
      → at_key f (lookup String-discrete id (erase String-discrete k m)) ≡ some x
  erase_keeps k m n h =
      ap (at_key f) (lookup-erase String-discrete k id m)
      ∙ (elim (String-discrete k id)
          as (λ d. at_key f (ite d none (lookup String-discrete id m)) ≡ some x) [
            | yes e ↦ absurd (n e)
            | no _ ↦ h
          ])

  -- A replacement of the value that a key has.
  pub replace_keeps :
      (k : String) (v w : V) (m : List (String × V))
      → lookup String-discrete k m ≡ some v
      → (f v ≡ some x → f w ≡ some x)
      → at_key f (lookup String-discrete id m) ≡ some x
      → at_key f (lookup String-discrete id (insert String-discrete k w m)) ≡ some x
  replace_keeps k v w m e g h =
      insert_keeps k w m h
        (λ same. g (ap (at_key f) (sym e ∙ ap (λ j. lookup String-discrete j m) same) ∙ h))

-- A terminal's exit and its code, in the view and in the table.
abbrev pub exit_of : TerminalRecord → Option (ℕ × Option ℕ)
exit_of r = elim r.exited_at [ none ↦ none | some at ↦ some (at, r.exit_code) ]

abbrev pub exit_in : Entry → Option (ℕ × Option ℕ)
exit_in e = exit_of e.record_of

abbrev pub IsShown : String → ℕ × Option ℕ → Service → Type 0
IsShown id x s = at_key exit_in (lookup String-discrete id s.view) ≡ some x

abbrev pub IsStored : String → ℕ × Option ℕ → Service → Type 0
IsStored id x s = at_key exit_of (lookup String-discrete id s.rows) ≡ some x

abbrev pub IsDurable : String → ℕ × Option ℕ → Service → Type 0
IsDurable id x s = IsShown id x s × IsStored id x s

module _ (id : String) (x : ℕ × Option ℕ) where
  record_exit-IsDurable :
      (k : String) (y : Exit) (s : Service) → IsDurable id x s → IsDurable id x (record_exit k y s)
  unfolding record_exit
  record_exit-IsDurable k y s d =
      option-cases (IsDurable id x) (lookup String-discrete k s.rows) (λ e. d)
        (λ r e.
          option-cases (IsDurable id x) r.exited_at
            (λ f. (
              d.0,
              replace_keeps exit_of id x k r _ s.rows e (λ g. absurd (ground (arith, f, g))) d.1,
            ))
            (λ at f. d))

  observed_in-exit :
      (c : Candidate) (e : Entry) → exit_in e ≡ some x → exit_in (observed_in c e) ≡ some x
  unfolding observed_in
  observed_in-exit c e h =
      option-cases (λ r. exit_of r ≡ some x) c.exit (λ f. h)
        (λ y f.
          option-cases (λ r. exit_of r ≡ some x) e.record_of.exited_at
            (λ g. absurd (ground (arith, g, h))) (λ at g. h))

  apply-IsDurable : (c : Candidate) (s : Service) → IsDurable id x s → IsDurable id x (apply c s).0
  unfolding apply
  apply-IsDurable c s d =
      option-cases (λ (y : Service × List String). IsDurable id x y.0)
        (lookup String-discrete c.id s.view) (λ e. d)
        (λ r e.
          if-cases (λ (y : Service × List String). IsDurable id x y.0) _ (λ f. d)
            (λ f. (replace_keeps exit_in id x c.id r _ s.view e (observed_in-exit c r) d.0, d.1)))

  pub apply_all-IsDurable :
      (cs : List Candidate) (s : Service) → IsDurable id x s → IsDurable id x (apply_all cs s).0
  unfolding apply_all
  apply_all-IsDurable [] s d = d
  apply_all-IsDurable (c ∷ cs) s d = apply_all-IsDurable cs (apply c s).0 (apply-IsDurable c s d)

  pub publish_updates-IsDurable :
      (ids : List String) (s : Service) → IsDurable id x s → IsDurable id x (publish_updates ids s)
  unfolding publish_updates
  publish_updates-IsDurable [] s d = d
  publish_updates-IsDurable (k ∷ ks) s d = publish_updates-IsDurable ks _ d

  weigh_exit-IsDurable :
      (w : Finding) (c : Candidate) (r : Report) (o : Option ℕ) (s : Service)
      → IsDurable id x s
      → IsDurable id x (weigh_exit w c r o s).0
  unfolding weigh_exit
  weigh_exit-IsDurable w c r none s d = d
  weigh_exit-IsDurable w c r (some at) s d =
      if-cases (λ (y : Service × Candidate). IsDurable id x y.0) w.refuses (λ e. d)
        (λ e. record_exit-IsDurable c.id _ s d)

  inspect_current-IsDurable :
      (w : Finding) (c : Candidate) (o : Option Report) (s : Service)
      → IsDurable id x s
      → IsDurable id x (inspect_current w c o s).0
  unfolding inspect_current weigh
  inspect_current-IsDurable w c none s d =
      if-cases (λ (y : Service × Candidate). IsDurable id x y.0) c.is_absent (λ e. d) (λ e. d)
  inspect_current-IsDurable w c (some r) s d =
      if-cases (λ (y : Service × Candidate). IsDurable id x y.0) c.is_absent
        (λ e. weigh_exit-IsDurable w _ r r.exited_at s d) (λ e. d)

  inspect_read-IsDurable :
      (w : Finding) (c : Candidate) (o : Option (Option Report)) (s : Service)
      → IsDurable id x s
      → IsDurable id x (inspect_read w c o s).0
  unfolding inspect_read
  inspect_read-IsDurable w c none s d = d
  inspect_read-IsDurable w c (some r) s d = inspect_current-IsDurable w c (current c r) s d

  pub inspect_all-IsDurable :
      (w : String → Finding) (cs : List Candidate) (s : Service)
      → IsDurable id x s
      → IsDurable id x (inspect_all w cs s).0
  unfolding inspect_all inspect
  inspect_all-IsDurable w [] s d = d
  inspect_all-IsDurable w (c ∷ cs) s d =
      inspect_all-IsDurable w cs _ (inspect_read-IsDurable (w c.id) c (w c.id).report s d)
