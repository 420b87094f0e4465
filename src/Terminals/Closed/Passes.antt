-- ===== src/Terminals/Closed/Passes.antt =====
-- internal/terminals: the terminals of a space under a pass.
use atelier_code.Shared.{
  ℕ, ℕ_discrete, String, true, ◌||◌, ◌≡◌, refl, sym, ap, ◌∙◌, Option, none, some, List, [], ◌∷◌,
  ite, if-cases, option-cases, String-discrete, is_some, differ,
}
use atelier_code.Finite.{lookup, insert, lookup-insert}
use atelier_code.Terminals.State.{Service, Entry, TerminalRecord, Result, has}
use atelier_code.Terminals.Reconcile.{
  Candidate, Finding, inspect_all, inspect, inspect_read, inspect_current, current, weigh,
  weigh_exit, Report, record_exit, Exit, apply, apply_all, observed_in, publish_updates,
}
use atelier_code.Terminals.Create.{unsettle}
use atelier_code.Terminals.Spaces.{mark_deleting}
use atelier_code.Terminals.Closed.{Shrinks, same-Shrinks, then-Shrinks, replaced-Shrinks}

module _ (space : String) where
  record_exit-Shrinks : (k : String) (y : Exit) (s : Service) → Shrinks space s (record_exit k y s)
  unfolding record_exit
  record_exit-Shrinks k y s =
      option-cases (Shrinks space s) (lookup String-discrete k s.rows)
        (λ e. same-Shrinks space s s refl refl refl)
        (λ r e.
          option-cases (Shrinks space s) r.exited_at (λ f. same-Shrinks space s _ refl refl refl)
            (λ at f. same-Shrinks space s s refl refl refl))

  observed_in-space :
      (c : Candidate) (e : Entry) → (observed_in c e).record_of.space_id ≡ e.record_of.space_id
  unfolding observed_in
  observed_in-space c e =
      option-cases (λ (r : TerminalRecord). r.space_id ≡ e.record_of.space_id) c.exit (λ f. refl)
        (λ y f.
          option-cases (λ (r : TerminalRecord). r.space_id ≡ e.record_of.space_id)
            e.record_of.exited_at (λ g. refl) (λ at g. refl))

  apply-Shrinks : (c : Candidate) (s : Service) → Shrinks space s (apply c s).0
  unfolding apply
  apply-Shrinks c s =
      option-cases (λ (y : Service × List String). Shrinks space s y.0)
        (lookup String-discrete c.id s.view) (λ e. same-Shrinks space s s refl refl refl)
        (λ r e.
          if-cases (λ (y : Service × List String). Shrinks space s y.0)
            (differ ℕ_discrete r.record_of.created_at c.created_at || has c.id s.settling)
            (λ f. same-Shrinks space s s refl refl refl)
            (λ f.
              replaced-Shrinks space c.id r (observed_in c r) s
                (record s { view = insert String-discrete c.id (observed_in c r) s.view }) e
                (λ g. sym (observed_in-space c r) ∙ g) refl refl refl))

  pub apply_all-Shrinks : (cs : List Candidate) (s : Service) → Shrinks space s (apply_all cs s).0
  unfolding apply_all
  apply_all-Shrinks [] s = same-Shrinks space s s refl refl refl
  apply_all-Shrinks (c ∷ cs) s =
      then-Shrinks space s (apply c s).0 _ (apply-Shrinks c s) (apply_all-Shrinks cs (apply c s).0)

  pub publish_updates-Shrinks :
      (ids : List String) (s : Service) → Shrinks space s (publish_updates ids s)
  unfolding publish_updates
  publish_updates-Shrinks [] s = same-Shrinks space s s refl refl refl
  publish_updates-Shrinks (k ∷ ks) s =
      then-Shrinks space s _ _ (same-Shrinks space s _ refl refl refl)
        (publish_updates-Shrinks ks _)

  inspect-Shrinks : (w : Finding) (c : Candidate) (s : Service) → Shrinks space s (inspect w c s).0
  unfolding inspect inspect_read inspect_current weigh weigh_exit
  inspect-Shrinks w c s = read w.report
    where
      weighed :
          (c : Candidate) (r : Report) (o : Option ℕ) → Shrinks space s (weigh_exit w c r o s).0
      weighed c r none = same-Shrinks space s s refl refl refl
      weighed c r (some at) =
          if-cases (λ (y : Service × Candidate). Shrinks space s y.0) w.refuses
            (λ e. same-Shrinks space s s refl refl refl) (λ e. record_exit-Shrinks c.id _ s)

      inspected : (o : Option Report) → Shrinks space s (inspect_current w c o s).0
      inspected none =
          if-cases (λ (y : Service × Candidate). Shrinks space s y.0) c.is_absent
            (λ e. same-Shrinks space s s refl refl refl)
            (λ e. same-Shrinks space s s refl refl refl)
      inspected (some r) =
          if-cases (λ (y : Service × Candidate). Shrinks space s y.0) c.is_absent
            (λ e. weighed (record c { process = r.process }) r r.exited_at)
            (λ e. same-Shrinks space s s refl refl refl)

      read : (o : Option (Option Report)) → Shrinks space s (inspect_read w c o s).0
      read none = same-Shrinks space s s refl refl refl
      read (some r) = inspected (current c r)

  pub inspect_all-Shrinks :
      (w : String → Finding) (cs : List Candidate) (s : Service)
      → Shrinks space s (inspect_all w cs s).0
  unfolding inspect_all
  inspect_all-Shrinks w [] s = same-Shrinks space s s refl refl refl
  inspect_all-Shrinks w (c ∷ cs) s =
      then-Shrinks space s (inspect (w c.id) c s).0 _ (inspect-Shrinks (w c.id) c s)
        (inspect_all-Shrinks w cs (inspect (w c.id) c s).0)

  pub unsettle-Shrinks : (k : String) (s : Service) → Shrinks space s (unsettle k s)
  unfolding unsettle
  unsettle-Shrinks k s = same-Shrinks space s _ refl refl refl

  has-insert :
      (k : String) (m : List {0} (String × Unit))
      → has space m ≡ true
      → has space (insert String-discrete k tt m) ≡ true
  has-insert k m h =
      ap is_some (lookup-insert String-discrete k space tt m)
      ∙ (elim (String-discrete k space)
          as (λ d. is_some (ite d (some tt) (lookup String-discrete space m)) ≡ true) [
            | yes e ↦ refl
            | no n ↦ h
          ])

  pub mark_deleting-Shrinks : (k : String) (s : Service) → Shrinks space s (mark_deleting k s).0
  unfolding mark_deleting
  mark_deleting-Shrinks k s =
      option-cases (λ (y : Service × Result (List String)). Shrinks space s y.0)
        (lookup String-discrete k s.space_view) (λ e. same-Shrinks space s s refl refl refl)
        (λ r e.
          if-cases (λ (y : Service × Result (List String)). Shrinks space s y.0) r.is_default
            (λ f. same-Shrinks space s s refl refl refl)
            (λ f. record {
              view_kept = refl;
              mark_kept = has-insert k s.deleting_spaces;
              fewer = λ j h. h;
            }))
