-- ===== src/Terminals/Closed.antt =====
-- internal/terminals: what a call makes of the terminals of a space.
pub mod Passes
pub mod Requests
pub mod Minting
use atelier_code.Shared.{
  ℕ, ℕ_discrete, String, Bool, true, false, not, ◌&&◌, ◌||◌, ◌≡◌, refl, sym, ap, subst, ◌∙◌, ◌≢◌,
  Option, none, some, List, [], ◌∷◌, arith, ite, if-cases, option-cases, String-discrete, is_some,
  differ, if◌then◌else◌,
}
use atelier_code.Finite.{lookup, insert, erase, lookup-insert, lookup-erase}
use atelier_code.Terminals.State.{
  Service, Entry, TerminalRecord, SpaceRecord, Terminal, Texts, Result, done, failed, Error, has,
  result-cases,
}
use atelier_code.Terminals.Reconcile.{
  Candidate, Finding, inspect_all, inspect, inspect_read, inspect_current, current, weigh,
  weigh_exit, Report, record_exit, Exit, apply, apply_all, observed_in, publish_updates,
}
use atelier_code.Terminals.Requests.{
  World, Patch, absent, null, value, update, patch_entry, write_changes, write_patch, live_space,
  patched_space, patched_name, renamed, record_stop, remove_record,
}
use atelier_code.Terminals.Create.{AppLaunch, composed, commit, mint, insert_row, install, unsettle}
use atelier_code.Terminals.Spaces.{mark_deleting}

-- A terminal of the space, in the view.
abbrev pub space_in : Option Entry → Option String
space_in none = none
space_in (some e) = some e.record_of.space_id

abbrev pub space_at : String → List (String × Entry) → Option String
space_at k m = space_in (lookup String-discrete k m)

module _ (space : String) where
  -- What a call may make of the space's terminals.
  pub record Shrinks (s t : Service) : Type 0 where
    pub view_kept : t.space_view ≡ s.space_view
    pub mark_kept : has space s.deleting_spaces ≡ true → has space t.deleting_spaces ≡ true
    pub fewer : (k : String) → space_at k t.view ≡ some space → space_at k s.view ≡ some space

  pub same-Shrinks :
      (s t : Service)
      → t.space_view ≡ s.space_view
      → t.deleting_spaces ≡ s.deleting_spaces
      → t.view ≡ s.view
      → Shrinks s t
  same-Shrinks s t e f g = record {
    view_kept = e;
    mark_kept = λ h. ap (has space) f ∙ h;
    fewer = λ k h. ap (space_at k) (sym g) ∙ h;
  }

  pub space_at-insert :
      (c k : String) (e : Entry) (m : List (String × Entry))
      → space_at k (insert String-discrete c e m) ≡ some space
      → (c ≡ k → e.record_of.space_id ≡ space → space_at k m ≡ some space)
      → space_at k m ≡ some space
  space_at-insert c k e m h f =
      (elim (String-discrete c k)
          as (λ d.
            space_in (ite d (some e) (lookup String-discrete k m)) ≡ some space
            → space_at k m ≡ some space) [ yes same ↦ λ g. f same (cc g) | no n ↦ λ g. g ])
        (ap space_in (sym (lookup-insert String-discrete c k e m)) ∙ h)

  pub space_at-erase :
      (c k : String) (m : List (String × Entry))
      → space_at k (erase String-discrete c m) ≡ some space
      → space_at k m ≡ some space
  space_at-erase c k m h =
      (elim (String-discrete c k)
          as (λ d.
            space_in (ite d none (lookup String-discrete k m)) ≡ some space
            → space_at k m ≡ some space) [ yes same ↦ λ g. absurd (cc g) | no n ↦ λ g. g ])
        (ap space_in (sym (lookup-erase String-discrete c k m)) ∙ h)

  pub space_at-replace :
      (c k : String) (e f : Entry) (m : List (String × Entry))
      → lookup String-discrete c m ≡ some e
      → (f.record_of.space_id ≡ space → e.record_of.space_id ≡ space)
      → space_at k (insert String-discrete c f m) ≡ some space
      → space_at k m ≡ some space
  space_at-replace c k e f m l g h =
      space_at-insert c k f m h
        (λ same i. ap (λ j. space_at j m) (sym same) ∙ ap space_in l ∙ ap some (g i))

  pub then-Shrinks : (s t u : Service) → Shrinks s t → Shrinks t u → Shrinks s u
  then-Shrinks s t u a b = record {
    view_kept = b.view_kept ∙ a.view_kept;
    mark_kept = λ h. b.mark_kept (a.mark_kept h);
    fewer = λ k h. a.fewer k (b.fewer k h);
  }

  -- An entry replaced by one of the same space.
  pub replaced-Shrinks :
      (k : String) (e f : Entry) (s t : Service)
      → lookup String-discrete k s.view ≡ some e
      → (f.record_of.space_id ≡ space → e.record_of.space_id ≡ space)
      → t.space_view ≡ s.space_view
      → t.deleting_spaces ≡ s.deleting_spaces
      → t.view ≡ insert String-discrete k f s.view
      → Shrinks s t
  replaced-Shrinks k e f s t l g a b c = record {
    view_kept = a;
    mark_kept = λ h. ap (has space) b ∙ h;
    fewer = λ j h. space_at-replace k j e f s.view l g (ap (space_at j) (sym c) ∙ h);
  }

  -- The space is marked, and the spaces' view has every space under its own id.
  pub record IsClosed (s : Service) : Type 0 where
    pub marked : has space s.deleting_spaces ≡ true
    pub keyed :
        (v : String) (r : SpaceRecord) → lookup String-discrete v s.space_view ≡ some r → r.id ≡ v

  pub live_space-other :
      (v : String) (s : Service) (r : SpaceRecord)
      → IsClosed s
      → live_space v s ≡ done r
      → (v ≢ space) × (r.id ≡ v)
  unfolding live_space
  live_space-other v s r c =
      option-cases (λ (o : Result SpaceRecord). o ≡ done r → (v ≢ space) × (r.id ≡ v))
        (lookup String-discrete v s.space_view) (λ e h. absurd (cc h))
        (λ q e.
          if-cases (λ (o : Result SpaceRecord). o ≡ done r → (v ≢ space) × (r.id ≡ v))
            (has v s.deleting_spaces) (λ f h. absurd (cc h))
            (λ f h.
              let same : q ≡ r = cc h in
              (
                λ g. absurd (ground (arith, f, c.marked, ap (λ j. has j s.deleting_spaces) g)),
                ap (λ (p : SpaceRecord). p.id) (sym same) ∙ c.keyed v q e,
              )))
