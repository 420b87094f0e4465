-- ===== src/Threads/Resuming/Linking.antt =====
-- internal/threads/service.go, `link`: either the thread shows the terminal, or nothing has changed.
use atelier_code.Shared.{
  String, Bool, true, false, ◌≡◌, refl, ap, ◌∙◌, ◌⊎◌, ◌≢◌, inl, inr, Option, none, some, arith, ◌∷◌,
  String-discrete, Option-cases, if-cases,
}
use atelier_code.Finite.{insert, lookup-insert}
use atelier_code.Threads.Record.{ThreadRecord}
use atelier_code.Threads.State.{
  Service, World, Result, Error, ok, err, not_found, thread_updated, ◌>>=◌, ◌>>◌, return, throw,
  read, branch, on_option, publish, modify, view_of, row_of, update_row, assign_view,
}
use atelier_code.Threads.Observe.{save}
use atelier_code.Threads.Opening.{link, linked}

-- Why a record cannot be written: it has no row, or the database refuses.
abbrev pub IsUnwritable : World → ThreadRecord → Service → Type 0
IsUnwritable w r s = (row_of r.id s ≡ none) ⊎ ((e : Error) × (w.refuse r ≡ some e))

update_row_cases :
    (w : World) (r : ThreadRecord) (s : Service)
    → let (t, x) = update_row w r s in
      ((x ≡ ok true) × (t ≡ record s { rows = t.rows }))
      ⊎ ((x ≢ ok true) × (t ≡ s) × IsUnwritable w r s)
unfolding update_row
update_row_cases w r s = elim (Option-cases (w.refuse r)) [
  | inr (e, g) ↦ inr (ground arith, ground arith, inr (e, g))
  | inl g ↦ elim (Option-cases (row_of r.id s)) [
    | inl h ↦ inr (ground arith, ground arith, inl h)
    | inr (row, h) ↦ inl (ground arith, ground arith)
  ]
]

-- The record is in the view, and nothing else of the view changed.
abbrev IsSaved : World → String → ThreadRecord → Service → Service × Result Bool → Type 0
IsSaved w id r s (t, x) =
    ((x ≡ ok true) × (t ≡ record s { rows = t.rows; view = insert String-discrete id r s.view }))
    ⊎ ((x ≢ ok true) × (t ≡ s) × IsUnwritable w r s)

save-IsSaved :
    (w : World) (id : String) (r old : ThreadRecord) (s : Service)
    → view_of id s ≡ some old
    → IsSaved w id r s (save w id r s)
unfolding save ◌>>=◌ ◌>>◌ branch return assign_view
save-IsSaved w id r old s h = go (update_row w r s).0 (update_row w r s).1 (update_row_cases w r s)
  where
    go :
        (t : Service) (x : Result Bool)
        → ((x ≡ ok true) × (t ≡ record s { rows = t.rows }))
          ⊎ ((x ≢ ok true) × (t ≡ s) × IsUnwritable w r s)
        → IsSaved w id r s (elim x as (λ _. Service × Result Bool) [
          | ok b ↦ (branch b (do assign_view id r; return true) (return false)) t
          | err e ↦ (t, err e)
        ])
    go t (err e) (inl (f, _)) = absurd (ground arith)
    go t (err e) (inr (n, same, why)) = inr (ground arith, same, why)
    go t (ok false) (inl (f, _)) = absurd (ground arith)
    go t (ok false) (inr (n, same, why)) = inr (ground arith, same, why)
    go t (ok true) (inr (n, _, _)) = absurd (n refl)
    go t (ok true) (inl (_, same)) = inl (ground (arith, h, same), ground (arith, h, same))

linked_same :
    (r : ThreadRecord) (t : String)
    → (linked r t).1 ≡ false
    → (r.terminal_id ≡ some t) × (r.archived ≡ false)
unfolding linked
linked_same r t h = elim (Option-cases r.terminal_id) [
  | inl e ↦ absurd (ground (arith, e, h))
  | inr (old, e) ↦ (ground (arith, e, h), ground (arith, e, h))
]

linked_fields :
    (r : ThreadRecord) (t : String)
    → ((linked r t).0.terminal_id ≡ some t)
      × ((linked r t).0.archived ≡ false)
      × ((linked r t).0.id ≡ r.id)
unfolding linked
linked_fields r t = (refl, refl, refl)

-- The thread shows the terminal and is unarchived; no other thread's entry in the view changed, and
-- outside the view, its row and the events nothing did.
pub record ShowsTerminal (id t : String) (s u : Service) : Type 0 where
  pub thread : ThreadRecord
  pub shown : view_of id u ≡ some thread
  pub terminal : thread.terminal_id ≡ some t
  pub unarchived : thread.archived ≡ false
  pub others : (j : String) → j ≢ id → view_of j u ≡ view_of j s
  pub frame : record u { rows = s.rows; view = s.view; published = s.published } ≡ s

-- Why a thread cannot be linked: it is unknown, or its record cannot be written.
abbrev pub IsUnlinkable : World → String → Service → Type 0
IsUnlinkable w id s =
    (view_of id s ≡ none)
    ⊎ ((old r : ThreadRecord) × (view_of id s ≡ some old) × (r.id ≡ old.id) × IsUnwritable w r s)

abbrev pub IsLinked : World → String → String → Service → Service × Result (Unit {0}) → Type 0
IsLinked w id t s (u, x) =
    ((x ≡ ok tt) × ShowsTerminal id t s u) ⊎ ((x ≢ ok tt) × (u ≡ s) × IsUnlinkable w id s)

written-ShowsTerminal :
    (id t : String) (r : ThreadRecord) (s u : Service)
    → r.terminal_id ≡ some t
    → r.archived ≡ false
    → u ≡ record s { rows = u.rows; view = insert String-discrete id r s.view }
    → ShowsTerminal id t s (record u { published = thread_updated id ∷ u.published })
written-ShowsTerminal id t r s u terminal unarchived same = record {
  thread = r;
  shown =
      ap (λ x. view_of id x) same ∙ ground (arith, lookup-insert String-discrete id id r s.view);
  terminal = terminal;
  unarchived = unarchived;
  others = λ j n.
      ap (λ x. view_of j x) same ∙ ground (arith, n, lookup-insert String-discrete id j r s.view);
  frame =
      ap (λ (x : Service). record x { rows = s.rows; view = s.view; published = s.published }) same;
}

relink-IsLinked :
    (w : World) (id t : String) (old r : ThreadRecord) (s : Service)
    → view_of id s ≡ some old
    → r.terminal_id ≡ some t
    → r.archived ≡ false
    → r.id ≡ old.id
    → IsLinked w id t s (
        (do updated ← save w id r; branch updated (publish (thread_updated id)) (throw not_found))
          s)
unfolding ◌>>=◌ branch throw publish modify
relink-IsLinked w id t old r s h terminal unarchived same_id =
    go (save w id r s).0 (save w id r s).1 (save-IsSaved w id r old s h)
  where
    go :
        (u : Service) (x : Result Bool)
        → IsSaved w id r s (u, x)
        → IsLinked w id t s (elim x as (λ _. Service × Result (Unit {0})) [
          | ok b ↦ (branch b (publish (thread_updated id)) (throw not_found)) u
          | err e ↦ (u, err e)
        ])
    go u (err e) (inl (f, _)) = absurd (ground arith)
    go u (err e) (inr (n, same, why)) = inr (ground arith, same, inr (old, r, h, same_id, why))
    go u (ok false) (inl (f, _)) = absurd (ground arith)
    go u (ok false) (inr (n, same, why)) = inr (ground arith, same, inr (old, r, h, same_id, why))
    go u (ok true) (inr (n, _, _)) = absurd (n refl)
    go u (ok true) (inl (_, same)) =
        inl (refl, written-ShowsTerminal id t r s u terminal unarchived same)

known-IsLinked :
    (w : World) (id t : String) (old : ThreadRecord) (s : Service)
    → view_of id s ≡ some old
    → IsLinked w id t s (
        (branch
            ((linked old t).1)
            (do
              updated ← save w id (record (linked old t).0 { updated_at = w.now })
              branch updated (publish (thread_updated id)) (throw not_found))
            (return tt))
          s)
unfolding branch return
known-IsLinked w id t old s h =
    let (terminal, unarchived, same_id) = linked_fields old t in
    if-cases (IsLinked w id t s) ((linked old t).1)
      (λ e.
        relink-IsLinked w id t old (record (linked old t).0 { updated_at = w.now }) s h terminal
          unarchived same_id)
      (λ e.
        let (shows, open_again) = linked_same old t e in
        inl (
          refl,
          record {
            thread = old;
            shown = h;
            terminal = shows;
            unarchived = open_again;
            others = λ j n. refl;
            frame = refl;
          },
        ))

-- A link that succeeds leaves the thread showing the terminal; one that fails changes nothing, and the
-- thread is unknown or its record cannot be written.
pub link-IsLinked : (w : World) (id t : String) (s : Service) → IsLinked w id t s (link w id t s)
unfolding link ◌>>=◌ read on_option throw
link-IsLinked w id t s = go (view_of id s) refl
  where
    go :
        (o : Option ThreadRecord)
        → view_of id s ≡ o
        → IsLinked w id t s (
            (on_option o (throw not_found) λ r.
                branch
                  ((linked r t).1)
                  (do
                    updated ← save w id (record (linked r t).0 { updated_at = w.now })
                    branch updated (publish (thread_updated id)) (throw not_found))
                  (return tt))
              s)
    go none e = inr (ground arith, refl, inl e)
    go (some old) e = known-IsLinked w id t old s e
