-- ===== src/Threads/Backed/Minting.antt =====
-- internal/threads/service.go, `insert` and `createObserved`: a new thread is in the table and in the
-- view, or in neither.
use atelier_code.Shared.{
  String, Bool, true, false, ◌≡◌, refl, ◌⊎◌, inl, inr, none, some, List, [], ◌∷◌, arith,
  String-discrete, Option-cases, Bool-cases, is_some, if◌then◌else◌,
}
use atelier_code.Finite.{lookup, insert, lookup-insert}
use atelier_code.Threads.Record.{ThreadRecord}
use atelier_code.Threads.State.{
  IdentityKey, IdentityKey-discrete, Service, World, Method, Result, Error, ok, err, already_mapped,
  write_columns, ◌>>=◌, ◌>>◌, return, throw, branch, modify, view_of, row_of, insert_observed,
}
use atelier_code.Threads.Sessions.{install, insert_thread}
use atelier_code.Threads.Backed.{IsStored}

-- The table and the view after an insertion that succeeds.
abbrev inserted_state : ThreadRecord → IdentityKey → Service → Service
inserted_state r key s = record s {
  rows = insert String-discrete r.id r s.rows;
  identity_rows = insert IdentityKey-discrete key r.id s.identity_rows;
}

insert_observed_cases :
    (w : World) (r : ThreadRecord) (key : IdentityKey) (s : Service)
    → (((insert_observed w r key s).0 ≡ s)
        × (((insert_observed w r key s).1 ≡ ok false)
            ⊎ ((e : Error) × ((insert_observed w r key s).1 ≡ err e))))
      ⊎ ((row_of r.id s ≡ none)
          × ((insert_observed w r key s).0 ≡ inserted_state r key s)
          × ((insert_observed w r key s).1 ≡ ok true))
unfolding insert_observed
insert_observed_cases w r key s = elim (Option-cases (w.refuse r)) [
  | inr (x, f) ↦ inl (ground arith, inr (x, ground arith))
  | inl f ↦ elim (Option-cases (row_of r.id s)) [
    | inr (row, e) ↦ inl (ground arith, inl (ground arith))
    | inl e ↦ elim (Bool-cases (is_some (lookup IdentityKey-discrete key s.identity_rows))) [
      | inl g ↦ inl (ground arith, inr (already_mapped r.id, ground arith))
      | inr g ↦ inr (e, ground arith, ground arith)
    ]
  ]
]

same_columns : (r : ThreadRecord) → write_columns r r ≡ r
unfolding write_columns
same_columns r = refl

inserted :
    (r : ThreadRecord) (key : IdentityKey) (s : Service)
    → IsStored s
    → IsStored (install r key (inserted_state r key s))
unfolding install
inserted r key s p = record {
  keyed = λ j x e. ground (arith, lookup-insert String-discrete r.id j r s.view, p.keyed j x);
  backed = λ j. ground (
    arith,
    lookup-insert String-discrete r.id j r s.view,
    lookup-insert String-discrete r.id j r s.rows,
    p.backed j,
    same_columns r,
  );
}

-- The view and the table agree, and the view shows a thread that was minted.
pub record IsMinted (t : Service × Result ThreadRecord) : Type 0 where
  pub stored : IsStored t.0
  pub shown : (m : ThreadRecord) → t.1 ≡ ok m → view_of m.id t.0 ≡ some m

installed :
    (r : ThreadRecord) (key : IdentityKey) (s : Service)
    → IsStored s
    → IsMinted (install r key (inserted_state r key s), ok r)
unfolding install
installed r key s p = record {
  stored = inserted r key s p;
  shown = λ m e. ground (arith, lookup-insert String-discrete r.id m.id r s.view);
}

-- One draw: the rest is tried on a draw that is taken.
draw-IsMinted :
    (w : World) (r : ThreadRecord) (key : IdentityKey) (again : Method ThreadRecord) (s : Service)
    → IsStored s
    → IsMinted (again s)
    → IsMinted (
        (do free ← insert_observed w r key; branch free (do modify (install r key); return r) again)
          s)
unfolding ◌>>=◌ ◌>>◌ branch modify return
draw-IsMinted w r key again s p next =
    go (insert_observed w r key s).0 (insert_observed w r key s).1 (insert_observed_cases w r key s)
  where
    go :
        (t : Service) (res : Result Bool)
        → ((t ≡ s) × ((res ≡ ok false) ⊎ ((e : Error) × (res ≡ err e))))
          ⊎ ((row_of r.id s ≡ none) × (t ≡ inserted_state r key s) × (res ≡ ok true))
        → IsMinted (elim res as (λ _. Service × Result ThreadRecord) [
          | ok b ↦ if b then (install r key t, ok r) else again t
          | err e ↦ (t, err e)
        ])
    go t (ok true) (inl (_, inl e)) = absurd (ground arith)
    go t (ok true) (inl (_, inr (x, e))) = absurd (ground arith)
    go t (ok true) (inr (_, e, _)) = rw e (installed r key s p)
    go t (ok false) (inl (e, _)) = rw e next
    go t (ok false) (inr (_, _, e)) = absurd (ground arith)
    go t (err x) (inl (e, _)) = rw e (record { stored = p; shown = λ m q. absurd (ground arith) })
    go t (err x) (inr (_, _, e)) = absurd (ground arith)

pub insert_thread-IsMinted :
    (w : World) (ids : List String) (r : ThreadRecord) (key : IdentityKey) (s : Service)
    → IsStored s
    → IsMinted (insert_thread w ids r key s)
unfolding insert_thread throw
insert_thread-IsMinted w [] r key s p = record { stored = p; shown = λ m e. ground arith }
insert_thread-IsMinted w (id ∷ ids) r key s p =
    draw-IsMinted w (record r { id = id }) key (insert_thread w ids r key) s p
      (insert_thread-IsMinted w ids r key s p)
