-- ===== src/Threads/Backed.antt =====
-- internal/threads/service.go and internal/store/threads.go: every mutation persists before it changes
-- the view, so the view says nothing that the database refused.
pub mod Steps
pub mod Minting
use atelier_code.Shared.{
  ℕ, String, Bool, true, false, ◌≡◌, refl, sym, ◌∙◌, ◌⊎◌, ◌≢◌, inl, inr, ite, Option, none, some,
  List, [], ◌∷◌, arith, String-discrete, Option-cases, Bool-cases,
}
use atelier_code.Finite.{lookup, insert, erase, lookup-insert, lookup-erase}
use atelier_code.Threads.Record.{ThreadStatus, ThreadRecord}
use atelier_code.Threads.Keeps.{
  Keeps, IsKeyed, steps, >>=-Keeps, >>-Keeps, branch-Keeps, return-Keeps, throw-Keeps,
}
use atelier_code.Threads.State.{
  IdentityKey, IdentityKey-discrete, Service, World, Method, ProjectRecord, Result, ok, err, ◌>>=◌,
  ◌>>◌, return, branch, modify, view_of, row_of, assign_view, write_columns, update_row,
  insert_observed,
}
use atelier_code.Threads.Observe.{save}

-- A view entry and a row agree on every column that updates write.
abbrev pub Agrees : Option ThreadRecord → Option ThreadRecord → Type 0
Agrees none none = Unit {0}
Agrees (some r) (some row) = write_columns row r ≡ row
Agrees _ _ = ⊥

-- The view and the table hold the same threads, each entry under its own id.
pub record IsStored (s : Service) : Type 0 where
  pub keyed : (id : String) (r : ThreadRecord) → view_of id s ≡ some r → r.id ≡ id
  pub backed : (id : String) → Agrees (view_of id s) (row_of id s)

written :
    (w : World) (id : String) (r row : ThreadRecord) (s : Service)
    → r.id ≡ id
    → IsStored s
    → IsStored (record s {
      rows = insert String-discrete r.id (write_columns row r) s.rows;
      view = insert String-discrete id r s.view;
    })
unfolding write_columns
written w id r row s same p = record {
  keyed = λ j x e. ground (arith, lookup-insert String-discrete id j r s.view, p.keyed j x);
  backed = λ j. ground (
    arith,
    lookup-insert String-discrete id j r s.view,
    lookup-insert String-discrete r.id j (write_columns row r) s.rows,
    p.backed j,
  );
}

save_cases :
    (w : World) (id : String) (r : ThreadRecord) (s : Service)
    → IsStored s
    → r.id ≡ id
    → ((save w id r s).0 ≡ s)
      ⊎ ((row : ThreadRecord) × (row_of r.id s ≡ some row)
          × ((save w id r s).0 ≡ record s {
            rows = insert String-discrete r.id (write_columns row r) s.rows;
            view = insert String-discrete id r s.view;
          }))
unfolding save update_row assign_view ◌>>=◌ ◌>>◌ return branch
save_cases w id r s p same = elim (Option-cases (row_of r.id s)) [
  | inl e ↦ inl (ground arith)
  | inr (row, e) ↦ elim (Option-cases (w.refuse r)) [
    | inl f ↦ inr (row, e, ground (arith, p.backed id))
    | inr (x, f) ↦ inl (ground arith)
  ]
]

pub save-IsStored :
    (w : World) (id : String) (r : ThreadRecord) → r.id ≡ id → Keeps IsStored (save w id r)
save-IsStored w id r same = record {
  apply = λ s p. elim (save_cases w id r s p same) [
    | inl e ↦ rw e p
    | inr (row, old, e) ↦ rw e (written w id r row s same p)
  ];
}

-- The row of a thread holds `r` already, and the view is still to take it.
pub record IsWritten (r : ThreadRecord) (s : Service) : Type 0 where
  pub keyed : (id : String) (x : ThreadRecord) → view_of id s ≡ some x → x.id ≡ id
  pub others : (id : String) → id ≢ r.id → Agrees (view_of id s) (row_of id s)
  pub row : Agrees (some r) (row_of r.id s)
  pub present : view_of r.id s ≢ none

pub assign_view-IsStored :
    (r : ThreadRecord) (s : Service) → IsWritten r s → IsStored (assign_view r.id r s).0
unfolding assign_view
assign_view-IsStored r s h = elim (Option-cases (view_of r.id s)) [
  | inl e ↦ absurd (h.present e)
  | inr (x, e) ↦
      rw (e, assign_view)
        (record {
          keyed =
              λ j y f. ground (arith, lookup-insert String-discrete r.id j r s.view, h.keyed j y);
          backed = λ j. elim (String-discrete r.id j) [
            | yes q ↦ ground (arith, lookup-insert String-discrete r.id j r s.view, h.row)
            | no n ↦
                ground (
                  arith,
                  lookup-insert String-discrete r.id j r s.view,
                  h.others j (λ q. n (sym q)),
                )
          ];
        })
]

pub IsStored-IsWritten :
    (r : ThreadRecord) (s : Service) → IsStored s → view_of r.id s ≡ some r → IsWritten r s
IsStored-IsWritten r s p e = record {
  keyed = p.keyed;
  others = λ j n. p.backed j;
  row = rw e at (p.backed r.id);
  present = λ f. ground arith;
}

row-IsWritten :
    (r row : ThreadRecord) (s : Service)
    → row_of r.id s ≡ some row
    → IsStored s
    → IsWritten r (record s { rows = insert String-discrete r.id (write_columns row r) s.rows })
unfolding write_columns
row-IsWritten r row s e p = record {
  keyed = p.keyed;
  others = λ j n.
      ground
        (arith, lookup-insert String-discrete r.id j (write_columns row r) s.rows, n, p.backed j);
  row = ground (arith, lookup-insert String-discrete r.id r.id (write_columns row r) s.rows);
  present = λ f. ground (arith, p.backed r.id);
}

pub update_row_cases :
    (w : World) (r : ThreadRecord) (s : Service)
    → IsStored s
    → (((update_row w r s).0 ≡ s) × ((update_row w r s).1 ≢ ok true))
      ⊎ (((update_row w r s).1 ≡ ok true) × IsWritten r (update_row w r s).0)
unfolding update_row
update_row_cases w r s p = elim (Option-cases (row_of r.id s)) [
  | inl e ↦ inl (ground arith, ground arith)
  | inr (row, e) ↦ elim (Option-cases (w.refuse r)) [
    | inl f ↦
        inr (ground arith, rw (f, update_row) (rw (e, update_row) (row-IsWritten r row s e p)))
    | inr (x, f) ↦ inl (ground arith, ground arith)
  ]
]

-- The rest of a method, from the state that its first step leaves.
pub after_step :
    {A B : Type 0} (P : Service → Type 0) (m : Method A) (f : A → Method B) (s : Service)
    → P (m s).0
    → ((a : A) → (m s).1 ≡ ok a → P (f a (m s).0).0)
    → P ((m >>= f) s).0
unfolding ◌>>=◌
after_step {A} {B} P m f s h k = go (m s).1 refl
  where
    go :
        (r : Result A)
        → (m s).1 ≡ r
        → P
            (elim r as (λ _. Service × Result B) [
              | ok a ↦ f a (m s).0
              | err e ↦ ((m s).0, err e)
            ]).0
    go (ok a) e = k a e
    go (err x) e = h

pub after_ok :
    {A B : Type 0} (P : Service → Type 0) (m : Method A) (f : A → Method B) (s : Service) (a : A)
    → (m s).1 ≡ ok a
    → P (f a (m s).0).0
    → P ((m >>= f) s).0
unfolding ◌>>=◌
after_ok {B = B} P m f s a e h = rw (e, ◌>>=◌) h
