-- ===== src/Threads/Loading/Rows.antt =====
-- internal/threads/service.go, `Load`: the rows that it leaves, or the write that was refused.
use atelier_code.Shared.{
  String, true, false, ◌≡◌, refl, ◌⊎◌, ◌≢◌, inl, inr, Option, none, some, List, [], ◌∷◌, arith,
  String-discrete, Option-cases, Bool-cases, OnSome, is_some, ite, ap, ◌∙◌,
}
use atelier_code.Finite.{lookup, insert, lookup-insert}
use atelier_code.Threads.Record.{ThreadRecord}
use atelier_code.Threads.Record.{is_live}
use atelier_code.Threads.Turns.{is_running}
use atelier_code.Threads.Evidence.{coerce_record, coerce_status, coerce_turn}
use atelier_code.Threads.State.{
  Service, World, Result, ok, err, ◌>>=◌, ◌>>◌, return, branch, row_of, update_row, write_columns,
}
use atelier_code.Threads.Loading.{booted, load_row, load_rows, install_rows}

-- A table: each row stands under its own id, once.
unfoldable pub IsTable : List (String × ThreadRecord) → Type 0
IsTable [] = Unit
IsTable ((id, r) ∷ m) = (r.id ≡ id) × (lookup String-discrete id m ≡ none) × IsTable m

abbrev pub found_or : Option ThreadRecord → Option ThreadRecord → Option ThreadRecord
found_or none o = o
found_or (some r) o = some r

abbrev pub booted_option : (ThreadRecord → ThreadRecord) → Option ThreadRecord → Option ThreadRecord
booted_option f none = none
booted_option f (some r) = some (f r)

pub lookup-install_rows :
    (w : World) (m v : List (String × ThreadRecord)) (id : String)
    → IsTable m
    → lookup String-discrete id (install_rows w m v)
      ≡ found_or
          (booted_option (booted w) (lookup String-discrete id m))
          (lookup String-discrete id v)
unfolding install_rows IsTable lookup
lookup-install_rows w [] v id t = refl
lookup-install_rows w ((j, r) ∷ m) v id (same, fresh, t) =
    let ih = lookup-install_rows w m (insert String-discrete r.id (booted w r) v) id t in
    elim (String-discrete j id) [
      | yes e ↦ ground (arith, ih, lookup-insert String-discrete r.id id (booted w r) v)
      | no n ↦ ground (arith, ih, lookup-insert String-discrete r.id id (booted w r) v)
    ]

write_columns-booted : (w : World) (r : ThreadRecord) → write_columns r (booted w r) ≡ booted w r
unfolding write_columns booted coerce_record coerce_status coerce_turn
write_columns-booted w r = ground arith

pub booted-id : (w : World) (r : ThreadRecord) → (booted w r).id ≡ r.id
unfolding booted coerce_record coerce_status coerce_turn
booted-id w r = ground arith

pub booted-quiet :
    (w : World) (r : ThreadRecord)
    → (is_live (booted w r).status ≡ false)
      × OnSome (λ t. is_running t.state ≡ false) (booted w r).turn
unfolding booted coerce_record coerce_status coerce_turn is_live is_running
booted-quiet w r = (ground arith, ground arith)

booted-same : (w : World) (r : ThreadRecord) → (coerce_record r).1 ≡ false → booted w r ≡ r
unfolding booted
booted-same w r e = ground arith

-- One row: it is as `booted` leaves it, or the write was refused.
IsRowLoaded : World → ThreadRecord → Service → Service × Result (Unit {0}) → Type 0
IsRowLoaded w r s (t, res) =
    ((res ≡ ok tt)
      × (t.view ≡ s.view)
      × ((id : String)
          → row_of id t ≡ ite (String-discrete r.id id) (some (booted w r)) (row_of id s)))
    ⊎ ((res ≢ ok tt) × is_some (w.refuse (booted w r)) ≡ true)

load_row-IsRowLoaded :
    (w : World) (r : ThreadRecord) (s : Service)
    → row_of r.id s ≡ some r
    → IsRowLoaded w r s (load_row w r s)
unfolding load_row IsRowLoaded branch ◌>>=◌ return update_row
load_row-IsRowLoaded w r s e = elim (Bool-cases (coerce_record r).1) [
  | inr c ↦ inl (
    ground arith,
    ground arith,
    λ id. elim (String-discrete r.id id) [
      | yes q ↦ ground (arith, booted-same w r c, ap (λ j. row_of j s) q)
      | no n ↦ ground arith
    ],
  )
  | inl c ↦ elim (Option-cases (w.refuse (booted w r))) [
    | inr (x, f) ↦ inr (ground arith, ground arith)
    | inl f ↦
        let there = ap (λ j. row_of j s) (booted-id w r) ∙ e in
        inl (
          ground (arith, there),
          ground (arith, there),
          λ id. ground (
            arith,
            there,
            booted-id w r,
            write_columns-booted w r,
            lookup-insert String-discrete (booted w r).id id (write_columns r (booted w r)) s.rows,
          ),
        )
  ]
]

-- The rows of a part of the table.
unfoldable pub Holds : List (String × ThreadRecord) → Service → Type 0
Holds m s =
    (id : String) (r : ThreadRecord) → lookup String-discrete id m ≡ some r → row_of id s ≡ some r

-- Every row is as `booted` leaves it, or a write was refused.
unfoldable pub IsLoaded :
    World → List (String × ThreadRecord) → Service → Service × Result (Unit {0}) → Type 0
IsLoaded w m s (t, res) =
    ((res ≡ ok tt)
      × (t.view ≡ s.view)
      × ((id : String)
          → row_of id t
            ≡ found_or (booted_option (booted w) (lookup String-discrete id m)) (row_of id s)))
    ⊎ ((res ≢ ok tt) × ((r : ThreadRecord) × (is_some (w.refuse r) ≡ true)))

Holds-tail :
    (w : World) (j : String) (r : ThreadRecord) (m : List (String × ThreadRecord)) (s t : Service)
    → r.id ≡ j
    → lookup String-discrete j m ≡ none
    → Holds ((j, r) ∷ m) s
    → ((id : String)
        → row_of id t ≡ ite (String-discrete r.id id) (some (booted w r)) (row_of id s))
    → Holds m t
unfolding Holds lookup
Holds-tail w j r m s t same fresh h rows id x e = elim (String-discrete j id) [
  | yes q ↦ absurd (ground (arith, ap (λ k. lookup String-discrete k m) q))
  | no n ↦ ground (arith, rows id, h id x)
]

IsLoaded-cons :
    (w : World) (j : String) (r : ThreadRecord) (m : List (String × ThreadRecord)) (s t : Service)
    (x : Service × Result (Unit {0}))
    → r.id ≡ j
    → lookup String-discrete j m ≡ none
    → t.view ≡ s.view
    → ((id : String)
        → row_of id t ≡ ite (String-discrete r.id id) (some (booted w r)) (row_of id s))
    → IsLoaded w m t x
    → IsLoaded w ((j, r) ∷ m) s x
unfolding IsLoaded lookup
IsLoaded-cons w j r m s t (u, res) same fresh view rows (inr f) = inr f
IsLoaded-cons w j r m s t (u, res) same fresh view rows (inl (done, v, all)) = inl (
  done,
  v ∙ view,
  λ id. elim (String-discrete j id) [
    | yes q ↦ ground (arith, all id, rows id, ap (λ k. lookup String-discrete k m) q)
    | no n ↦ ground (arith, all id, rows id)
  ],
)

pub load_rows-IsLoaded :
    (w : World) (m : List (String × ThreadRecord)) (s : Service)
    → IsTable m
    → Holds m s
    → IsLoaded w m s (load_rows w m s)
unfolding load_rows IsTable IsLoaded IsRowLoaded Holds lookup ◌>>◌ ◌>>=◌ return
load_rows-IsLoaded w [] s t h = inl (refl, refl, λ id. refl)
load_rows-IsLoaded w ((j, r) ∷ m) s (same, fresh, table) h =
    let own : row_of j s ≡ some r = h j r (first j r m) in
    go (λ t. load_rows-IsLoaded w m t table) (load_row w r s).0 (load_row w r s).1
      (load_row-IsRowLoaded w r s (ap (λ k. row_of k s) same ∙ own))
  where
    first :
        (j : String) (r : ThreadRecord) (m : List (String × ThreadRecord))
        → lookup String-discrete j ((j, r) ∷ m) ≡ some r
    first j r m = ground arith

    go :
        ((t : Service) → Holds m t → IsLoaded w m t (load_rows w m t))
        → (t : Service) (res : Result (Unit {0})) → IsRowLoaded w r s (t, res)
        → IsLoaded w ((j, r) ∷ m) s (elim res as (λ _. Service × Result (Unit {0})) [
          | ok a ↦ load_rows w m t
          | err e ↦ (t, err e)
        ])
    go next t (ok a) (inl (_, view, rows)) =
        IsLoaded-cons w j r m s t (load_rows w m t) same fresh view rows
          (next t (Holds-tail w j r m s t same fresh h rows))
    go next t (ok a) (inr (n, _)) = absurd (n refl)
    go next t (err e) (inl (f, _, _)) = absurd (ground arith)
    go next t (err e) (inr (n, f)) = inr (n, (booted w r, f))
