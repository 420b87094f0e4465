-- ===== src/Threads/Loading/Boot.antt =====
-- internal/threads/service.go, `Load`: the view agrees with the rows, and nothing is live.
use atelier_code.Shared.{
  String, false, ◌≡◌, refl, inl, inr, Option, none, some, List, [], ◌∷◌, arith, String-discrete,
  OnSome, ap, ◌∙◌, sym, subst,
}
use atelier_code.Finite.{lookup}
use atelier_code.Threads.Record.{ThreadRecord}
use atelier_code.Threads.Record.{is_live}
use atelier_code.Threads.Turns.{is_running}
use atelier_code.Threads.State.{
  IdentityKey, Service, World, Result, ok, err, ◌>>=◌, ◌>>◌, return, read, modify, on_option,
  view_of, row_of, write_columns,
}
use atelier_code.Threads.Backed.{Agrees, IsStored}
use atelier_code.Threads.Loading.{booted, load_rows, install_rows, install_identities, load}
use atelier_code.Threads.Loading.Rows.{
  IsTable, Holds, IsLoaded, found_or, booted_option, lookup-install_rows, booted-id, booted-quiet,
  load_rows-IsLoaded,
}

install_identities-tables :
    (ids : List (IdentityKey × String)) (s : Service)
    → ((install_identities ids s).view ≡ s.view) × ((install_identities ids s).rows ≡ s.rows)
unfolding install_identities
install_identities-tables [] s = (refl, refl)
install_identities-tables ((key, id) ∷ ids) s = install_identities-tables ids _

-- What `Load` leaves when it succeeds: the view agrees with the rows, shows every row as it was
-- coerced, and claims nothing live.
pub record IsBooted (w : World) (s t : Service) : Type 0 where
  pub stored : IsStored t
  pub shown : (id : String) → view_of id t ≡ booted_option (booted w) (row_of id s)
  pub quiet :
      (id : String) (r : ThreadRecord)
      → view_of id t ≡ some r
      → (is_live r.status ≡ false) × OnSome (λ x. is_running x.state ≡ false) r.turn

IsTable-own :
    (m : List (String × ThreadRecord)) (id : String) (r : ThreadRecord)
    → IsTable m
    → lookup String-discrete id m ≡ some r
    → r.id ≡ id
unfolding IsTable lookup
IsTable-own [] id r t e = absurd (ground arith)
IsTable-own ((j, x) ∷ m) id r (same, fresh, t) e = ground (arith, IsTable-own m id r t)

found_or-none : (o : Option ThreadRecord) → found_or o none ≡ o
found_or-none none = refl
found_or-none (some r) = refl

found_or-booted :
    (w : World) (o : Option ThreadRecord)
    → found_or (booted_option (booted w) o) o ≡ booted_option (booted w) o
found_or-booted w none = refl
found_or-booted w (some r) = refl

booted-Agrees :
    (w : World) (o : Option ThreadRecord)
    → Agrees (booted_option (booted w) o) (booted_option (booted w) o)
unfolding write_columns
booted-Agrees w none = tt
booted-Agrees w (some r) = refl

of_booted :
    (w : World) (o : Option ThreadRecord) (r : ThreadRecord)
    → booted_option (booted w) o ≡ some r
    → (x : ThreadRecord) × (o ≡ some x) × (booted w x ≡ r)
of_booted w none r e = absurd (ground arith)
of_booted w (some x) r e = (x, refl, ground arith)

booted-IsBooted :
    (w : World) (s t u : Service)
    → IsTable s.rows
    → s.view ≡ []
    → t.view ≡ s.view
    → ((id : String)
        → row_of id t ≡ found_or (booted_option (booted w) (row_of id s)) (row_of id s))
    → u.view ≡ install_rows w s.rows t.view
    → u.rows ≡ t.rows
    → IsBooted w s u
unfolding lookup
booted-IsBooted w s t u table empty kept rows view same = record {
  stored = record {
    keyed = λ id r e.
        let (x, there, b) = of_booted w (row_of id s) r (sym (shown id) ∙ e) in
        ap (λ (y : ThreadRecord). y.id) (sym b)
        ∙ booted-id w x
        ∙ IsTable-own s.rows id x table there;
    backed = λ id.
        subst (λ o. Agrees o (row_of id u)) (sym (shown id))
          (subst (Agrees (booted_option (booted w) (row_of id s))) (sym (stands id))
            (booted-Agrees w (row_of id s)));
  };
  shown = shown;
  quiet = λ id r e.
      let (x, _, b) = of_booted w (row_of id s) r (sym (shown id) ∙ e) in
      subst
        (λ (y : ThreadRecord).
          (is_live y.status ≡ false) × OnSome (λ x. is_running x.state ≡ false) y.turn)
        b (booted-quiet w x);
}
  where
    shown : (id : String) → view_of id u ≡ booted_option (booted w) (row_of id s)
    shown id =
        ap (lookup String-discrete id) view
        ∙ lookup-install_rows w s.rows t.view id table
        ∙ ap (λ v. found_or (booted_option (booted w) (row_of id s)) (lookup String-discrete id v))
            (kept ∙ empty)
        ∙ found_or-none _

    stands : (id : String) → row_of id u ≡ booted_option (booted w) (row_of id s)
    stands id = ap (lookup String-discrete id) same ∙ rows id ∙ found_or-booted w (row_of id s)

-- Loading a table whose rows stand under their own ids, into an empty view: if it succeeds, the view
-- agrees with the rows, shows every row as it was coerced, and claims no live status and no running
-- turn; and it succeeds if the database refuses no write.
pub load-IsBooted :
    (w : World) (s : Service)
    → IsTable s.rows
    → s.view ≡ []
    → ((load w none s).1 ≡ ok tt → IsBooted w s (load w none s).0)
      × (((r : ThreadRecord) → w.refuse r ≡ none) → (load w none s).1 ≡ ok tt)
unfolding load on_option ◌>>=◌ ◌>>◌ return read modify IsLoaded Holds
load-IsBooted w s table empty =
    go (load_rows w s.rows s).0 (load_rows w s.rows s).1
      (load_rows-IsLoaded w s.rows s table (λ id r e. e))
  where
    finish : Service → Service
    finish t = install_identities s.identity_rows (record t { view = install_rows w s.rows t.view })

    go :
        (t : Service) (res : Result (Unit {0}))
        → IsLoaded w s.rows s (t, res)
        → let x : Service × Result (Unit {0}) = elim res as (λ _. Service × Result (Unit {0})) [
          | ok a ↦ (finish t, ok tt)
          | err e ↦ (t, err e)
        ] in
          (x.1 ≡ ok tt → IsBooted w s x.0)
          × (((r : ThreadRecord) → w.refuse r ≡ none) → x.1 ≡ ok tt)
    go t (ok a) (inl (_, view, rows)) =
        let tables =
          install_identities-tables s.identity_rows
            (record t { view = install_rows w s.rows t.view }) in
        (λ e. booted-IsBooted w s t (finish t) table empty view rows tables.0 tables.1, λ n. refl)
    go t (ok a) (inr (n, _)) = absurd (n refl)
    go t (err e) (inl (f, _, _)) = absurd (ground arith)
    go t (err e) (inr (n, (r, f))) =
        (λ k. absurd (n k), λ none_refused. absurd (ground (arith, none_refused r)))
