-- ===== src/Threads/Deletion.antt =====
-- internal/threads/service.go: what `Delete` refuses, and what it leaves of a thread.
use atelier_code.Shared.{
  String, Bool, true, false, ◌||◌, ◌≡◌, refl, sym, ap, subst, ◌⊎◌, ◌≢◌, inl, inr, none, some, ◌∷◌,
  arith, String-discrete, Option-cases, Bool-cases, is_some,
}
use atelier_code.Finite.{
  lookup, erase, erase_where, keys, lookup-erase, lookup-erase_where_old, lookup-erase_where-none,
  lookup-erase_where_other,
}
use atelier_code.Threads.Holders.{holder, has_holder, is_held}
use atelier_code.Threads.State.{
  IdentityKey-discrete, IdentityKey, Service, World, Method, Result, ok, err, not_found,
  thread_active, thread_deleted, ◌>>=◌, >>=-ok, ◌>>◌, return, throw, read, modify, branch, publish,
  view_of, row_of,
}
use atelier_code.Threads.Observe.{identity_of}
use atelier_code.Threads.Requests.{
  is_opening, maps_to, delete_row, drop_thread, forget_identity, remove, delete,
}

-- What concerns other threads is the same in both states.
pub record IsSameBeside (id : String) (s t : Service) : Type 0 where
  pub views : (j : String) → j ≢ id → view_of j t ≡ view_of j s
  pub rows : (j : String) → j ≢ id → row_of j t ≡ row_of j s
  pub identity_rows :
      (k : IdentityKey)
      → lookup IdentityKey-discrete k s.identity_rows ≢ some id
      → lookup IdentityKey-discrete k t.identity_rows
        ≡ lookup IdentityKey-discrete k s.identity_rows
  pub identity_keys :
      (j : String)
      → j ≢ id
      → lookup String-discrete j t.identity_keys ≡ lookup String-discrete j s.identity_keys
  pub identities :
      (k : IdentityKey)
      → lookup String-discrete id s.identity_keys ≢ some k
      → identity_of k t ≡ identity_of k s
  pub holds : (j : String) → j ≢ id → is_held j t ≡ is_held j s
  pub priors :
      (j : String)
      → j ≢ id
      → lookup String-discrete j t.prior_status ≡ lookup String-discrete j s.prior_status
  pub active : t.active ≡ s.active
  pub opening : t.opening ≡ s.opening

-- Nothing is left of the thread, and everything else is as it was.
pub record IsRemoved (id : String) (s t : Service) : Type 0 where
  pub view : view_of id t ≡ none
  pub row : row_of id t ≡ none
  pub identity_row : (k : IdentityKey) → lookup IdentityKey-discrete k t.identity_rows ≢ some id
  pub key : lookup String-discrete id t.identity_keys ≡ none
  pub identity :
      (k : IdentityKey)
      → lookup String-discrete id s.identity_keys ≡ some k
      → identity_of k t ≡ none
  pub released : is_held id t ≡ false
  pub prior : lookup String-discrete id t.prior_status ≡ none
  pub others : IsSameBeside id s t
  pub announced : t.published ≡ thread_deleted id ∷ s.published

-- The state without the rows.
abbrev without_rows : String → Service → Service
without_rows id s = record s {
  rows = erase String-discrete id s.rows;
  identity_rows =
      erase_where IdentityKey-discrete (maps_to id) (keys IdentityKey-discrete s.identity_rows)
        s.identity_rows;
}

-- The state at the end.
abbrev without_thread : String → Service → Service
without_thread id s =
    let t = drop_thread id (without_rows id s) in
    record t { published = thread_deleted id ∷ t.published }

other_identity_row :
    (id : String) (k : IdentityKey) (s : Service)
    → lookup IdentityKey-discrete k s.identity_rows ≢ some id
    → lookup IdentityKey-discrete k (without_rows id s).identity_rows
      ≡ lookup IdentityKey-discrete k s.identity_rows
other_identity_row id k s n =
    lookup-erase_where_other IdentityKey-discrete (maps_to id) s.identity_rows k
      (λ v e. ground (arith, n, e))

no_identity_row :
    (id : String) (k : IdentityKey) (s : Service)
    → lookup IdentityKey-discrete k (without_rows id s).identity_rows ≢ some id
no_identity_row id k s h =
    let old =
      lookup-erase_where_old IdentityKey-discrete (maps_to id)
        (keys IdentityKey-discrete s.identity_rows) s.identity_rows k id h in
    let gone =
      lookup-erase_where-none IdentityKey-discrete (maps_to id) s.identity_rows k id old
        (ground arith) in
    cc (h, gone)

without_thread-same : (id : String) (s : Service) → IsSameBeside id s (without_thread id s)
unfolding drop_thread forget_identity
without_thread-same id s = elim (Option-cases (lookup String-discrete id s.identity_keys)) [
  | inl e ↦ record {
    views = λ j n. ground (arith, n, lookup-erase String-discrete id j s.view);
    rows = λ j n. ground (arith, n, lookup-erase String-discrete id j s.rows);
    identity_rows = λ k n. ground (arith, other_identity_row id k s n);
    identity_keys = λ j n. ground arith;
    identities = λ k n. ground arith;
    holds = λ j n. ground (arith, n, lookup-erase String-discrete id j s.held);
    priors = λ j n. ground (arith, n, lookup-erase String-discrete id j s.prior_status);
    active = ground arith;
    opening = ground arith;
  }
  | inr (key, e) ↦ record {
    views = λ j n. ground (arith, n, lookup-erase String-discrete id j s.view);
    rows = λ j n. ground (arith, n, lookup-erase String-discrete id j s.rows);
    identity_rows = λ k n. ground (arith, other_identity_row id k s n);
    identity_keys = λ j n. ground (arith, n, lookup-erase String-discrete id j s.identity_keys);
    identities = λ k n. ground (arith, n, e, lookup-erase IdentityKey-discrete key k s.identities);
    holds = λ j n. ground (arith, n, lookup-erase String-discrete id j s.held);
    priors = λ j n. ground (arith, n, lookup-erase String-discrete id j s.prior_status);
    active = ground arith;
    opening = ground arith;
  }
]

without_thread-IsRemoved : (id : String) (s : Service) → IsRemoved id s (without_thread id s)
unfolding drop_thread forget_identity
without_thread-IsRemoved id s = elim (Option-cases (lookup String-discrete id s.identity_keys)) [
  | inl e ↦ record {
    view = ground (arith, lookup-erase String-discrete id id s.view);
    row = ground (arith, lookup-erase String-discrete id id s.rows);
    identity_row = λ k h. no_identity_row id k s (ground (arith, h));
    key = ground arith;
    identity = λ k f. ground arith;
    released = ground (arith, lookup-erase String-discrete id id s.held);
    prior = ground (arith, lookup-erase String-discrete id id s.prior_status);
    others = without_thread-same id s;
    announced = ground arith;
  }
  | inr (key, e) ↦ record {
    view = ground (arith, lookup-erase String-discrete id id s.view);
    row = ground (arith, lookup-erase String-discrete id id s.rows);
    identity_row = λ k h. no_identity_row id k s (ground (arith, h));
    key = ground (arith, lookup-erase String-discrete id id s.identity_keys);
    identity = λ k f. ground (arith, lookup-erase IdentityKey-discrete key k s.identities);
    released = ground (arith, lookup-erase String-discrete id id s.held);
    prior = ground (arith, lookup-erase String-discrete id id s.prior_status);
    others = without_thread-same id s;
    announced = ground arith;
  }
]

-- The outcome of a removal that `h` and `o` may forbid.
abbrev IsOutcome : String → Service → Bool → Bool → Service × Result (Unit {0}) → Type 0
IsOutcome id s h o (t, r) =
    (r ≡ ok tt → (h ≡ false) × (o ≡ false) × IsRemoved id s t) × (r ≢ ok tt → t ≡ s)

delete_row_cases :
    (w : World) (id : String) (s : Service)
    → let (t, r) = delete_row w id s in
      ((t ≡ s) × (r ≢ ok true)) ⊎ ((r ≡ ok true) × (t ≡ without_rows id s))
unfolding delete_row
delete_row_cases w id s = elim (Option-cases (w.refuse_id id)) [
  | inr (x, g) ↦ inl (ground arith, ground arith)
  | inl g ↦ elim (Bool-cases (is_some (row_of id s))) [
    | inr p ↦ inl (ground arith, ground arith)
    | inl p ↦ inr (ground arith, ground arith)
  ]
]

remove-IsOutcome :
    (w : World) (id : String) (s : Service) → IsOutcome id s false false (remove w id s)
unfolding remove ◌>>=◌ ◌>>◌ branch throw return modify publish
remove-IsOutcome w id s = go (delete_row w id s).0 (delete_row w id s).1 (delete_row_cases w id s)
  where
    go :
        (t : Service) (r : Result Bool)
        → ((t ≡ s) × (r ≢ ok true)) ⊎ ((r ≡ ok true) × (t ≡ without_rows id s))
        → IsOutcome id s false false (elim r as (λ _. Service × Result (Unit {0})) [
          | ok b ↦
              (do
                branch b (return tt) (throw not_found)
                modify (drop_thread id)
                publish (thread_deleted id))
                t
          | err e ↦ (t, err e)
        ])
    go t (err e) (inl (same, _)) = (λ f. absurd (ground arith), λ n. same)
    go t (err e) (inr (f, _)) = absurd (ground arith)
    go t (ok true) (inl (_, n)) = absurd (n refl)
    go t (ok true) (inr (_, e)) = (
      λ f. (
        refl,
        refl,
        subst
            (λ (x : Service).
              let u = drop_thread id x in
              IsRemoved id s (record u { published = thread_deleted id ∷ u.published }))
            (sym e) (without_thread-IsRemoved id s),
      ),
      λ n. absurd (n refl),
    )
    go t (ok false) (inl (same, _)) = (λ f. absurd (ground arith), λ n. same)
    go t (ok false) (inr (f, _)) = absurd (ground arith)

refused-IsOutcome :
    (w : World) (id : String) (s : Service) (v h o : Bool)
    → IsOutcome id s h o (
        (do
          branch v (return tt) (throw not_found)
          branch (h || o) (throw (thread_active id)) (remove w id))
          s)
unfolding ◌>>=◌ ◌>>◌ branch throw return
refused-IsOutcome w id s false h o = (λ f. absurd (ground arith), λ n. refl)
refused-IsOutcome w id s true true o = (λ f. absurd (ground arith), λ n. refl)
refused-IsOutcome w id s true false true = (λ f. absurd (ground arith), λ n. refl)
refused-IsOutcome w id s true false false = remove-IsOutcome w id s

delete_row_done :
    (w : World) (id : String) (s : Service)
    → w.refuse_id id ≡ none
    → is_some (row_of id s) ≡ true
    → delete_row w id s ≡ (without_rows id s, ok true)
unfolding delete_row
delete_row_done w id s accepts stored = ground (arith, accepts, stored)

remove_done :
    (w : World) (id : String) (s : Service)
    → w.refuse_id id ≡ none
    → is_some (row_of id s) ≡ true
    → (remove w id s).1 ≡ ok tt
unfolding remove ◌>>=◌ ◌>>◌ branch return modify publish
remove_done w id s accepts stored =
    ap (λ (x : Service × Result (Unit {0})). x.1)
      (>>=-ok (delete_row w id) finish s (without_rows id s) true
        (delete_row_done w id s accepts stored))
  where
    finish : Bool → Method (Unit {0})
    finish deleted = do
      branch deleted (return tt) (throw not_found)
      modify (drop_thread id)
      publish (thread_deleted id)

delete_succeeds :
    (w : World) (id : String) (s : Service)
    → is_some (view_of id s) ≡ true
    → has_holder (holder id s) ≡ false
    → is_opening id s ≡ false
    → w.refuse_id id ≡ none
    → is_some (row_of id s) ≡ true
    → (delete w id s).1 ≡ ok tt
unfolding delete ◌>>=◌ ◌>>◌ branch return read
delete_succeeds w id s seen free still accepts stored =
    rw (seen, free, still) (remove_done w id s accepts stored)

delete-IsOutcome :
    (w : World) (id : String) (s : Service)
    → IsOutcome id s (has_holder (holder id s)) (is_opening id s) (delete w id s)
unfolding delete ◌>>=◌ read
delete-IsOutcome w id s =
    refused-IsOutcome w id s (is_some (view_of id s)) (has_holder (holder id s)) (is_opening id s)

-- A deletion of a thread in the view that nothing holds and no open is resuming succeeds if the
-- database has its row and accepts the deletion. One that succeeds found a thread that nothing
-- holds and no open is resuming, and leaves nothing of it: no view entry, row, identity (stored or
-- in memory), hold or kept status. Of every other thread all of these stay, as do the terminals'
-- threads and the opens under way, and one event is published. A deletion that fails leaves the
-- whole state as it was.
pub delete-IsRemoved :
    (w : World) (id : String) (s : Service)
    → (is_some (view_of id s) ≡ true
        → has_holder (holder id s) ≡ false
        → is_opening id s ≡ false
        → w.refuse_id id ≡ none
        → is_some (row_of id s) ≡ true
        → (delete w id s).1 ≡ ok tt)
      × ((delete w id s).1 ≡ ok tt
          → (has_holder (holder id s) ≡ false)
            × (is_opening id s ≡ false)
            × IsRemoved id s (delete w id s).0)
      × ((delete w id s).1 ≢ ok tt → (delete w id s).0 ≡ s)
delete-IsRemoved w id s =
    (delete_succeeds w id s, (delete-IsOutcome w id s).0, (delete-IsOutcome w id s).1)
