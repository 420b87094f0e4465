-- ===== src/Webhooks/Due.antt =====
-- internal/webhooks/webhooks.go, `process`: what an attempt does to the rows that are due.
use atelier_code.Shared.{
  ℕ, zero, suc, ◌+◌, ◌≤◌, ◌<◌, String, Bool, true, false, not, ◌&&◌, ◌||◌, ◌≡◌, refl, sym, ap, ◌≢◌,
  ◌∙◌, Option, none, some, [], ◌∷◌, arith, Bool-cases, if-cases, String-discrete, differ,
  if◌then◌else◌, inl, inr,
}
use atelier_code.Webhooks.Inbox.{
  Inbox, Row, has_id, update_pending, completed, failed, complete, fail, is_due, sorted_due,
  insert_sooner, first_rows, keep_rows,
}
use atelier_code.Webhooks.Backoff.{backoff-eq}
use atelier_code.Webhooks.Attempts.{process, process_all, settle, attempt, backoff, row_count}
use atelier_code.Webhooks.Service.{World, Service, record_failure, set_storage_failing}

-- Every due row has its id among those of `rows`.
abbrev pub AreDueIn : ℕ → Inbox → Inbox → Type 0
AreDueIn now rows [] = Unit
AreDueIn now rows (x ∷ xs) = (is_due now x ≡ true → has_id x.id rows ≡ true) × AreDueIn now rows xs

unfoldable pub count_due : ℕ → Inbox → ℕ
count_due now [] = 0
count_due now (x ∷ xs) = (if is_due now x then 1 else 0) + count_due now xs

module _ (now : ℕ) where
  has_id-insert_sooner :
      (below : String → String → Bool) (id : String) (r : Row) (xs : Inbox)
      → has_id id (insert_sooner below r xs) ≡ has_id id (r ∷ xs)
  unfolding has_id insert_sooner
  has_id-insert_sooner below id r [] = refl
  has_id-insert_sooner below id r (x ∷ xs) = ground (arith, has_id-insert_sooner below id r xs)

  pub AreDueIn-more :
      (rows more : Inbox) (xs : Inbox)
      → ((id : String) → has_id id rows ≡ true → has_id id more ≡ true)
      → AreDueIn now rows xs
      → AreDueIn now more xs
  AreDueIn-more rows more [] f h = tt
  AreDueIn-more rows more (x ∷ xs) f h = (λ e. f x.id (h.0 e), AreDueIn-more rows more xs f h.1)

  has_id-sorted_due :
      (below : String → String → Bool) (id : String) (x : Row) (xs : Inbox)
      → is_due now x ≡ true
      → has_id id (sorted_due below now (x ∷ xs)) ≡ has_id id (x ∷ sorted_due below now xs)
  unfolding sorted_due
  has_id-sorted_due below id x xs e = rw e (has_id-insert_sooner below id x _)

  has_id-sorted_later :
      (below : String → String → Bool) (id : String) (x : Row) (xs : Inbox)
      → has_id id (sorted_due below now xs) ≡ true
      → has_id id (sorted_due below now (x ∷ xs)) ≡ true
  unfolding sorted_due has_id
  has_id-sorted_later below id x xs h =
      if-cases (λ ys. has_id id ys ≡ true) (is_due now x)
        (λ e. has_id-insert_sooner below id x _ ∙ ground (arith, h)) (λ e. h)

  pub sorted_due-AreDueIn :
      (below : String → String → Bool) (xs : Inbox) → AreDueIn now (sorted_due below now xs) xs
  unfolding has_id
  sorted_due-AreDueIn below [] = tt
  sorted_due-AreDueIn below (x ∷ xs) = (
    λ e. has_id-sorted_due below x.id x xs e ∙ ground arith,
    AreDueIn-more _ _ xs (λ id. has_id-sorted_later below id x xs) (sorted_due-AreDueIn below xs),
  )

  update_pending-AreDueIn :
      (r : Row) (rows : Inbox) (f : Row → Row) (xs : Inbox)
      → ((x : Row) → is_due now (f x) ≡ false)
      → AreDueIn now (r ∷ rows) xs
      → AreDueIn now rows (update_pending r.id f xs)
  unfolding update_pending has_id
  update_pending-AreDueIn r rows f [] h d = tt
  update_pending-AreDueIn r rows f (x ∷ xs) h d =
      (ground (arith, h x, d.0), update_pending-AreDueIn r rows f xs h d.1)

  pub none-due :
      (below : String → String → Bool) (xs : Inbox)
      → AreDueIn now [] xs
      → sorted_due below now xs ≡ []
  unfolding sorted_due has_id
  none-due below [] h = refl
  none-due below (x ∷ xs) h =
      if-cases (λ ys. ys ≡ []) (is_due now x) (λ e. absurd (ground (arith, h.0 e)))
        (λ e. none-due below xs h.1)

  -- A row that has been attempted is not due again at once.
  settle_update :
      (w : World) (r : Row) (o : Option String) (s : Service)
      → w.now ≡ now
      → w.refuses ≡ false
      → (f : Row → Row) × ((x : Row) → is_due now (f x) ≡ false)
        × ((settle w r o s).inbox ≡ update_pending r.id f s.inbox)
  unfolding settle complete fail record_failure set_storage_failing
  settle_update w r (some e) s at works = (
    failed (r.attempts + 1) (w.now + backoff (r.attempts + 1)),
    λ x. ground (arith, at, (backoff-eq (r.attempts + 1)).1),
    if-cases
        (λ (t : Service).
          t.inbox
          ≡ update_pending r.id (failed (r.attempts + 1) (w.now + backoff (r.attempts + 1)))
              s.inbox)
        w.refuses (λ e. absurd (ground arith)) (λ e. refl),
  )
  settle_update w r none s at works = (
    completed w.now,
    λ x. refl,
    if-cases (λ (t : Service). t.inbox ≡ update_pending r.id (completed w.now) s.inbox) w.refuses
        (λ e. absurd (ground arith)) (λ e. refl),
  )

  settle-AreDueIn :
      (w : World) (r : Row) (rows : Inbox) (o : Option String) (s : Service)
      → w.now ≡ now
      → w.refuses ≡ false
      → AreDueIn now (r ∷ rows) s.inbox
      → AreDueIn now rows (settle w r o s).inbox
  settle-AreDueIn w r rows o s at works h =
      let (f, later, e) = settle_update w r o s at works in
      rw e (update_pending-AreDueIn r rows f s.inbox later h)

  pub process_all-AreDueIn :
      (w : World) (rows : Inbox) (s : Service)
      → w.now ≡ now
      → w.refuses ≡ false
      → w.stopping ≡ false
      → AreDueIn now rows s.inbox
      → AreDueIn now [] (process_all w rows s).inbox
  unfolding process_all process
  process_all-AreDueIn w [] s at works runs h = h
  process_all-AreDueIn w (r ∷ rs) s at works runs h =
      process_all-AreDueIn w rs (process w r s) at works runs (
        if-cases (λ (t : Service). AreDueIn now rs t.inbox) w.stopping (λ e. absurd (ground arith))
          (λ e. settle-AreDueIn w r rs (attempt w s r) s at works h))

  -- The number of due rows, under a statement that makes rows not due.
  count_due-update :
      (id : String) (f : Row → Row) (xs : Inbox)
      → ((x : Row) → is_due now (f x) ≡ false)
      → count_due now (update_pending id f xs) ≤ count_due now xs
  unfolding count_due update_pending
  count_due-update id f [] h = omega arith
  count_due-update id f (x ∷ xs) h = ground (arith, h x, count_due-update id f xs h)

  unfoldable pub has_due : String → Inbox → Bool
  has_due id [] = false
  has_due id (x ∷ xs) = (not (differ String-discrete x.id id) && is_due now x) || has_due id xs

  count_due-update-strict :
      (id : String) (f : Row → Row) (xs : Inbox)
      → ((x : Row) → is_due now (f x) ≡ false)
      → has_due id xs ≡ true
      → count_due now (update_pending id f xs) < count_due now xs
  unfolding count_due update_pending has_due
  count_due-update-strict id f [] h e = absurd (ground arith)
  count_due-update-strict id f (x ∷ xs) h e =
      ground (arith, h x, count_due-update id f xs h, count_due-update-strict id f xs h)

  pub settle_count :
      (w : World) (r : Row) (o : Option String) (s : Service)
      → w.now ≡ now
      → w.refuses ≡ false
      → (count_due now (settle w r o s).inbox ≤ count_due now s.inbox)
        × (has_due r.id s.inbox ≡ true
            → count_due now (settle w r o s).inbox < count_due now s.inbox)
  settle_count w r o s at works =
      let (f, later, e) = settle_update w r o s at works in
      rw e (count_due-update r.id f s.inbox later, count_due-update-strict r.id f s.inbox later)

  pub has_due-sorted :
      (below : String → String → Bool) (id : String) (xs : Inbox)
      → has_id id (sorted_due below now xs) ≡ true
      → has_due id xs ≡ true
  unfolding sorted_due has_id has_due
  has_due-sorted below id [] h = h
  has_due-sorted below id (x ∷ xs) h = elim (Bool-cases (is_due now x)) [
    | inl e ↦
        ground (arith, e, sym (has_id-sorted_due below id x xs e) ∙ h, has_due-sorted below id xs)
    | inr e ↦ ground (arith, has_due-sorted below id xs, h, e)
  ]

pub has_id-first_rows :
    (n : ℕ) (id : String) (xs : Inbox) → has_id id (first_rows n xs) ≡ true → has_id id xs ≡ true
unfolding first_rows has_id
has_id-first_rows zero id xs h = absurd (ground arith)
has_id-first_rows (suc n) id [] h = h
has_id-first_rows (suc n) id (x ∷ xs) h = ground (arith, h, has_id-first_rows n id xs)

pub first_rows-nil : (n : ℕ) → first_rows n [] ≡ []
unfolding first_rows
first_rows-nil zero = refl
first_rows-nil (suc n) = refl

pub first_rows-short : (n : ℕ) (xs : Inbox) → row_count (first_rows n xs) ≢ n → first_rows n xs ≡ xs
unfolding first_rows row_count
first_rows-short zero xs h = absurd (h refl)
first_rows-short (suc n) [] h = refl
first_rows-short (suc n) (x ∷ xs) h =
    ap (λ ys. x ∷ ys) (first_rows-short n xs (λ e. h (omega (arith, e))))

-- Pruning takes completed rows only.
module _ (now : ℕ) (p : Row → Bool) where
  pub keep_rows-AreDueIn :
      (rows xs : Inbox) → AreDueIn now rows xs → AreDueIn now rows (keep_rows p xs)
  unfolding keep_rows
  keep_rows-AreDueIn rows [] h = tt
  keep_rows-AreDueIn rows (x ∷ xs) h =
      if-cases (AreDueIn now rows) (p x) (λ e. (h.0, keep_rows-AreDueIn rows xs h.1))
        (λ e. keep_rows-AreDueIn rows xs h.1)

  pub count-keep_rows : (xs : Inbox) → count_due now (keep_rows p xs) ≤ count_due now xs
  unfolding keep_rows count_due
  count-keep_rows [] = omega arith
  count-keep_rows (x ∷ xs) = ground (arith, count-keep_rows xs)
