-- ===== src/Webhooks/Draining.antt =====
-- internal/webhooks/webhooks.go, `work` and `processDue`: the worker waits only when nothing is due.
use atelier_code.Shared.{
  ℕ, zero, suc, ◌-◌, ◌≤◌, ◌<◌, String, Bool, true, false, not, ◌&&◌, ◌≡◌, refl, sym, ap, subst, ◌∙◌,
  [], ◌∷◌, arith, ℕ_discrete, Bool-cases, if-cases, differ, if◌then◌else◌, ◌⊎◌, inl, inr,
}
use atelier_code.Webhooks.Inbox.{
  Inbox, Row, has_id, sorted_due, first_rows, due, is_fresh, prune, keep_rows,
}
use atelier_code.Webhooks.Due.{
  AreDueIn, count_due, has_due, sorted_due-AreDueIn, none-due, process_all-AreDueIn, settle_count,
  has_due-sorted, has_id-first_rows, keep_rows-AreDueIn, count-keep_rows, first_rows-short,
  first_rows-nil,
}
use atelier_code.Webhooks.Attempts.{
  process_due, process, process_all, attempt, prune_receipts, row_count,
}
use atelier_code.Webhooks.Service.{
  World, Service, set_storage_failing, receipt_retention, process_batch,
}
use atelier_code.Webhooks.Worker.{work_round, drain}

module _ (w : World) where
  -- What a round leaves, by what it reports.
  data Round (s : Service) (x : Service × Bool) : Type 0 where
    busy : x.1 ≡ true → count_due w.now x.0.inbox < count_due w.now s.inbox → Round s x
    idle : x.1 ≡ false → AreDueIn w.now [] x.0.inbox → Round s x

module _ (w : World) (works : w.refuses ≡ false) (runs : w.stopping ≡ false) where
  count-process_all :
      (rs : Inbox) (s : Service)
      → count_due w.now (process_all w rs s).inbox ≤ count_due w.now s.inbox
  unfolding process_all process
  count-process_all [] s = omega arith
  count-process_all (r ∷ rs) s =
      omega (arith, count-process_all rs (process w r s), count_process r s)
    where
      count_process :
          (r : Row) (s : Service) → count_due w.now (process w r s).inbox ≤ count_due w.now s.inbox
      count_process r s =
          if-cases (λ (t : Service). count_due w.now t.inbox ≤ count_due w.now s.inbox) w.stopping
            (λ e. absurd (ground arith))
            (λ e. (settle_count w.now w r (attempt w s r) s refl works).0)

  fewer_after_batch :
      (rows : Inbox) (s : Service)
      → ((id : String) → has_id id rows ≡ true → has_due w.now id s.inbox ≡ true)
      → not (differ ℕ_discrete (row_count rows) process_batch) ≡ true
      → count_due w.now (process_all w rows s).inbox < count_due w.now s.inbox
  unfolding process_all row_count process has_id
  fewer_after_batch [] s h e = absurd (ground arith)
  fewer_after_batch (r ∷ rs) s h e = omega (arith, count-process_all rs (process w r s), fewer)
    where
      fewer : count_due w.now (process w r s).inbox < count_due w.now s.inbox
      fewer =
          if-cases (λ (t : Service). count_due w.now t.inbox < count_due w.now s.inbox) w.stopping
            (λ e. absurd (ground arith))
            (λ e. (settle_count w.now w r (attempt w s r) s refl works).1 (h r.id (ground arith)))

  process_due-Round : (s : Service) → Round w s (process_due w s)
  unfolding process_due set_storage_failing due
  process_due-Round s =
      if-cases (Round w s) w.refuses (λ e. absurd (ground arith))
        (λ e.
          if-cases (Round w s) (w.stopping && _) (λ f. absurd (ground arith))
            (λ f. batch-round _ refl (Bool-cases _)))
    where
      rows : Inbox
      rows = sorted_due w.below w.now s.inbox

      batch-round :
          (batch : Inbox)
          → first_rows process_batch rows ≡ batch
          → let full = not (differ ℕ_discrete (row_count batch) process_batch) in
            (full ≡ true) ⊎ (full ≡ false)
            → Round w s (process_all w batch (set_storage_failing false s), full)
      batch-round batch b (inl e) = busy e (
          fewer_after_batch batch (set_storage_failing false s)
            (λ id h.
              has_due-sorted w.now w.below id s.inbox
                (has_id-first_rows process_batch id rows (ap (has_id id) b ∙ h)))
            e)
      batch-round batch b (inr e) = idle e (
          process_all-AreDueIn w.now w batch (set_storage_failing false s) refl works runs (
            subst (λ xs. AreDueIn w.now xs s.inbox)
              (sym (first_rows-short process_batch rows (ground (arith, e, b))) ∙ b)
              (sorted_due-AreDueIn w.now w.below s.inbox)))

  prune_receipts-AreDueIn :
      (s : Service) → AreDueIn w.now [] s.inbox → AreDueIn w.now [] (prune_receipts w s).inbox
  unfolding prune_receipts prune
  prune_receipts-AreDueIn s h =
      if-cases (λ (t : Service). AreDueIn w.now [] t.inbox) w.refuses (λ e. h)
        (λ e. keep_rows-AreDueIn w.now _ [] _ (keep_rows-AreDueIn w.now _ [] s.inbox h))

  prune_receipts-count :
      (s : Service) → count_due w.now (prune_receipts w s).inbox ≤ count_due w.now s.inbox
  unfolding prune_receipts prune
  prune_receipts-count s =
      if-cases (λ (t : Service). count_due w.now t.inbox ≤ count_due w.now s.inbox) w.refuses
        (λ e. omega arith)
        (λ e. omega (
          arith,
          count-keep_rows w.now (is_fresh (w.now - receipt_retention)) s.inbox,
          count-keep_rows w.now _ (keep_rows (is_fresh (w.now - receipt_retention)) s.inbox),
        ))

  work_round-Round : (last : ℕ) (s : Service) → let x = work_round w last s in Round w s (x.0, x.2)
  unfolding work_round
  work_round-Round last s =
      if-cases (λ (x : Service × ℕ × Bool). Round w s (x.0, x.2)) _
        (λ e. pruned (process_due-Round s)) (λ e. process_due-Round s)
    where
      pruned : {x : Service × Bool} → Round w s x → Round w s (prune_receipts w x.0, x.1)
      pruned {x} (busy e h) = busy e (omega (arith, prune_receipts-count x.0, h))
      pruned {x} (idle e h) = idle e (prune_receipts-AreDueIn x.0 h)

  Ends : Service × ℕ × Bool → Type 0
  Ends x = (x.2 ≡ true) × AreDueIn w.now [] x.0.inbox

  Round-Ends :
      (fuel : ℕ) (s : Service) (x : Service × ℕ × Bool)
      → (count_due w.now x.0.inbox < fuel → Ends (drain fuel w x.1 x.0))
      → count_due w.now s.inbox < suc fuel
      → Round w s (x.0, x.2)
      → Ends (if x.2 then drain fuel w x.1 x.0 else (x.0, x.1, true))
  unfolding Ends
  Round-Ends fuel s x f h (busy e g) =
      if-cases Ends x.2 (λ b. f (omega (arith, g, h))) (λ b. absurd (ground arith))
  Round-Ends fuel s x f h (idle e g) =
      if-cases Ends x.2 (λ b. absurd (ground arith)) (λ b. (refl, g))

  drain-Ends :
      (fuel last : ℕ) (s : Service) → count_due w.now s.inbox < fuel → Ends (drain fuel w last s)
  unfolding drain
  drain-Ends zero last s h = absurd (omega (arith, h))
  drain-Ends (suc fuel) last s h =
      let x = work_round w last s in
      Round-Ends fuel s x (drain-Ends fuel x.1 x.0) h (work_round-Round last s)

-- While the clock stands still, the database works and the server runs, the worker's rounds come to a
-- wait after at most one more than the number of due deliveries; when a wait comes, no delivery is
-- due.
pub drain-due :
    (w : World) (fuel last_prune limit : ℕ) (s : Service)
    → w.refuses ≡ false
    → w.stopping ≡ false
    → count_due w.now s.inbox < fuel
    → let x = drain fuel w last_prune s in (x.2 ≡ true) × (due w.below w.now limit x.0.inbox ≡ [])
unfolding due Ends
drain-due w fuel last_prune limit s works runs h =
    let (e, d) = drain-Ends w works runs fuel last_prune s h in
    (e, ap (first_rows limit) (none-due w.now w.below _ d) ∙ first_rows-nil limit)
