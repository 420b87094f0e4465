-- ===== src/Terminals/Waiting.antt =====
-- internal/terminals/service.go, `awaitSettled`: the window closes, and what it reports.
use atelier_code.Shared.{
  ℕ, zero, suc, ◌+◌, ◌-◌, ◌*◌, ◌≤◌, ◌<◌, String, Bool, true, false, not, ◌&&◌, ◌≡◌, refl, sym, ap,
  subst, ℕ_discrete, ◌⊎◌, inl, inr, Option, none, some, List, arith, if-cases, ltb,
}
use atelier_code.Terminals.Reconcile.{Session}
use atelier_code.Terminals.Create.{
  Turn, is_reachable, after_look, await_settled, verify_passes, verify_failure_cap,
}

-- A turn that shows the session running, or its exit recorded.
pub data IsEvidence (id : String) (t : Turn) : Type 0 where
  exit_recorded : t.is_exited ≡ true → IsEvidence id t
  seen : (xs : List Session) → t.inventory ≡ some xs → is_reachable id xs ≡ true → IsEvidence id t

abbrev pub Answer : (ℕ → Turn) → String → Option Bool → Type 0
Answer turn id o = (b : Bool) × (o ≡ some b) × (b ≡ true → (k : ℕ) × IsEvidence id (turn k))

within :
    (passes failures : ℕ)
    → not (ltb passes verify_passes && ltb failures verify_failure_cap) ≡ false
    → (passes < verify_passes) × (failures < verify_failure_cap)
within passes failures e = (ground (arith, e), ground (arith, e))

module _ (turn : ℕ → Turn) (id : String) where
  closed : Answer turn id (some false)
  closed = (false, refl, λ e. absurd (ground arith))

  looked :
      (n : ℕ) (o : Option (List Session)) (after_failure after_pass : Option Bool)
      → (turn n).inventory ≡ o
      → Answer turn id after_failure
      → Answer turn id after_pass
      → Answer turn id (after_look id (turn n).is_cancelled o after_failure after_pass)
  unfolding after_look
  looked n none x y e f p = if-cases (Answer turn id) (turn n).is_cancelled (λ e. closed) (λ e. f)
  looked n (some xs) x y e f p =
      if-cases (Answer turn id) (is_reachable id xs) (λ r. (true, refl, λ g. (n, seen xs e r)))
        (λ r. if-cases (Answer turn id) (turn n).is_cancelled (λ e. closed) (λ e. p))

  answers :
      (fuel n passes failures : ℕ)
      → (verify_passes - passes) * verify_failure_cap + (verify_failure_cap - failures) < fuel
      → Answer turn id (await_settled fuel turn id n passes failures)
  unfolding await_settled
  answers zero n passes failures h = absurd (omega (arith, h))
  answers (suc fuel) n passes failures h =
      if-cases (Answer turn id) (not (ltb passes verify_passes && ltb failures verify_failure_cap))
        (λ e. closed)
        (λ e.
          let (open_passes, open_failures) = within passes failures e in
          if-cases (Answer turn id) (turn n).is_exited
            (λ f. (true, refl, λ g. (n, exit_recorded f)))
            (λ f.
              looked n (turn n).inventory _ _ refl
                (answers fuel (n + 1) passes (failures + 1) (omega (arith, h, open_failures)))
                (answers fuel (n + 1) (passes + 1) 0
                  (omega (arith, h, open_passes, open_failures)))))

  -- A turn with evidence, or one that is followed by success either way.
  looked_found :
      (n : ℕ) (o : Option (List Session)) (after_failure after_pass : Option Bool)
      → (turn n).inventory ≡ o
      → (turn n).is_exited ≡ false
      → (IsEvidence id (turn n)
          ⊎ (((turn n).is_cancelled ≡ false)
              × (after_failure ≡ some true)
              × (after_pass ≡ some true)))
      → after_look id (turn n).is_cancelled o after_failure after_pass ≡ some true
  unfolding after_look
  looked_found n o x y e f (inl (exit_recorded g)) = absurd (ground (arith, f, g))
  looked_found n none x y e f (inl (seen xs g r)) = absurd (cc (e, g))
  looked_found n (some ys) x y e f (inl (seen xs g r)) =
      let same : xs ≡ ys = cc (e, g) in
      if-cases (λ o. o ≡ some true) (is_reachable id ys) (λ h. refl)
        (λ h. absurd (ground (arith, h, r, ap (is_reachable id) same)))
  looked_found n none x y e f (inr (c, g, h)) =
      if-cases (λ o. o ≡ some true) (turn n).is_cancelled (λ b. absurd (ground (arith, b, c)))
        (λ b. g)
  looked_found n (some ys) x y e f (inr (c, g, h)) =
      if-cases (λ o. o ≡ some true) (is_reachable id ys) (λ b. refl)
        (λ b.
          if-cases (λ o. o ≡ some true) (turn n).is_cancelled (λ d. absurd (ground (arith, d, c)))
            (λ d. h))

  -- Evidence in one of the first turns is found, unless the caller gave up before it.
  module _ (k : ℕ) (early : k < verify_failure_cap)
      (waits : (j : ℕ) → j < k → (turn j).is_cancelled ≡ false) (e : IsEvidence id (turn k)) where
    found :
        (fuel n passes failures : ℕ)
        → k < fuel + n
        → n ≤ k
        → passes ≤ n
        → failures ≤ n
        → await_settled fuel turn id n passes failures ≡ some true
    unfolding await_settled
    found zero n passes failures h l p f = absurd (omega (arith, h, l))
    found (suc fuel) n passes failures h l p f =
        if-cases (λ o. o ≡ some true)
          (not (ltb passes verify_passes && ltb failures verify_failure_cap))
          (λ closed. absurd (ground (arith, closed, p, f, l, early)))
          (λ unclosed.
            if-cases (λ o. o ≡ some true) (turn n).is_exited (λ exits. refl)
              (λ runs. looked_found n (turn n).inventory _ _ refl runs (elim (ℕ_discrete n k) [
                | yes same ↦ inl (subst (λ j. IsEvidence id (turn j)) (sym same) e)
                | no other ↦ inr (
                  waits n (omega (arith, l, other)),
                  found fuel (n + 1) passes (failures + 1) (omega (arith, h))
                      (omega (arith, l, other)) (omega (arith, p)) (omega (arith, f)),
                  found fuel (n + 1) (passes + 1) 0 (omega (arith, h)) (omega (arith, l, other))
                      (omega (arith, p)) (omega arith),
                )
              ])))

-- Waiting for a session to settle ends within 821 turns, whatever the backend answers: it reports
-- success only if some turn showed the session reachable or its exit recorded, and it does report
-- success if one of the first twenty turns did and the caller had not given up before.
pub await_settled-answer :
    (turn : ℕ → Turn) (id : String)
    → Answer turn id (await_settled 821 turn id 0 0 0)
      × ((k : ℕ)
          → k < verify_failure_cap
          → ((j : ℕ) → j < k → (turn j).is_cancelled ≡ false)
          → IsEvidence id (turn k)
          → await_settled 821 turn id 0 0 0 ≡ some true)
await_settled-answer turn id = (
  answers turn id 821 0 0 0 (omega arith),
  λ k early waits e.
      found turn id k early waits e 821 0 0 0 (omega (arith, early)) (omega arith) (omega arith)
        (omega arith),
)
