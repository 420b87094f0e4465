-- ===== src/Webhooks/Backoff.antt =====
-- internal/webhooks/webhooks.go, `backoff`: the loop that doubles has a closed form.
use atelier_code.Shared.{
  ℕ, zero, suc, ◌-◌, ◌*◌, ◌^◌, ◌≤◌, ◌<◌, min, ◌≡◌, ltb, inl, inr, arith, Bool-cases,
}
use atelier_code.Webhooks.Attempts.{doubled, backoff}
use atelier_code.Webhooks.Service.{retry_base, retry_max}

pow-suc : (n : ℕ) → 2 ^ suc n ≡ 2 * 2 ^ n
pow-suc n = omega arith

pow-pos : (n : ℕ) → 0 < 2 ^ n
pow-pos zero = omega arith
pow-pos (suc n) = omega (arith, pow-suc n, pow-pos n)

doubled_lem : (n d : ℕ) → min (doubled n d) retry_max ≡ min (d * 2 ^ n) retry_max
unfolding doubled
doubled_lem zero d = grind arith
doubled_lem (suc n) d = elim (Bool-cases (ltb d retry_max)) [
  | inl e ↦ grind (arith, e, doubled_lem n (d * 2), pow-suc n)
  | inr e ↦ grind (arith, e, pow-pos (suc n))
]

pow_mono : (m n : ℕ) → m ≤ n → 2 ^ m ≤ 2 ^ n
pow_mono zero n h = pow-pos n
pow_mono (suc m) zero h = absurd (omega (arith, h))
pow_mono (suc m) (suc n) h = omega (arith, pow-suc m, pow-suc n, pow_mono m n (omega (arith, h)))

closed : (n : ℕ) → backoff n ≡ min (retry_base * 2 ^ (n - 1)) retry_max
unfolding backoff
closed n = doubled_lem (n - 1) retry_base

-- The delay before the next attempt is five seconds, doubled for each failed attempt after the first,
-- but never more than an hour; it is at least five seconds, and never shorter after more attempts.
pub backoff-eq :
    (attempts : ℕ)
    → (backoff attempts ≡ min (retry_base * 2 ^ (attempts - 1)) retry_max)
      × (retry_base ≤ backoff attempts)
      × (backoff attempts ≤ retry_max)
      × ((more : ℕ) → attempts ≤ more → backoff attempts ≤ backoff more)
backoff-eq attempts = (
  closed attempts,
  omega (arith, closed attempts, pow-pos (attempts - 1)),
  omega (arith, closed attempts),
  λ more h.
      omega (
        arith,
        closed attempts,
        closed more,
        pow_mono (attempts - 1) (more - 1) (omega (arith, h)),
      ),
)
