-- ===== src/Ids/Letters.antt =====
-- internal/ids/ids.go, `mint`: which letters a suffix has.
use atelier_code.Shared.{
  ℕ, zero, suc, ◌+◌, ◌-◌, ◌<◌, ◌≤◌, Bool, true, false, not, ◌&&◌, ◌≡◌, refl, ap, ◌∙◌, Option, none,
  some, List, [], ◌∷◌, arith, ℕ_discrete, differ, if-cases, ltb, leb, if◌then◌else◌,
}
use atelier_code.Ids.{Suffix, add, place, limit, alphabet_length, read_buffer, fill}

unfoldable pub length : List ℕ → ℕ
length [] = 0
length (k ∷ ks) = 1 + length ks

-- Places in the alphabet.
abbrev pub ArePlaces : List ℕ → Type 0
ArePlaces [] = Unit
ArePlaces (k ∷ ks) = (k < alphabet_length) × ArePlaces ks

-- The bytes that count.
unfoldable pub accepted_bytes : List ℕ → ℕ
accepted_bytes [] = 0
accepted_bytes (b ∷ bs) = (if leb limit b then 0 else 1) + accepted_bytes bs

unfoldable pub accepted_in : List (List ℕ) → ℕ
accepted_in [] = 0
accepted_in (bs ∷ rest) = accepted_bytes bs + accepted_in rest

-- A suffix on its way to `n` letters.
abbrev IsPartial : ℕ → Suffix → Type 0
IsPartial n x = (length x.places + x.missing ≡ n) × ArePlaces x.places

add-IsPartial :
    (n b : ℕ) (x : Suffix) → ltb 0 x.missing ≡ true → IsPartial n x → IsPartial n (add (place b) x)
unfolding place length
add-IsPartial n b x h p =
    if-cases (λ o. IsPartial n (add o x)) (leb limit b) (λ e. p)
      (λ e.
        let some_left : 0 < x.missing = ground (arith, h) in
        (omega (arith, p.0, some_left), (omega arith, p.1)))

read_buffer-IsPartial :
    (n : ℕ) (bs : List ℕ) (x : Suffix) → IsPartial n x → IsPartial n (read_buffer bs x)
unfolding read_buffer
read_buffer-IsPartial n [] x p = p
read_buffer-IsPartial n (b ∷ bs) x p =
    if-cases (IsPartial n) (ltb 0 x.missing)
      (λ e. read_buffer-IsPartial n bs (add (place b) x) (add-IsPartial n b x e p)) (λ e. p)

add-missing :
    (c : Bool) (k a : ℕ) (x : Suffix)
    → (add (if c then none else some k) x).missing - a ≡ x.missing - ((if c then 0 else 1) + a)
add-missing true k a x = omega arith
add-missing false k a x = omega arith

read_buffer-missing :
    (bs : List ℕ) (x : Suffix) → (read_buffer bs x).missing ≡ x.missing - accepted_bytes bs
unfolding read_buffer accepted_bytes place
read_buffer-missing [] x = omega arith
read_buffer-missing (b ∷ bs) x =
    if-cases (λ (y : Suffix). y.missing ≡ x.missing - accepted_bytes (b ∷ bs)) (ltb 0 x.missing)
      (λ e.
        read_buffer-missing bs (add (place b) x)
        ∙ add-missing (leb limit b) _ (accepted_bytes bs) x)
      (λ e. ground (arith, e))

-- The letters of a suffix that has been filled.
abbrev pub IsSuffix : ℕ → Option (List ℕ) → Type 0
IsSuffix n o = (ks : List ℕ) × (o ≡ some ks) × (length ks ≡ n) × ArePlaces ks

fill-IsSuffix :
    (n : ℕ) (buffers : List (List ℕ)) (x : Suffix)
    → IsPartial n x
    → x.missing ≤ accepted_in buffers
    → IsSuffix n (fill buffers x)
unfolding fill accepted_in
fill-IsSuffix n [] x p h =
    if-cases (IsSuffix n) (ltb 0 x.missing) (λ e. absurd (ground (arith, e, h)))
      (λ e. (x.places, refl, omega (arith, p.0, h), p.1))
fill-IsSuffix n (bs ∷ rest) x p h =
    if-cases (IsSuffix n) (ltb 0 x.missing)
      (λ e.
        fill-IsSuffix n rest (read_buffer bs x) (read_buffer-IsPartial n bs x p)
          (omega (arith, h, read_buffer-missing bs x)))
      (λ e.
        let full : x.missing ≡ 0 = ground (arith, e) in
        (x.places, refl, omega (arith, p.0, full), p.1))

-- Minting ends as soon as enough of the random bytes count: if at least `n` bytes of the buffers are
-- below the limit, the suffix has exactly `n` letters, and each of them is of the alphabet.
pub fill-letters :
    (n : ℕ) (buffers : List (List ℕ))
    → n ≤ accepted_in buffers
    → IsSuffix n (fill buffers (record { places = []; missing = n }))
unfolding length
fill-letters n buffers h =
    fill-IsSuffix n buffers (record { places = []; missing = n }) (omega arith, tt) h

-- How many of the bytes below `n` stand for the place `k`.
unfoldable pub bytes_for : ℕ → ℕ → ℕ
bytes_for k zero = 0
bytes_for k (suc n) =
    elim (place n) [ none ↦ 0 | some j ↦ if differ ℕ_discrete j k then 0 else 1 ] + bytes_for k n

unfoldable all_below : (ℕ → Bool) → ℕ → Bool
all_below p zero = true
all_below p (suc n) = p n && all_below p n

all_below-at : (p : ℕ → Bool) (n k : ℕ) → all_below p n ≡ true → k < n → p k ≡ true
unfolding all_below
all_below-at p zero k h l = absurd (omega (arith, l))
all_below-at p (suc n) k h l = elim (ℕ_discrete k n) [
  | yes e ↦ ap p e ∙ ground (arith, h)
  | no o ↦ all_below-at p n k (ground (arith, h)) (omega (arith, l, o))
]

nine : all_below (λ k. not (differ ℕ_discrete (bytes_for k 256) 9)) alphabet_length ≡ true
unfolding all_below bytes_for place ℕ_discrete
nine = refl

-- Every letter of the alphabet stands for exactly nine of the 256 values of a byte, so letters drawn
-- from uniform bytes are uniform.
pub bytes_for-nine : (k : ℕ) → k < alphabet_length → bytes_for k 256 ≡ 9
bytes_for-nine k h = ground (arith, all_below-at _ alphabet_length k nine h)
