-- ===== src/Events/Log.antt =====
-- The log of what a hub published, numbered in order, and what it has after a cursor; with the lemmas
-- on slices that the ring needs.
use atelier_code.Shared.{
  ℕ, zero, suc, ◌+◌, ◌-◌, ◌≤◌, ◌<◌, ltb, ◌≡◌, refl, sym, ap, ◌∙◌, Option, none, some, List, [], ◌∷◌,
  ◌++◌, arith, if◌then◌else◌,
}
use atelier_code.Events.{Draft, Change, Hub, length, drop, slide, publish}

-- The published changes, as they are numbered from `first`.
unfoldable pub number : ℕ → List Draft → List Change
number first [] = []
number first (d ∷ ds) = record { seq = first; draft = d } ∷ number (1 + first) ds

-- The changes after a cursor.
unfoldable pub newer : ℕ → List Change → List Change
newer after [] = []
newer after (c ∷ cs) = if ltb after c.seq then c ∷ newer after cs else newer after cs

unfoldable pub publish_all : Hub → List Draft → Option Hub
publish_all h [] = some h
publish_all h (d ∷ ds) = elim (publish h d) [ none ↦ none | some k ↦ publish_all k ds ]

pub length-++ : {A : Type 0} (xs ys : List A) → length (xs ++ ys) ≡ length xs + length ys
unfolding length
length-++ [] ys = omega arith
length-++ (x ∷ xs) ys = omega (arith, length-++ xs ys)

pub length-snoc : {A : Type 0} (xs : List A) (x : A) → length (xs ++ x ∷ []) ≡ suc (length xs)
unfolding length
length-snoc xs x = omega (arith, length-++ xs (x ∷ []))

pub length-number : (first : ℕ) (ds : List Draft) → length (number first ds) ≡ length ds
unfolding length number
length-number first [] = refl
length-number first (d ∷ ds) = omega (arith, length-number (1 + first) ds)

pub length-drop : {A : Type 0} (n : ℕ) (xs : List A) → length (drop n xs) ≡ length xs - n
unfolding length drop
length-drop zero xs = omega arith
length-drop (suc n) [] = omega arith
length-drop (suc n) (x ∷ xs) = omega (arith, length-drop n xs)

pub drop-++ :
    {A : Type 0} (n : ℕ) (xs ys : List A) → n ≤ length xs → drop n (xs ++ ys) ≡ drop n xs ++ ys
unfolding length drop
drop-++ zero xs ys h = refl
drop-++ (suc n) [] ys h = absurd (omega (arith, h))
drop-++ (suc n) (x ∷ xs) ys h = drop-++ n xs ys (omega (arith, h))

pub drop-nil : {A : Type 0} (n : ℕ) → drop {A = A} n [] ≡ []
unfolding drop
drop-nil zero = refl
drop-nil (suc n) = refl

pub drop-drop : {A : Type 0} (m n : ℕ) (xs : List A) → drop m (drop n xs) ≡ drop (n + m) xs
unfolding drop
drop-drop m zero xs = ap (λ k. drop k xs) (omega arith)
drop-drop m (suc n) [] = drop-nil m ∙ sym (drop-nil (suc n + m))
drop-drop m (suc n) (x ∷ xs) = drop-drop m n xs ∙ ap (λ k. drop k (x ∷ xs)) (one_more n m)
  where
    one_more : (n m : ℕ) → suc (n + m) ≡ suc n + m
    one_more n m = omega arith

pub slide-lem :
    (n : ℕ) (xs : List Change) (c : Change)
    → n < length xs
    → slide (drop n xs) c ≡ some (drop (suc n) (xs ++ c ∷ []))
unfolding slide drop length
slide-lem zero [] c h = absurd (omega (arith, h))
slide-lem zero (x ∷ xs) c h = refl
slide-lem (suc n) [] c h = absurd (omega (arith, h))
slide-lem (suc n) (x ∷ xs) c h = slide-lem n xs c (omega (arith, h))

pub ++-assoc : {A : Type 0} (xs ys zs : List A) → (xs ++ ys) ++ zs ≡ xs ++ (ys ++ zs)
++-assoc [] ys zs = refl
++-assoc (x ∷ xs) ys zs = ap (◌∷◌ x) (++-assoc xs ys zs)

pub ++-nil : {A : Type 0} (xs : List A) → xs ++ [] ≡ xs
++-nil [] = refl
++-nil (x ∷ xs) = ap (◌∷◌ x) (++-nil xs)

pub drop-all : {A : Type 0} (n : ℕ) (xs : List A) → length xs ≤ n → drop n xs ≡ []
unfolding drop length
drop-all n [] h = drop-nil n
drop-all zero (x ∷ xs) h = absurd (omega (arith, h))
drop-all (suc n) (x ∷ xs) h = drop-all n xs (omega (arith, h))
