-- ===== src/Shared.antt =====
-- Names, tests and lemmas that the components share: the libraries' names passed on, decisions on
-- texts, and case lemmas. Go's `string` is `String`, a time is a number of nanoseconds whose 0 is
-- the zero time, and a pointer that may be nil is an `Option`.
use Prim.Native.Nat.{compare, Ordering}
use text.Mathlib.Text.{◌==◌ as text_eq}
use text.Mathlib.TextEquality.{eq_iff}
pub use Prim.Native.Nat.{ℕ, zero, suc, ◌+◌, ◌-◌, ◌*◌, ◌/◌, ◌%◌, ◌^◌, ◌≤◌, ◌<◌, min, max}
pub use Prim.Native.String.{String}
pub use mathlib.Core.Path.{◌≡◌, refl, sym, ap, subst, ◌∙◌}
pub use mathlib.Core.Logic.{◌≢◌, ◌↔◌, ◌⊎◌, inl, inr, ite, if_pos, if_neg}
pub use mathlib.Core.Bool.{Bool, true, false, not, ◌&&◌, ◌||◌}
pub use mathlib.Core.Option.{Option, none, some}
pub use mathlib.Core.List.{List, [], ◌∷◌, ◌++◌, map}
pub use native.Mathlib.Omega.{arith}
unfoldable pub use native.Mathlib.Decide.{dec_lt, dec_le, ℕ_discrete}

infix 1 if◌then◌else◌
abbrev pub if◌then◌else◌ {ℓ} : {A : Type ℓ} → Bool → A → A → A
if true then x else y = x
if false then x else y = y

abbrev pub ltb : ℕ → ℕ → Bool
ltb a b = elim (compare a b) [ Ordering.lt ↦ true | _ ↦ false ]

abbrev pub leb : ℕ → ℕ → Bool
leb a b = elim (compare a b) [ Ordering.gt ↦ false | _ ↦ true ]

pub Bool-cases : (b : Bool) → (b ≡ true) ⊎ (b ≡ false)
Bool-cases true = inl refl
Bool-cases false = inr refl

pub Option-cases {ℓ} : {A : Type ℓ} (o : Option A) → (o ≡ none) ⊎ ((a : A) × (o ≡ some a))
Option-cases none = inl refl
Option-cases (some a) = inr (a, refl)

dec_of_test : {s t : String} (b : Bool) → (b ≡ true) ↔ (s ≡ t) → Dec (s ≡ t)
dec_of_test true h = yes (h.0 refl)
dec_of_test false h = no (λ e. cc (h.1 e))

-- `s == t` on strings, as a decision.
unfoldable pub String-discrete : Discrete String
unfolding dec_of_test
String-discrete s t = dec_of_test (text_eq s t) (eq_iff s t)

pub String-ne : (s t : String) → text_eq s t ≡ false → s ≢ t
String-ne s t h e = cc ((eq_iff s t).1 e)

-- `a != b`, as a Boolean.
abbrev pub differ {ℓ} : {A : Type ℓ} → Discrete A → A → A → Bool
differ d a b = ite (d a b) false true

-- `s == ""`.
abbrev pub is_empty : String → Bool
is_empty s = ite (String-discrete s "") true false

-- `t.IsZero()`.
abbrev pub is_zero : ℕ → Bool
is_zero t = ite (ℕ_discrete t 0) true false

abbrev pub is_some {ℓ} : {A : Type ℓ} → Option A → Bool
is_some none = false
is_some (some a) = true

-- `P` of the value, if there is one.
abbrev pub OnSome {ℓ κ} : {A : Type ℓ} → (A → Type κ) → Option A → Type κ
OnSome P none = Unit
OnSome P (some a) = P a

-- `P` of an `if`, from what holds of each branch.
pub if-cases {ℓ κ} :
    {A : Type ℓ} (P : A → Type κ) (b : Bool) {x y : A}
    → (b ≡ true → P x)
    → (b ≡ false → P y)
    → P (if b then x else y)
if-cases P true f g = f refl
if-cases P false f g = g refl

pub ltb-cases : (a b : ℕ) → ((ltb a b ≡ true) × (a < b)) ⊎ ((ltb a b ≡ false) × (b ≤ a))
ltb-cases a b = elim (dec_lt a b) [
  | yes h ↦ inl (ground (arith, h), h)
  | no h ↦ inr (ground (arith, h), omega (arith, h))
]

-- `P` of a case split on an option, from what holds of each case.
pub option-cases {ℓ κ} :
    {A B : Type ℓ} (P : B → Type κ) (o : Option A) {n : B} {f : A → B}
    → (o ≡ none → P n)
    → ((a : A) → o ≡ some a → P (f a))
    → P (elim o [ none ↦ n | some a ↦ f a ])
option-cases P none h k = h refl
option-cases P (some a) h k = k a refl
