-- ===== src/Terminals/Reaping.antt =====
-- internal/terminals/service.go, `reconcile`: which sessions a pass may kill.
use mathlib.Core.List.{Memᴰ}
use mathlib.Core.List.Memᴰ.{append_cases}
use atelier_code.Shared.{
  String, true, false, not, ◌&&◌, ◌≡◌, refl, sym, ap, ◌∙◌, inl, inr, Option, none, some, List, [],
  ◌∷◌, arith, if-cases,
}
use atelier_code.Terminals.State.{Service, has}
use atelier_code.Terminals.Reconcile.{Session, orphans, unclaimed, reaped}

-- Why a session may be killed: it is a reachable session of a complete inventory, or a leftover that
-- the backend lists, and no record claimed it when it was looked at.
pub data IsAbandoned (inventory : Option (List Session)) (leftovers : Option (List String))
    (at later : Service) (name : String) : Type 0 where
  orphan :
      (xs : List Session) (x : Session)
      → inventory ≡ some xs
      → Memᴰ x xs
      → x.name ≡ name
      → x.reachable ≡ true
      → has name at.view ≡ false
      → IsAbandoned inventory leftovers at later name
  leftover :
      (xs : List Session) (names : List String)
      → inventory ≡ some xs
      → leftovers ≡ some names
      → Memᴰ name names
      → has name later.view ≡ false
      → IsAbandoned inventory leftovers at later name

abbrev IsOrphan : List Session → Service → String → Type 0
IsOrphan xs s name =
    (x : Session) × Memᴰ x xs × (x.name ≡ name) × (x.reachable ≡ true) × (has name s.view ≡ false)

weaken :
    (x : Session) (xs : List Session) (s : Service) (name : String)
    → IsOrphan xs s name
    → IsOrphan (x ∷ xs) s name
weaken x xs s name (y, i, e, r, u) = (y, Memᴰ.tail i, e, r, u)

orphans-mem :
    (xs : List Session) (s : Service) (name : String)
    → Memᴰ name (orphans xs s)
    → IsOrphan xs s name
unfolding orphans
orphans-mem [] s name = λ m. elim m [ ]
orphans-mem (x ∷ xs) s name =
    if-cases (λ ys. Memᴰ name ys → IsOrphan (x ∷ xs) s name)
      (not (has x.name s.view) && x.reachable)
      (λ e m. elim m [
        | Memᴰ.head same ↦ (
          x,
          Memᴰ.head refl,
          sym same,
          ground (arith, e),
          ap (λ j. has j s.view) same ∙ ground (arith, e),
        )
        | Memᴰ.tail later ↦ weaken x xs s name (orphans-mem xs s name later)
      ])
      (λ e m. weaken x xs s name (orphans-mem xs s name m))

unclaimed-mem :
    (names : List String) (s : Service) (name : String)
    → Memᴰ name (unclaimed names s)
    → Memᴰ name names × (has name s.view ≡ false)
unfolding unclaimed
unclaimed-mem [] s name = λ m. elim m [ ]
unclaimed-mem (x ∷ xs) s name =
    if-cases (λ ys. Memᴰ name ys → Memᴰ name (x ∷ xs) × (has name s.view ≡ false)) (has x s.view)
      (λ e m. let (i, h) = unclaimed-mem xs s name m in (Memᴰ.tail i, h))
      (λ e m. elim m [
        | Memᴰ.head same ↦ (Memᴰ.head same, ap (λ j. has j s.view) same ∙ e)
        | Memᴰ.tail later ↦ let (i, h) = unclaimed-mem xs s name later in (Memᴰ.tail i, h)
      ])

-- A pass kills only what is abandoned: without a complete inventory nothing, and else a reachable
-- session that no record claimed when the statuses were decided, or a leftover that none claimed when
-- the backend had listed it.
pub reaped-IsAbandoned :
    (inventory : Option (List Session)) (leftovers : Option (List String)) (at later : Service)
    (name : String)
    → Memᴰ name (reaped inventory leftovers at later)
    → IsAbandoned inventory leftovers at later name
unfolding reaped
reaped-IsAbandoned none leftovers at later name m = elim m [ ]
reaped-IsAbandoned (some xs) none at later name m =
    let (x, i, e, r, u) = orphans-mem xs at name m in orphan xs x refl i e r u
reaped-IsAbandoned (some xs) (some names) at later name m = elim (append_cases (orphans xs at) m) [
  | inl h ↦ let (x, i, e, r, u) = orphans-mem xs at name h in orphan xs x refl i e r u
  | inr h ↦ let (i, u) = unclaimed-mem names later name h in leftover xs names refl refl i u
]
