-- ===== src/Webhooks/Inbox/Lookup.antt =====
-- internal/store/webhooks.go: the row of an id, and what a statement on one id leaves of the others.
use atelier_code.Shared.{
  String, true, not, ◌&&◌, ◌≡◌, refl, sym, ap, ◌∙◌, ◌≢◌, Option, none, some, [], ◌∷◌, arith,
  String-discrete, differ, if◌then◌else◌,
}
use atelier_code.Webhooks.Inbox.{Inbox, Row, is_pending, update_pending}

-- The row with an id.
unfoldable pub row_at : String → Inbox → Option Row
row_at id [] = none
row_at id (x ∷ xs) =
    let rest = row_at id xs in if not (differ String-discrete x.id id) then some x else rest

row_at-here : (id : String) (x : Row) (xs : Inbox) → x.id ≡ id → row_at id (x ∷ xs) ≡ some x
unfolding row_at
row_at-here id x xs e = ground (arith, e)

row_at-there : (id : String) (x : Row) (xs : Inbox) → x.id ≢ id → row_at id (x ∷ xs) ≡ row_at id xs
unfolding row_at
row_at-there id x xs n = ground (arith, n)

-- The row that a statement on an id leaves in a row's place.
abbrev changed : String → (Row → Row) → Row → Row
changed id f x = if not (differ String-discrete x.id id) && is_pending x then f x else x

changed-here : (f : Row → Row) (r : Row) → is_pending r ≡ true → changed r.id f r ≡ f r
changed-here f r p = ground (arith, p)

changed-there : (id : String) (f : Row → Row) (x : Row) → x.id ≢ id → changed id f x ≡ x
changed-there id f x n = ground (arith, n)

pub row_at-update :
    (r : Row) (f : Row → Row) (xs : Inbox)
    → ((x : Row) → (f x).id ≡ x.id)
    → row_at r.id xs ≡ some r
    → is_pending r ≡ true
    → row_at r.id (update_pending r.id f xs) ≡ some (f r)
unfolding update_pending row_at
row_at-update r f [] k h p = absurd (ground arith)
row_at-update r f (x ∷ xs) k h p = elim (String-discrete x.id r.id) [
  | yes e ↦
      let same : x ≡ r = cc (sym (row_at-here r.id x xs e) ∙ h) in
      ap (λ (y : Row). row_at r.id (y ∷ update_pending r.id f xs))
        (ap (changed r.id f) same ∙ changed-here f r p)
      ∙ row_at-here r.id (f r) (update_pending r.id f xs) (k r)
  | no n ↦
      ap (λ (y : Row). row_at r.id (y ∷ update_pending r.id f xs)) (changed-there r.id f x n)
      ∙ row_at-there r.id x (update_pending r.id f xs) n
      ∙ row_at-update r f xs k (sym (row_at-there r.id x xs n) ∙ h) p
]

pub row_at-other :
    (id other : String) (f : Row → Row) (xs : Inbox)
    → ((x : Row) → (f x).id ≡ x.id)
    → other ≢ id
    → row_at other (update_pending id f xs) ≡ row_at other xs
unfolding row_at update_pending
row_at-other id other f [] k n = refl
row_at-other id other f (x ∷ xs) k n = ground (arith, k x, n, row_at-other id other f xs k n)
