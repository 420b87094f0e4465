-- ===== src/Webhooks/Inbox/Valid.antt =====
-- internal/store/webhooks.go: what holds of the inbox after every statement.
use atelier_code.Shared.{
  ℕ, ◌≤◌, String, Bool, true, false, ◌≡◌, refl, ap, ◌≢◌, inl, inr, none, [], ◌∷◌, ◌++◌, arith,
  Bool-cases, dec_le,
}
use atelier_code.Webhooks.Inbox.{
  Row, Inbox, is_pending, same_identity, has_identity, has_id, count_pending, Acceptance, accept,
  update_pending, complete, fail, completed, failed, keep_rows, prune, is_fresh,
}

-- No identity and no id stands twice.
abbrev pub AreDistinct : Inbox → Type 0
AreDistinct [] = Unit
AreDistinct (x ∷ xs) = (has_identity x xs ≡ false) × (has_id x.id xs ≡ false) × AreDistinct xs

-- A receipt has no payload.
abbrev pub AreStripped : Inbox → Type 0
AreStripped [] = Unit
AreStripped (x ∷ xs) = (is_pending x ≡ false → x.payload ≡ none) × AreStripped xs

pub record IsValid (capacity : ℕ) (inbox : Inbox) : Type 0 where
  pub distinct : AreDistinct inbox
  pub bounded : count_pending inbox ≤ capacity
  pub stripped : AreStripped inbox

has_identity-snoc :
    (x r : Row) (xs : Inbox)
    → has_identity x xs ≡ false
    → same_identity r x ≡ false
    → has_identity x (xs ++ r ∷ []) ≡ false
unfolding has_identity
has_identity-snoc x r [] h k = ground arith
has_identity-snoc x r (y ∷ ys) h k = ground (arith, has_identity-snoc x r ys)

has_id-snoc :
    (id : String) (r : Row) (xs : Inbox)
    → has_id id xs ≡ false
    → r.id ≢ id
    → has_id id (xs ++ r ∷ []) ≡ false
unfolding has_id
has_id-snoc id r [] h k = ground arith
has_id-snoc id r (y ∷ ys) h k = ground (arith, has_id-snoc id r ys)

AreDistinct-snoc :
    (r : Row) (xs : Inbox)
    → has_identity r xs ≡ false
    → has_id r.id xs ≡ false
    → AreDistinct xs
    → AreDistinct (xs ++ r ∷ [])
unfolding has_identity has_id
AreDistinct-snoc r [] h k d = (refl, refl, tt)
AreDistinct-snoc r (x ∷ xs) h k d = (
  has_identity-snoc x r xs d.0 (ground arith),
  has_id-snoc x.id r xs d.1 (ground arith),
  AreDistinct-snoc r xs (ground arith) (ground arith) d.2,
)

AreStripped-snoc :
    (r : Row) (xs : Inbox) → is_pending r ≡ true → AreStripped xs → AreStripped (xs ++ r ∷ [])
AreStripped-snoc r [] h s = (λ e. absurd (ground arith), tt)
AreStripped-snoc r (x ∷ xs) h s = (s.0, AreStripped-snoc r xs h s.1)

-- What an acceptance finds.
pub data AcceptCases (r : Row) (capacity : ℕ) (inbox : Inbox) (x : Inbox × Acceptance)
    : Type 0 where
  found :
      has_identity r inbox ≡ true
      → x.0 ≡ inbox
      → x.1 ≡ Acceptance.duplicate
      → AcceptCases r capacity inbox x
  refused :
      has_identity r inbox ≡ false
      → x.0 ≡ inbox
      → x.1 ≢ Acceptance.duplicate
      → x.1 ≢ Acceptance.accepted
      → AcceptCases r capacity inbox x
  stored :
      has_identity r inbox ≡ false
      → has_id r.id inbox ≡ false
      → count_pending (inbox ++ r ∷ []) ≤ capacity
      → x.0 ≡ inbox ++ r ∷ []
      → x.1 ≡ Acceptance.accepted
      → AcceptCases r capacity inbox x

pub accept_cases :
    (r : Row) (capacity : ℕ) (inbox : Inbox)
    → AcceptCases r capacity inbox (accept r capacity inbox)
unfolding accept
accept_cases r capacity inbox = elim (Bool-cases (has_identity r inbox)) [
  | inl e ↦ found e (ground arith) (ground arith)
  | inr e ↦ elim (Bool-cases (has_id r.id inbox)) [
    | inl f ↦ refused e (ground arith) (ground arith) (ground arith)
    | inr f ↦ elim (dec_le (count_pending (inbox ++ r ∷ [])) capacity) [
      | yes g ↦ stored e f g (ground arith) (ground arith)
      | no g ↦ refused e (ground arith) (ground arith) (ground arith)
    ]
  ]
]

pub snoc-IsValid :
    (r : Row) (capacity : ℕ) (inbox : Inbox)
    → is_pending r ≡ true
    → has_identity r inbox ≡ false
    → has_id r.id inbox ≡ false
    → count_pending (inbox ++ r ∷ []) ≤ capacity
    → IsValid capacity inbox
    → IsValid capacity (inbox ++ r ∷ [])
snoc-IsValid r capacity inbox new fresh free room v = record {
  distinct = AreDistinct-snoc r inbox fresh free v.distinct;
  bounded = room;
  stripped = AreStripped-snoc r inbox new v.stripped;
}

-- A statement on one pending row that keeps the row's identity and id.
module _ (f : Row → Row) (identity : (x r : Row) → same_identity (f x) r ≡ same_identity x r)
    (reverse : (x r : Row) → same_identity x (f r) ≡ same_identity x r)
    (id_kept : (x : Row) → (f x).id ≡ x.id) where
  has_identity-update :
      (id : String) (r : Row) (xs : Inbox)
      → has_identity r (update_pending id f xs) ≡ has_identity r xs
  unfolding has_identity update_pending
  has_identity-update id r [] = refl
  has_identity-update id r (x ∷ xs) = ground (arith, identity x r, has_identity-update id r xs)

  has_id-update : (id j : String) (xs : Inbox) → has_id j (update_pending id f xs) ≡ has_id j xs
  unfolding has_id update_pending
  has_id-update id j [] = refl
  has_id-update id j (x ∷ xs) = ground (arith, id_kept x, has_id-update id j xs)

  has_identity-changed : (x : Row) (xs : Inbox) → has_identity (f x) xs ≡ has_identity x xs
  unfolding has_identity
  has_identity-changed x [] = refl
  has_identity-changed x (y ∷ ys) = ground (arith, reverse y x, has_identity-changed x ys)

  update_pending-AreDistinct :
      (id : String) (xs : Inbox) → AreDistinct xs → AreDistinct (update_pending id f xs)
  unfolding update_pending
  update_pending-AreDistinct id [] d = tt
  update_pending-AreDistinct id (x ∷ xs) d = (
    ground (
      arith,
      has_identity-update id x xs,
      has_identity-update id (f x) xs,
      has_identity-changed x xs,
      d.0,
    ),
    ground (
      arith,
      has_id-update id x.id xs,
      has_id-update id (f x).id xs,
      id_kept x,
      ap (λ j. has_id j xs) (id_kept x),
      d.1,
    ),
    update_pending-AreDistinct id xs d.2,
  )

count-complete :
    (id : String) (at : ℕ) (xs : Inbox) → count_pending (complete id at xs) ≤ count_pending xs
unfolding complete update_pending count_pending
count-complete id at [] = omega arith
count-complete id at (x ∷ xs) = ground (arith, count-complete id at xs)

count-fail :
    (id : String) (n next : ℕ) (xs : Inbox) → count_pending (fail id n next xs) ≡ count_pending xs
unfolding fail update_pending count_pending
count-fail id n next [] = refl
count-fail id n next (x ∷ xs) = ground (arith, count-fail id n next xs)

complete-AreStripped :
    (id : String) (at : ℕ) (xs : Inbox) → AreStripped xs → AreStripped (complete id at xs)
unfolding complete update_pending
complete-AreStripped id at [] s = tt
complete-AreStripped id at (x ∷ xs) s = (ground (arith, s.0), complete-AreStripped id at xs s.1)

fail-AreStripped :
    (id : String) (n next : ℕ) (xs : Inbox) → AreStripped xs → AreStripped (fail id n next xs)
unfolding fail update_pending
fail-AreStripped id n next [] s = tt
fail-AreStripped id n next (x ∷ xs) s = (ground (arith, s.0), fail-AreStripped id n next xs s.1)

pub complete-IsValid :
    (capacity : ℕ) (id : String) (at : ℕ) (inbox : Inbox)
    → IsValid capacity inbox
    → IsValid capacity (complete id at inbox)
unfolding complete
complete-IsValid capacity id at inbox v = record {
  distinct =
      update_pending-AreDistinct (completed at) (λ x r. refl) (λ x r. refl) (λ x. refl) id inbox
        v.distinct;
  bounded = omega (arith, count-complete id at inbox, v.bounded);
  stripped = complete-AreStripped id at inbox v.stripped;
}

pub fail-IsValid :
    (capacity : ℕ) (id : String) (n next : ℕ) (inbox : Inbox)
    → IsValid capacity inbox
    → IsValid capacity (fail id n next inbox)
unfolding fail
fail-IsValid capacity id n next inbox v = record {
  distinct =
      update_pending-AreDistinct (failed n next) (λ x r. refl) (λ x r. refl) (λ x. refl) id inbox
        v.distinct;
  bounded = omega (arith, count-fail id n next inbox, v.bounded);
  stripped = fail-AreStripped id n next inbox v.stripped;
}

pub has_identity-complete :
    (r : Row) (id : String) (at : ℕ) (xs : Inbox)
    → has_identity r (complete id at xs) ≡ has_identity r xs
unfolding complete
has_identity-complete r id at xs =
    has_identity-update (completed at) (λ x r. refl) (λ x r. refl) (λ x. refl) id r xs

pub has_identity-fail :
    (r : Row) (id : String) (n next : ℕ) (xs : Inbox)
    → has_identity r (fail id n next xs) ≡ has_identity r xs
unfolding fail
has_identity-fail r id n next xs =
    has_identity-update (failed n next) (λ x r. refl) (λ x r. refl) (λ x. refl) id r xs

module _ (p : Row → Bool) where
  has_identity-keep_rows :
      (r : Row) (xs : Inbox) → has_identity r xs ≡ false → has_identity r (keep_rows p xs) ≡ false
  unfolding has_identity keep_rows
  has_identity-keep_rows r [] h = refl
  has_identity-keep_rows r (x ∷ xs) h = ground (arith, has_identity-keep_rows r xs)

  has_id-keep_rows :
      (id : String) (xs : Inbox) → has_id id xs ≡ false → has_id id (keep_rows p xs) ≡ false
  unfolding has_id keep_rows
  has_id-keep_rows id [] h = refl
  has_id-keep_rows id (x ∷ xs) h = ground (arith, has_id-keep_rows id xs)

  keep_rows-AreDistinct : (xs : Inbox) → AreDistinct xs → AreDistinct (keep_rows p xs)
  unfolding keep_rows
  keep_rows-AreDistinct [] d = tt
  keep_rows-AreDistinct (x ∷ xs) d = elim (Bool-cases (p x)) [
    | inl e ↦ rw e (
      has_identity-keep_rows x xs d.0,
      has_id-keep_rows x.id xs d.1,
      keep_rows-AreDistinct xs d.2,
    )
    | inr e ↦ rw e (keep_rows-AreDistinct xs d.2)
  ]

  count-keep_rows : (xs : Inbox) → count_pending (keep_rows p xs) ≤ count_pending xs
  unfolding count_pending keep_rows
  count-keep_rows [] = omega arith
  count-keep_rows (x ∷ xs) = ground (arith, count-keep_rows xs)

  keep_rows-AreStripped : (xs : Inbox) → AreStripped xs → AreStripped (keep_rows p xs)
  unfolding keep_rows
  keep_rows-AreStripped [] s = tt
  keep_rows-AreStripped (x ∷ xs) s = elim (Bool-cases (p x)) [
    | inl e ↦ rw e (s.0, keep_rows-AreStripped xs s.1)
    | inr e ↦ rw e (keep_rows-AreStripped xs s.1)
  ]

  keep_rows-IsValid :
      (capacity : ℕ) (xs : Inbox) → IsValid capacity xs → IsValid capacity (keep_rows p xs)
  keep_rows-IsValid capacity xs v = record {
    distinct = keep_rows-AreDistinct xs v.distinct;
    bounded = omega (arith, count-keep_rows xs, v.bounded);
    stripped = keep_rows-AreStripped xs v.stripped;
  }

pub prune-IsValid :
    (below : String → String → Bool) (cutoff keep capacity : ℕ) (inbox : Inbox)
    → IsValid capacity inbox
    → IsValid capacity (prune below cutoff keep inbox)
unfolding prune
prune-IsValid below cutoff keep capacity inbox v =
    keep_rows-IsValid _ capacity _ (keep_rows-IsValid (is_fresh cutoff) capacity inbox v)
