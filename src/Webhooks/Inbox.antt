-- ===== src/Webhooks/Inbox.antt =====
-- internal/store/webhooks.go with its statements in internal/store/queries.sql: the inbox table. Its
-- rows stand in the order of their insertion. An operation that the database refuses changes nothing
-- and is left to the caller (`World.refuses` of Webhooks/Service).
pub mod Valid
pub mod Lookup
use atelier_code.Shared.{
  ℕ, zero, suc, ◌+◌, ◌-◌, ℕ_discrete, String, Bool, true, false, not, ◌&&◌, ◌||◌, Option, none,
  some, List, [], ◌∷◌, ◌++◌, String-discrete, differ, ltb, leb, if◌then◌else◌,
}

-- A row of `webhook_deliveries`: pending while it has no time of completion.
pub record Row : Type 0 where
  pub id : String
  pub integration_id : String
  pub route : String
  pub delivery_id : String
  pub payload : Option String
  pub attempts : ℕ
  pub next_attempt_at : ℕ
  pub accepted_at : ℕ
  pub completed_at : Option ℕ

abbrev pub Inbox : Type 0
Inbox = List Row

abbrev pub is_pending : Row → Bool
is_pending r = elim r.completed_at [ none ↦ true | some _ ↦ false ]

abbrev pub same_identity : Row → Row → Bool
same_identity a b =
    not (differ String-discrete a.integration_id b.integration_id)
    && not (differ String-discrete a.delivery_id b.delivery_id)

-- UNIQUE (integration_id, delivery_id).
unfoldable pub has_identity : Row → Inbox → Bool
has_identity r [] = false
has_identity r (x ∷ xs) = same_identity x r || has_identity r xs

unfoldable pub has_id : String → Inbox → Bool
has_id id [] = false
has_id id (x ∷ xs) = not (differ String-discrete x.id id) || has_id id xs

-- `CountPendingWebhookDeliveries`.
unfoldable pub count_pending : Inbox → ℕ
count_pending [] = 0
count_pending (x ∷ xs) = (if is_pending x then 1 else 0) + count_pending xs

pub data Acceptance : Type 0 where
  accepted duplicate inbox_full id_taken : Acceptance

-- `Accept`: the insertion and the count are one transaction, which a full inbox rolls back.
unfoldable pub accept : Row → ℕ → Inbox → Inbox × Acceptance
accept r capacity inbox =
    if has_identity r inbox
    then (inbox, duplicate)
    else if has_id r.id inbox
    then (inbox, id_taken)
    else if ltb capacity (count_pending (inbox ++ r ∷ []))
    then (inbox, inbox_full)
    else (inbox ++ r ∷ [], accepted)

-- A statement on the pending row with an id.
unfoldable pub update_pending : String → (Row → Row) → Inbox → Inbox
update_pending id f [] = []
update_pending id f (x ∷ xs) =
    (if not (differ String-discrete x.id id) && is_pending x then f x else x)
    ∷ update_pending id f xs

-- `Complete`: the payload goes, the receipt stays.
abbrev pub completed : ℕ → Row → Row
completed at r = record r { payload = none; completed_at = some at }

unfoldable pub complete : String → ℕ → Inbox → Inbox
complete id at = update_pending id (completed at)

abbrev pub failed : ℕ → ℕ → Row → Row
failed attempts next r = record r { attempts = attempts; next_attempt_at = next }

-- `Fail`.
unfoldable pub fail : String → ℕ → ℕ → Inbox → Inbox
fail id attempts next = update_pending id (failed attempts next)

unfoldable pub keep_rows : (Row → Bool) → Inbox → Inbox
keep_rows p [] = []
keep_rows p (x ∷ xs) = let rest = keep_rows p xs in if p x then x ∷ rest else rest

-- `PruneAgedWebhookReceipts`.
abbrev pub is_fresh : ℕ → Row → Bool
is_fresh cutoff r = elim r.completed_at [ none ↦ true | some at ↦ leb cutoff at ]

-- The receipts that stand before `r` in the order completed_at DESC, id DESC; `below` is the order of
-- the database on texts.
abbrev pub stands_before : (String → String → Bool) → ℕ → String → Row → Bool
stands_before below at id x = elim x.completed_at [
  | none ↦ false
  | some other ↦ ltb at other || not (differ ℕ_discrete at other) && below id x.id
]

unfoldable pub count_before : (String → String → Bool) → ℕ → String → Inbox → ℕ
count_before below at id [] = 0
count_before below at id (x ∷ xs) =
    (if stands_before below at id x then 1 else 0) + count_before below at id xs

-- `PruneExcessWebhookReceipts`: a receipt goes if `keep` others stand before it.
abbrev pub is_among : (String → String → Bool) → ℕ → Inbox → Row → Bool
is_among below keep inbox r = elim r.completed_at [
  | none ↦ true
  | some at ↦ ltb (count_before below at r.id inbox) keep
]

-- `Prune`.
unfoldable pub prune : (String → String → Bool) → ℕ → ℕ → Inbox → Inbox
prune below cutoff keep inbox =
    let aged = keep_rows (is_fresh cutoff) inbox in keep_rows (is_among below keep aged) aged

abbrev pub is_due : ℕ → Row → Bool
is_due now r = is_pending r && leb r.next_attempt_at now

-- ORDER BY next_attempt_at, accepted_at, id.
abbrev pub is_sooner : (String → String → Bool) → Row → Row → Bool
is_sooner below a b =
    ltb a.next_attempt_at b.next_attempt_at
    || not (differ ℕ_discrete a.next_attempt_at b.next_attempt_at)
      && (ltb a.accepted_at b.accepted_at
          || not (differ ℕ_discrete a.accepted_at b.accepted_at) && below a.id b.id)

unfoldable pub insert_sooner : (String → String → Bool) → Row → Inbox → Inbox
insert_sooner below r [] = r ∷ []
insert_sooner below r (x ∷ xs) =
    let rest = insert_sooner below r xs in if is_sooner below x r then x ∷ rest else r ∷ x ∷ xs

unfoldable pub sorted_due : (String → String → Bool) → ℕ → Inbox → Inbox
sorted_due below now [] = []
sorted_due below now (x ∷ xs) =
    let rest = sorted_due below now xs in if is_due now x then insert_sooner below x rest else rest

unfoldable pub first_rows : ℕ → Inbox → Inbox
first_rows zero xs = []
first_rows (suc n) [] = []
first_rows (suc n) (x ∷ xs) = x ∷ first_rows n xs

-- `Due`.
unfoldable pub due : (String → String → Bool) → ℕ → ℕ → Inbox → Inbox
due below now limit inbox = first_rows limit (sorted_due below now inbox)
