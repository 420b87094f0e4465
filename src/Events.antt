-- ===== src/Events.antt =====
-- internal/events/events.go: the hub that numbers changes, keeps the last ones for clients that
-- reconnect, and hands each to its subscribers. `mu` makes each method one step. A `uint64` wraps at
-- 2 ^ 64. A subscriber's channel is the list of the changes that it has still to read.
pub mod Log
pub mod Window
pub mod Replay
pub mod Delivery
use atelier_code.Shared.{
  ℕ, zero, suc, ◌+◌, ◌-◌, ◌%◌, ◌^◌, ℕ_discrete, String, Bool, true, false, ◌||◌, not, ite, ltb,
  Option, none, some, List, [], ◌∷◌, ◌++◌, differ, if◌then◌else◌,
}

-- What a caller of `Publish` gives.
pub record Draft : Type 0 where
  pub kind : String
  pub resource : String
  pub id : String

pub record Change : Type 0 where
  pub seq : ℕ
  pub draft : Draft

-- A channel and what is in its buffer; it is closed when the hub has dropped it.
pub record Subscriber : Type 0 where
  pub channel : ℕ
  pub buffer : List Change

pub record Hub : Type 0 where
  pub ring : List Change
  pub capacity : ℕ
  pub next_seq : ℕ
  pub subscribers : List Subscriber
  pub closed : List Subscriber

unfoldable pub length {ℓ} : {A : Type ℓ} → List A → ℕ
length [] = 0
length (x ∷ xs) = 1 + length xs

unfoldable pub drop {ℓ} : {A : Type ℓ} → ℕ → List A → List A
drop zero xs = xs
drop (suc n) [] = []
drop (suc n) (x ∷ xs) = drop n xs

-- Arithmetic on `uint64`.
abbrev pub add64 : ℕ → ℕ → ℕ
add64 a b = (a + b) % 2 ^ 64

abbrev pub sub64 : ℕ → ℕ → ℕ
sub64 a b = (a + 2 ^ 64 - b) % 2 ^ 64

abbrev pub subscriber_buffer : ℕ
subscriber_buffer = 64

-- `NewHubAt`.
unfoldable pub new_hub_at : ℕ → ℕ → Hub
new_hub_at backlog first = record {
  ring = [];
  capacity = backlog;
  next_seq = first;
  subscribers = [];
  closed = [];
}

-- The full ring slides by one. A ring without room makes Go panic: `none`.
unfoldable pub slide : List Change → Change → Option (List Change)
slide [] c = none
slide (x ∷ xs) c = some (xs ++ c ∷ [])

unfoldable pub push_ring : ℕ → List Change → Change → Option (List Change)
push_ring capacity ring c =
    ite (ℕ_discrete (length ring) capacity) (slide ring c) (some (ring ++ c ∷ []))

-- The send succeeds while the buffer has room; else the subscriber is dropped.
unfoldable pub has_room : Subscriber → Bool
has_room s = ltb (length s.buffer) subscriber_buffer

unfoldable pub kept_subscribers : List Subscriber → Change → List Subscriber
kept_subscribers [] c = []
kept_subscribers (s ∷ ss) c =
    let rest = kept_subscribers ss c in
    if has_room s then record s { buffer = s.buffer ++ c ∷ [] } ∷ rest else rest

unfoldable pub dropped_subscribers : List Subscriber → List Subscriber
dropped_subscribers [] = []
dropped_subscribers (s ∷ ss) =
    let rest = dropped_subscribers ss in if has_room s then rest else s ∷ rest

unfoldable pub publish : Hub → Draft → Option Hub
publish h d =
    let c : Change = record { seq = h.next_seq; draft = d } in
    elim (push_ring h.capacity h.ring c) [
      | none ↦ none
      | some ring ↦ some (record h {
        ring = ring;
        next_seq = add64 h.next_seq 1;
        subscribers = kept_subscribers h.subscribers c;
        closed = dropped_subscribers h.subscribers ++ h.closed;
      })
    ]

pub record Subscription : Type 0 where
  pub resync : Bool
  pub head : ℕ
  pub replay : List Change

-- What the cursor asks for. The slice of the ring starts at `len(h.ring)-int(newest-after)`.
unfoldable pub catch_up : Hub → ℕ → Subscription
catch_up h after =
    let newest = sub64 h.next_seq 1 in
    if ltb newest after || ltb (add64 after 1) (sub64 h.next_seq (length h.ring))
    then record { resync = true; head = newest; replay = [] }
    else if ltb after newest
    then record {
      resync = false;
      head = newest;
      replay = drop (length h.ring - sub64 newest after) h.ring;
    }
    else record { resync = false; head = newest; replay = [] }

-- `Subscribe`: `none` is a connection without a cursor, and `channel` the new channel.
unfoldable pub subscribe : Hub → Option ℕ → ℕ → Hub × Subscription
subscribe h cursor channel = (
  record h { subscribers = record { channel = channel; buffer = [] } ∷ h.subscribers },
  decide cursor,
)
  where
    decide : Option ℕ → Subscription
    decide none = record { resync = false; head = sub64 h.next_seq 1; replay = [] }
    decide (some after) = catch_up h after

unfoldable pub without : ℕ → List Subscriber → List Subscriber
without channel [] = []
without channel (s ∷ ss) =
    let rest = without channel ss in if differ ℕ_discrete s.channel channel then s ∷ rest else rest

unfoldable pub with_channel : ℕ → List Subscriber → List Subscriber
with_channel channel [] = []
with_channel channel (s ∷ ss) =
    let rest = with_channel channel ss in
    if differ ℕ_discrete s.channel channel then rest else s ∷ rest

-- `Close`: nothing happens to a subscriber that the hub dropped before.
unfoldable pub close : Hub → ℕ → Hub
close h channel = record h {
  subscribers = without channel h.subscribers;
  closed = with_channel channel h.subscribers ++ h.closed;
}
