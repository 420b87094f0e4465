-- ===== src/Tests/Streams.antt =====
-- Publications on a small hub.
use mathlib.Core.List.{Memᴰ}
use atelier_code.Shared.{
  ℕ, ◌+◌, ◌^◌, ◌≤◌, ◌<◌, true, false, ◌≡◌, inl, inr, some, List, [], ◌∷◌, ◌++◌, arith,
}
use atelier_code.Events.{Draft, Hub, Subscriber, length, new_hub_at, subscribe}
use atelier_code.Events.Log.{number, newer, publish_all}
use atelier_code.Events.Replay.{IsStale, subscribe-replay}
use atelier_code.Events.Delivery.{subscribe-no_gap}

abbrev draft : Draft
draft = record { kind = "thread.updated"; resource = "thread"; id = "a" }

abbrev three : List Draft
three = draft ∷ draft ∷ draft ∷ []

abbrev one_more : List Draft
one_more = draft ∷ []

abbrev cursor : ℕ
cursor = 5

cursor-fresh : ¬ IsStale 2 5 (length three) cursor
unfolding length
cursor-fresh h = elim h [ inl e ↦ omega (arith, e) | inr e ↦ omega (arith, e) ]

three-small : 5 + length three < 2 ^ 64
unfolding length
three-small = omega arith

four-small : 5 + length three + length one_more < 2 ^ 64
unfolding length
four-small = omega arith

one-few : length one_more ≤ 64
unfolding length
one-few = omega arith

subscribe-replay_example :
    (h : Hub) × (publish_all (new_hub_at 2 5) three ≡ some h)
    × (let s = (subscribe h (some cursor) 1).1 in
        (IsStale 2 5 (length three) cursor → (s.resync ≡ true) × (s.replay ≡ []))
        × (¬ IsStale 2 5 (length three) cursor
            → (s.resync ≡ false) × (s.replay ≡ newer cursor (number 5 three))))
subscribe-replay_example =
    subscribe-replay 2 5 three cursor 1 (omega arith) (omega arith) three-small

subscribe-no_gap_example :
    (h : Hub) × (k : Hub) × (s : Subscriber) × (publish_all (new_hub_at 2 5) three ≡ some h)
    × (publish_all (subscribe h (some cursor) 1).0 one_more ≡ some k)
    × Memᴰ s k.subscribers
    × (s.channel ≡ 1)
    × ((subscribe h (some cursor) 1).1.replay ++ s.buffer
        ≡ newer cursor (number 5 (three ++ one_more)))
subscribe-no_gap_example =
    subscribe-no_gap 2 5 three one_more cursor 1 (omega arith) (omega arith) four-small one-few
      cursor-fresh
