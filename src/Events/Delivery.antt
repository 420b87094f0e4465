-- ===== src/Events/Delivery.antt =====
-- internal/events/events.go: no change is lost between the replay of a subscription and what its
-- channel then delivers.
use mathlib.Core.List.{Memᴰ}
use atelier_code.Shared.{
  ℕ, ◌+◌, ◌^◌, ◌≤◌, ◌<◌, true, ◌≡◌, refl, sym, ap, ◌∙◌, subst, dec_lt, inl, inr, Bool-cases,
  Option-cases, some, List, [], ◌∷◌, ◌++◌, arith,
}
use atelier_code.Events.{
  Draft, Change, Hub, Subscriber, length, new_hub_at, publish, subscribe, has_room, add64,
  kept_subscribers, subscriber_buffer, push_ring,
}
use atelier_code.Events.Log.{
  number, newer, publish_all, length-snoc, length-number, ++-assoc, ++-nil,
}
use atelier_code.Events.Window.{IsWindow, publish-IsWindow, publish_all-step}
use atelier_code.Events.Replay.{IsStale, published_all, newer-number, window-newer}

fits : (s : Subscriber) → length s.buffer < subscriber_buffer → has_room s ≡ true
unfolding has_room
fits s h = ground arith

-- Room in its buffer keeps a subscriber.
kept-mem :
    (s : Subscriber) (ss : List Subscriber) (c : Change)
    → Memᴰ s ss
    → length s.buffer < subscriber_buffer
    → Memᴰ (record s { buffer = s.buffer ++ c ∷ [] }) (kept_subscribers ss c)
unfolding kept_subscribers
kept-mem s [] c m h = elim m [ ]
kept-mem s (t ∷ ss) c (Memᴰ.head e) h =
    rw (ap has_room (sym e) ∙ fits s h, kept_subscribers)
      (Memᴰ.head (ap (λ (x : Subscriber). record x { buffer = x.buffer ++ c ∷ [] }) e))
kept-mem s (t ∷ ss) c (Memᴰ.tail m) h = elim (Bool-cases (has_room t)) [
  | inl e ↦ rw (e, kept_subscribers) (Memᴰ.tail (kept-mem s ss c m h))
  | inr e ↦ rw (e, kept_subscribers) (kept-mem s ss c m h)
]

publish-subscribers :
    (h k : Hub) (d : Draft)
    → publish h d ≡ some k
    → (k.subscribers ≡ kept_subscribers h.subscribers (record { seq = h.next_seq; draft = d }))
      × (k.next_seq ≡ add64 h.next_seq 1)
unfolding publish
publish-subscribers h k d e =
    elim (Option-cases (push_ring h.capacity h.ring (record { seq = h.next_seq; draft = d }))) [
      | inl f ↦ absurd (ground arith)
      | inr (r, f) ↦ (ground arith, ground arith)
    ]

-- A subscriber with room for all of them receives every change that is published next.
receives-all :
    (b first : ℕ) (log : List Change) (h : Hub) (s : Subscriber) (ds : List Draft)
    → 0 < b
    → first + length log + length ds < 2 ^ 64
    → IsWindow b first log h
    → Memᴰ s h.subscribers
    → length s.buffer + length ds ≤ subscriber_buffer
    → (k : Hub) × (publish_all h ds ≡ some k)
      × Memᴰ (record s { buffer = s.buffer ++ number (first + length log) ds }) k.subscribers
unfolding publish_all number length
receives-all b first log h s [] positive small w m room =
    (h, refl, subst (λ l. Memᴰ (record s { buffer = l }) h.subscribers) (sym (++-nil s.buffer)) m)
receives-all b first log h s (d ∷ ds) positive small w m room =
    let c : Change = record { seq = first + length log; draft = d } in
    let (k, done, next) = publish-IsWindow b first log h d positive (omega (arith, small)) w in
    let grown : Subscriber = record s { buffer = s.buffer ++ c ∷ [] } in
    let numbered : h.next_seq ≡ first + length log = w.next in
    let sent : Memᴰ grown k.subscribers =
      subst (Memᴰ grown)
        (sym (
          (publish-subscribers h k d done).0
          ∙ ap (λ n. kept_subscribers h.subscribers (record { seq = n; draft = d })) numbered))
        (kept-mem s h.subscribers c m (omega (arith, room))) in
    let (l, rest, last) =
      receives-all b first (log ++ c ∷ []) k grown ds positive
        (omega (arith, small, length-snoc log c)) next sent
        (omega (arith, room, length-snoc s.buffer c)) in
    let same : (s.buffer ++ c ∷ []) ++ number (first + length (log ++ c ∷ [])) ds
        ≡ s.buffer ++ c ∷ number (1 + (first + length log)) ds =
      ++-assoc s.buffer (c ∷ []) _
      ∙ ap (λ n. s.buffer ++ c ∷ number n ds) (omega (arith, length-snoc log c)) in
    (
      l,
      publish_all-step h k d ds done ∙ rest,
      subst (λ xs. Memᴰ (record s { buffer = xs }) l.subscribers) same last,
    )

newer-++ :
    (after : ℕ) (xs ys : List Change) → newer after (xs ++ ys) ≡ newer after xs ++ newer after ys
unfolding newer
newer-++ after [] ys = refl
newer-++ after (x ∷ xs) ys = ground (arith, newer-++ after xs ys)

number-++ :
    (first : ℕ) (ds es : List Draft)
    → number first (ds ++ es) ≡ number first ds ++ number (first + length ds) es
unfolding number length
number-++ first [] es = ap (λ n. number n es) (omega arith)
number-++ first (d ∷ ds) es =
    ap (◌∷◌ (record { seq = first; draft = d }))
      (number-++ (1 + first) ds es ∙ ap (λ n. number (1 + first) ds ++ number n es) (omega arith))

-- A client that reconnects with a cursor that is not stale, and for which up to 64 more changes are
-- then published, has in its replay and its channel together exactly the changes published after the
-- cursor, each once and in order: none is lost between the replay and the live channel.
pub subscribe-no_gap :
    (b first : ℕ) (ds es : List Draft) (after channel : ℕ)
    → 0 < b
    → 0 < first
    → first + length ds + length es < 2 ^ 64
    → length es ≤ subscriber_buffer
    → ¬ IsStale b first (length ds) after
    → (h : Hub) × (k : Hub) × (s : Subscriber) × (publish_all (new_hub_at b first) ds ≡ some h)
      × (publish_all (subscribe h (some after) channel).0 es ≡ some k)
      × Memᴰ s k.subscribers
      × (s.channel ≡ channel)
      × ((subscribe h (some after) channel).1.replay ++ s.buffer
          ≡ newer after (number first (ds ++ es)))
unfolding subscribe length
subscribe-no_gap b first ds es after channel positive one small few fresh =
    let (h, done, w) = published_all b first ds positive (omega (arith, small)) in
    let count = length-number first ds in
    let new : Subscriber = record { channel = channel; buffer = [] } in
    let (k, sent, got) =
      receives-all b first (number first ds) (subscribe h (some after) channel).0 new es positive
        (omega (arith, small, count)) (subscribed h w) (Memᴰ.head refl) (room few) in
    let live = number (first + length (number first ds)) es in
    (
      h,
      k,
      record { channel = channel; buffer = live },
      done,
      sent,
      got,
      refl,
      ap (λ xs. xs ++ live)
            (window-newer b first after channel ds h one (omega (arith, small)) w fresh).1
          ∙ ap (◌++◌ (newer after (number first ds))) (
              ap (λ n. number (first + n) es) count
              ∙ sym (newer-number after (first + length ds) es (ahead fresh)))
          ∙ sym (newer-++ after (number first ds) (number (first + length ds) es))
          ∙ ap (newer after) (sym (number-++ first ds es)),
    )
  where
    subscribed :
        (h : Hub)
        → IsWindow b first (number first ds) h
        → IsWindow b first (number first ds) (subscribe h (some after) channel).0
    subscribed h w = record { capacity = w.capacity; next = w.next; ring = w.ring }

    room : length es ≤ subscriber_buffer → length {A = Change} [] + length es ≤ subscriber_buffer
    room few = omega (arith, few)

    ahead : ¬ IsStale b first (length ds) after → after < first + length ds
    ahead fresh = elim (dec_lt after (first + length ds)) [
      | yes e ↦ e
      | no m ↦ absurd (fresh (inl (omega (arith, m))))
    ]
