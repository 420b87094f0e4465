-- ===== src/Events/Replay.antt =====
-- internal/events/events.go, `Subscribe`: the replay of a cursor is exactly what was published after
-- it.
use atelier_code.Shared.{
  ℕ, zero, suc, ◌+◌, ◌-◌, ◌^◌, ◌≤◌, ◌<◌, true, false, ◌≡◌, refl, sym, ap, ◌∙◌, subst, ◌⊎◌, dec_le,
  dec_lt, inl, inr, some, List, [], ◌∷◌, arith,
}
use atelier_code.Events.{
  Draft, Change, Hub, length, drop, new_hub_at, catch_up, subscribe, add64, sub64,
}
use atelier_code.Events.Log.{
  number, newer, publish_all, length-number, length-drop, drop-nil, drop-drop, drop-all,
}
use atelier_code.Events.Window.{IsWindow, publish_all-IsWindow, new_hub_at-IsWindow}

pub newer-number :
    (after first : ℕ) (ds : List Draft)
    → after < first
    → newer after (number first ds) ≡ number first ds
unfolding newer number
newer-number after first [] h = refl
newer-number after first (d ∷ ds) h =
    ground (arith, newer-number after (1 + first) ds (omega (arith, h)))

newer-drop :
    (after first : ℕ) (ds : List Draft)
    → first ≤ after + 1
    → newer after (number first ds) ≡ drop (after + 1 - first) (number first ds)
unfolding newer number drop
newer-drop after first [] h = sym (drop-nil (after + 1 - first))
newer-drop after first (d ∷ ds) h = elim (dec_le first after) [
  | yes e ↦
      let ih = newer-drop after (1 + first) ds (omega (arith, e)) in
      let same : suc (after + 1 - (1 + first)) ≡ after + 1 - first = omega (arith, e) in
      ground (arith, ih, ap (λ k. drop k (number first (d ∷ ds))) same)
  | no n ↦
      let same : zero ≡ after + 1 - first = omega (arith, n) in
      ground (
        arith,
        newer-number after (1 + first) ds (omega (arith, n)),
        ap (λ k. drop k (number first (d ∷ ds))) same,
      )
]

-- The cursor is one that the hub cannot answer: it is not below the next number, or the number after
-- it is below that of the oldest change in the ring. In an empty ring that is the next number, so a
-- cursor of an earlier run is stale too.
abbrev pub IsStale : ℕ → ℕ → ℕ → ℕ → Type 0
IsStale b first published after =
    (first + published ≤ after) ⊎ (after + 1 < first + (published - b))

sub64-lem : (a b : ℕ) → b ≤ a → a < 2 ^ 64 → sub64 a b ≡ a - b
sub64-lem a b h k = omega (arith, h, k)

add64-lem : (a : ℕ) → a + 1 < 2 ^ 64 → add64 a 1 ≡ a + 1
add64-lem a h = omega (arith, h)

-- What `catch_up` computes from, without the machine's arithmetic.
record Bounds (b first published : ℕ) (h : Hub) : Type 0 where
  newest : sub64 h.next_seq 1 ≡ first + published - 1
  oldest : sub64 h.next_seq (length h.ring) ≡ first + (published - b)
  length_ring : length h.ring ≡ published - (published - b)

window-Bounds :
    (b first : ℕ) (log : List Change) (h : Hub)
    → 0 < first
    → first + length log < 2 ^ 64
    → IsWindow b first log h
    → Bounds b first (length log) h
window-Bounds b first log h one small w =
    let ring : length h.ring ≡ length log - (length log - b) =
      ap length w.ring ∙ length-drop (length log - b) log in
    record {
      newest =
          sub64-lem h.next_seq 1 (omega (arith, w.next, one)) (omega (arith, w.next, small))
          ∙ omega (arith, w.next);
      oldest =
          sub64-lem h.next_seq (length h.ring) (omega (arith, w.next, ring))
            (omega (arith, w.next, small))
          ∙ omega (arith, w.next, ring);
      length_ring = ring;
    }

catch_up-stale :
    (b first n after : ℕ) (h : Hub)
    → first + n < 2 ^ 64
    → Bounds b first n h
    → 0 < first
    → IsStale b first n after
    → ((catch_up h after).resync ≡ true) × ((catch_up h after).replay ≡ [])
unfolding catch_up
catch_up-stale b first n after h small p one (inl ahead) = ground (arith, p.newest)
catch_up-stale b first n after h small p one (inr behind) =
    ground (arith, p.oldest, add64-lem after (omega (arith, behind, small)))

catch_up-fresh :
    (b first n after : ℕ) (h : Hub)
    → first + n < 2 ^ 64
    → Bounds b first n h
    → after < first + n
    → first + (n - b) ≤ after + 1
    → ((catch_up h after).resync ≡ false)
      × (((after + 1 ≡ first + n) × ((catch_up h after).replay ≡ []))
          ⊎ ((after + 1 < first + n)
              × ((catch_up h after).replay
                  ≡ drop (length h.ring - (first + n - 1 - after)) h.ring)))
unfolding catch_up
catch_up-fresh b first n after h small p ahead behind =
    let next = add64-lem after (omega (arith, ahead, small)) in
    elim (dec_lt after (first + n - 1)) [
      | yes e ↦
          let distance : sub64 (sub64 h.next_seq 1) after ≡ first + n - 1 - after =
            ap (λ k. sub64 k after) p.newest
            ∙ sub64-lem (first + n - 1) after (omega (arith, e)) (omega (arith, small)) in
          let start = ap (λ k. drop (length h.ring - k) h.ring) distance in
          (
            ground (arith, p.newest, p.oldest, next),
            inr (omega (arith, e), ground (arith, p.newest, p.oldest, next, start)),
          )
      | no m ↦ (
        ground (arith, p.newest, p.oldest, next),
        inl (omega (arith, m, ahead), ground (arith, p.newest, p.oldest, next)),
      )
    ]

-- A slice of the window is what was published after the cursor.
replay-newer :
    (b first after : ℕ) (ds : List Draft) (h : Hub)
    → Bounds b first (length ds) h
    → h.ring ≡ drop (length ds - b) (number first ds)
    → after < first + length ds
    → first + (length ds - b) ≤ after + 1
    → drop (length h.ring - (first + length ds - 1 - after)) h.ring ≡ newer after (number first ds)
replay-newer b first after ds h p ring ahead behind =
    ap (drop (length h.ring - (first + length ds - 1 - after))) ring
    ∙ drop-drop _ (length ds - b) (number first ds)
    ∙ ap (λ k. drop k (number first ds)) (omega (arith, p.length_ring, ahead, behind))
    ∙ sym (newer-drop after first ds (omega (arith, behind)))

replay-none :
    (first after : ℕ) (ds : List Draft)
    → after + 1 ≡ first + length ds
    → [] ≡ newer after (number first ds)
replay-none first after ds e =
    sym (drop-all (after + 1 - first) (number first ds) (omega (arith, e, length-number first ds)))
    ∙ sym (newer-drop after first ds (omega (arith, e)))

catch_up-newer :
    (b first after : ℕ) (ds : List Draft) (h : Hub)
    → first + length ds < 2 ^ 64
    → Bounds b first (length ds) h
    → h.ring ≡ drop (length ds - b) (number first ds)
    → ¬ IsStale b first (length ds) after
    → ((catch_up h after).resync ≡ false)
      × ((catch_up h after).replay ≡ newer after (number first ds))
catch_up-newer b first after ds h small p ring fresh =
    let ahead : after < first + length ds = elim (dec_lt after (first + length ds)) [
      | yes e ↦ e
      | no m ↦ absurd (fresh (inl (omega (arith, m))))
    ] in
    let behind : first + (length ds - b) ≤ after + 1 =
      elim (dec_le (first + (length ds - b)) (after + 1)) [
        | yes e ↦ e
        | no m ↦ absurd (fresh (inr (omega (arith, m))))
      ] in
    let (calm, found) = catch_up-fresh b first (length ds) after h small p ahead behind in
    (
      calm,
      elim found [
        | inl (e, none_new) ↦ none_new ∙ replay-none first after ds e
        | inr (e, slice) ↦ slice ∙ replay-newer b first after ds h p ring ahead behind
      ],
    )

-- The window of a hub that started with nothing.
pub published_all :
    (b first : ℕ) (ds : List Draft)
    → 0 < b
    → first + length ds < 2 ^ 64
    → (h : Hub) × (publish_all (new_hub_at b first) ds ≡ some h)
      × IsWindow b first (number first ds) h
unfolding length
published_all b first ds positive small =
    let (h, done, w) =
      publish_all-IsWindow b first [] (new_hub_at b first) ds positive (omega (arith, small))
        (new_hub_at-IsWindow b first) in
    (h, done, subst (λ n. IsWindow b first (number n ds) h) (omega arith) w)

pub window-newer :
    (b first after channel : ℕ) (ds : List Draft) (h : Hub)
    → 0 < first
    → first + length ds < 2 ^ 64
    → IsWindow b first (number first ds) h
    → ¬ IsStale b first (length ds) after
    → ((subscribe h (some after) channel).1.resync ≡ false)
      × ((subscribe h (some after) channel).1.replay ≡ newer after (number first ds))
unfolding subscribe
window-newer b first after channel ds h one small w fresh =
    let count = length-number first ds in
    let bounds =
      subst (λ n. Bounds b first n h) count
        (window-Bounds b first (number first ds) h one (omega (arith, small, count)) w) in
    catch_up-newer b first after ds h small bounds
      (w.ring ∙ ap (λ n. drop (n - b) (number first ds)) count) fresh

-- After any publications on a new hub, within 64 bits, a cursor that is not below the next sequence
-- number, or after which the next number is below that of the oldest change still in the ring (below
-- the next to be published, if the ring is empty), is told to resync and gets no replay; every other
-- cursor is replayed exactly the published changes after it, in order. The publications do not panic.
pub subscribe-replay :
    (b first : ℕ) (ds : List Draft) (after channel : ℕ)
    → 0 < b
    → 0 < first
    → first + length ds < 2 ^ 64
    → (h : Hub) × (publish_all (new_hub_at b first) ds ≡ some h)
      × (let s = (subscribe h (some after) channel).1 in
          (IsStale b first (length ds) after → (s.resync ≡ true) × (s.replay ≡ []))
          × (¬ IsStale b first (length ds) after
              → (s.resync ≡ false) × (s.replay ≡ newer after (number first ds))))
unfolding subscribe
subscribe-replay b first ds after channel positive one small =
    let (h, done, w) = published_all b first ds positive small in
    let count = length-number first ds in
    let bounds =
      subst (λ n. Bounds b first n h) count
        (window-Bounds b first (number first ds) h one (omega (arith, small, count)) w) in
    (
      h,
      done,
      (
        λ stale. catch_up-stale b first (length ds) after h small bounds one stale,
        window-newer b first after channel ds h one small w,
      ),
    )
