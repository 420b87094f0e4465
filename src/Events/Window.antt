-- ===== src/Events/Window.antt =====
-- internal/events/events.go: after any publications the ring is the window of the newest changes.
use atelier_code.Shared.{
  ℕ, suc, ◌+◌, ◌-◌, ◌^◌, ◌<◌, ℕ_discrete, ◌≡◌, refl, sym, ap, ◌∙◌, subst, some, List, [], ◌∷◌, ◌++◌,
  arith,
}
use atelier_code.Events.{
  Draft, Change, Hub, length, drop, new_hub_at, push_ring, publish, add64, kept_subscribers,
  dropped_subscribers,
}
use atelier_code.Events.Log.{
  number, publish_all, length-snoc, length-drop, drop-++, drop-nil, slide-lem, ++-assoc, ++-nil,
}

-- The hub after the changes `log`: the ring is their last `capacity`.
pub record IsWindow (b first : ℕ) (log : List Change) (h : Hub) : Type 0 where
  pub capacity : h.capacity ≡ b
  pub next : h.next_seq ≡ first + length log
  pub ring : h.ring ≡ drop (length log - b) log

pub new_hub_at-IsWindow : (b first : ℕ) → IsWindow b first [] (new_hub_at b first)
unfolding new_hub_at length
new_hub_at-IsWindow b first = record {
  capacity = refl;
  next = omega arith;
  ring = sym (drop-nil (0 - b));
}

push_ring-lem :
    (b : ℕ) (log : List Change) (c : Change)
    → 0 < b
    → push_ring b (drop (length log - b) log) c
      ≡ some (drop (length (log ++ c ∷ []) - b) (log ++ c ∷ []))
unfolding push_ring
push_ring-lem b log c h = elim (ℕ_discrete (length (drop (length log - b) log)) b) [
  | yes e ↦
      let slid =
        slide-lem (length log - b) log c (omega (arith, e, length-drop (length log - b) log)) in
      let same : suc (length log - b) ≡ length (log ++ c ∷ []) - b =
        omega (arith, e, length-drop (length log - b) log, length-snoc log c) in
      ground (arith, slid, ap (λ k. drop k (log ++ c ∷ [])) same)
  | no n ↦
      let added = drop-++ (length log - b) log (c ∷ []) (omega arith) in
      let same : length log - b ≡ length (log ++ c ∷ []) - b =
        omega (arith, n, length-drop (length log - b) log, length-snoc log c) in
      ground (arith, added, ap (λ k. drop k (log ++ c ∷ [])) same)
]

pub publish-lem :
    (h : Hub) (d : Draft) (ring : List Change)
    → push_ring h.capacity h.ring (record { seq = h.next_seq; draft = d }) ≡ some ring
    → publish h d
      ≡ some (record h {
        ring = ring;
        next_seq = add64 h.next_seq 1;
        subscribers = kept_subscribers h.subscribers (record { seq = h.next_seq; draft = d });
        closed = dropped_subscribers h.subscribers ++ h.closed;
      })
unfolding publish
publish-lem h d ring e = rw (e, publish) refl

pub publish-IsWindow :
    (b first : ℕ) (log : List Change) (h : Hub) (d : Draft)
    → 0 < b
    → first + length log + 1 < 2 ^ 64
    → IsWindow b first log h
    → (k : Hub) × (publish h d ≡ some k)
      × IsWindow b first (log ++ record { seq = first + length log; draft = d } ∷ []) k
unfolding publish
publish-IsWindow b first log h d positive small w =
    let c : Change = record { seq = first + length log; draft = d } in
    let pushed = push_ring-lem b log c positive in
    (
      record h {
        ring = drop (length (log ++ c ∷ []) - b) (log ++ c ∷ []);
        next_seq = add64 h.next_seq 1;
        subscribers = kept_subscribers h.subscribers (record { seq = h.next_seq; draft = d });
        closed = dropped_subscribers h.subscribers ++ h.closed;
      },
      publish-lem h d _ (ground (arith, pushed, w.next, w.capacity, w.ring)),
      record {
        capacity = w.capacity;
        next = omega (arith, w.next, small, length-snoc log c);
        ring = refl;
      },
    )

pub publish_all-step :
    (h k : Hub) (d : Draft) (ds : List Draft)
    → publish h d ≡ some k
    → publish_all h (d ∷ ds) ≡ publish_all k ds
unfolding publish_all
publish_all-step h k d ds e = rw (e, publish_all) refl

pub publish_all-IsWindow :
    (b first : ℕ) (log : List Change) (h : Hub) (ds : List Draft)
    → 0 < b
    → first + length log + length ds < 2 ^ 64
    → IsWindow b first log h
    → (k : Hub) × (publish_all h ds ≡ some k)
      × IsWindow b first (log ++ number (first + length log) ds) k
unfolding publish_all number length
publish_all-IsWindow b first log h [] positive small w =
    (h, refl, subst (λ l. IsWindow b first l h) (sym (++-nil log)) w)
publish_all-IsWindow b first log h (d ∷ ds) positive small w =
    let c : Change = record { seq = first + length log; draft = d } in
    let (k, done, next) = publish-IsWindow b first log h d positive (omega (arith, small)) w in
    let (l, rest, last) =
      publish_all-IsWindow b first (log ++ c ∷ []) k ds positive
        (omega (arith, small, length-snoc log c)) next in
    let place : first + length (log ++ c ∷ []) ≡ 1 + (first + length log) =
      omega (arith, length-snoc log c) in
    let same : (log ++ c ∷ []) ++ number (first + length (log ++ c ∷ [])) ds
        ≡ log ++ c ∷ number (1 + (first + length log)) ds =
      ++-assoc log (c ∷ []) _ ∙ ap (λ n. log ++ c ∷ number n ds) place in
    (l, publish_all-step h k d ds done ∙ rest, subst (λ xs. IsWindow b first xs l) same last)
