-- ===== src/Threads/Rank/Order.antt =====
-- internal/threads/turns.go: `Rank` picks the strongest of its evidence, in any order.
use mathlib.Core.List.{Memᴰ, Perm, Permᴰ}
use mathlib.Core.HLevel.{hedberg}
use mathlib.Core.Logic.{∥∥₁_elim}
use atelier_code.Shared.{◌≤◌, ◌≡◌, refl, ◌∙◌, ap, ◌⊎◌, ◌≢◌, inl, inr, List, [], ◌∷◌, arith}
use atelier_code.Threads.Record.{ThreadStatus, ThreadStatus-discrete}
use atelier_code.Threads.Rank.{weight, recognise, stronger, rank_from, rank}

-- Recognised statuses are told apart by their weights.
recognise-injective :
    (s t : ThreadStatus) → weight (recognise s) ≡ weight (recognise t) → recognise s ≡ recognise t
unfolding recognise weight
recognise-injective s t h = ground arith

stronger_comm : (b s t : ThreadStatus) → stronger (stronger b s) t ≡ stronger (stronger b t) s
unfolding stronger
stronger_comm b s t = ground (arith, recognise-injective s t)

stronger-weight :
    (b s : ThreadStatus)
    → (weight b ≤ weight (stronger b s)) × (weight (recognise s) ≤ weight (stronger b s))
unfolding stronger
stronger-weight b s = ground arith

rank_from-perm :
    (b : ThreadStatus) {ss ts : List ThreadStatus} → Permᴰ ss ts → rank_from b ss ≡ rank_from b ts
unfolding rank_from
rank_from-perm b Permᴰ.nil = refl
rank_from-perm b (Permᴰ.cons {a = s} {b = t} {l₁ = ss} {l₂ = ts} e p) =
    rw e (rank_from-perm (stronger b t) p)
rank_from-perm b (Permᴰ.swap {a = s} {b = t} {a' = s'} {b' = t'} {l = ss} e f) =
    rw (e, f) (ap (λ x. rank_from x ss) (stronger_comm b t' s'))
rank_from-perm b (Permᴰ.trans p q) = rank_from-perm b p ∙ rank_from-perm b q

ThreadStatus-set : IsSet ThreadStatus
ThreadStatus-set = hedberg ThreadStatus-discrete

rank-permᴰ : {ss ts : List ThreadStatus} → Permᴰ ss ts → rank ss ≡ rank ts
unfolding rank
rank-permᴰ Permᴰ.nil = refl
rank-permᴰ (Permᴰ.cons e p) = rank_from-perm ThreadStatus.idle (Permᴰ.cons e p)
rank-permᴰ (Permᴰ.swap e f) = rank_from-perm ThreadStatus.idle (Permᴰ.swap e f)
rank-permᴰ (Permᴰ.trans p q) = rank-permᴰ p ∙ rank-permᴰ q

-- The rank of coexisting evidence does not depend on the order in which it is given.
pub rank-perm : (ss ts : List ThreadStatus) → Perm ss ts → rank ss ≡ rank ts
rank-perm ss ts p = ∥∥₁_elim p (ThreadStatus-set (rank ss) (rank ts)) rank-permᴰ

-- The loop's result is `best` or one of the statuses, and none of them outranks it.
abbrev IsStrongest : ThreadStatus → List ThreadStatus → ThreadStatus → Type 0
IsStrongest best ss r =
    ((r ≡ best) ⊎ ((s : ThreadStatus) × Memᴰ s ss × (r ≡ recognise s)))
    × (weight best ≤ weight r)
    × ((s : ThreadStatus) → Memᴰ s ss → weight (recognise s) ≤ weight r)

stronger_cases : (b s : ThreadStatus) → (stronger b s ≡ b) ⊎ (stronger b s ≡ recognise s)
unfolding stronger
stronger_cases b s = ground arith

rank_from-IsStrongest :
    (best : ThreadStatus) (ss : List ThreadStatus) → IsStrongest best ss (rank_from best ss)
unfolding rank_from
rank_from-IsStrongest best [] = (inl refl, omega arith, λ s m. elim m [ ])
rank_from-IsStrongest best (s ∷ ss) =
    let ih = rank_from-IsStrongest (stronger best s) ss in
    (
      from ih.0 (stronger_cases best s),
      omega (arith, ih.1, stronger-weight best s),
      λ t m. bound t ih.1 ih.2 m,
    )
  where
    from :
        (rank_from (stronger best s) ss ≡ stronger best s)
          ⊎ ((t : ThreadStatus) × Memᴰ t ss × (rank_from (stronger best s) ss ≡ recognise t))
        → (stronger best s ≡ best) ⊎ (stronger best s ≡ recognise s)
        → (rank_from (stronger best s) ss ≡ best)
          ⊎ ((t : ThreadStatus) × Memᴰ t (s ∷ ss) × (rank_from (stronger best s) ss ≡ recognise t))
    from (inl e) (inl f) = inl (e ∙ f)
    from (inl e) (inr f) = inr (s, Memᴰ.head refl, e ∙ f)
    from (inr (t, m, e)) _ = inr (t, Memᴰ.tail m, e)

    bound :
        (t : ThreadStatus)
        → weight (stronger best s) ≤ weight (rank_from (stronger best s) ss)
        → ((u : ThreadStatus)
            → Memᴰ u ss
            → weight (recognise u) ≤ weight (rank_from (stronger best s) ss))
        → Memᴰ t (s ∷ ss)
        → weight (recognise t) ≤ weight (rank_from (stronger best s) ss)
    bound t h all (Memᴰ.head e) = rw e (omega (arith, stronger-weight best s))
    bound t h all (Memᴰ.tail m) = all t m

idle_least :
    (s : ThreadStatus) → weight (recognise s) ≤ weight ThreadStatus.idle → s ≡ ThreadStatus.idle
unfolding recognise weight
idle_least s h = ground arith

attained_by_head :
    (s : ThreadStatus) (ss : List ThreadStatus) (r : ThreadStatus)
    → IsStrongest ThreadStatus.idle (s ∷ ss) r
    → (t : ThreadStatus) × Memᴰ t (s ∷ ss) × (r ≡ recognise t)
unfolding recognise
attained_by_head s ss r (inr found, _, _) = found
attained_by_head s ss r (inl e, _, bound) =
    let i = idle_least s (rw e at (bound s (Memᴰ.head refl))) in
    (s, Memᴰ.head refl, ground (arith, i))

-- The rank of some evidence is the status of one source, an unrecognised status read as unknown, and
-- no source outranks it; with no evidence it is unknown.
pub rank-strongest :
    (ss : List ThreadStatus)
    → ((ss ≡ []) × (rank ss ≡ ThreadStatus.unknown))
      ⊎ (((s : ThreadStatus) × Memᴰ s ss × (rank ss ≡ recognise s))
          × ((s : ThreadStatus) → Memᴰ s ss → weight (recognise s) ≤ weight (rank ss)))
unfolding rank
rank-strongest [] = inl (refl, refl)
rank-strongest (s ∷ ss) =
    let h = rank_from-IsStrongest ThreadStatus.idle (s ∷ ss) in inr (attained_by_head s ss _ h, h.2)

-- If evidence ranks as idle, there is some evidence, and every source of it is idle.
pub rank-idle :
    (ss : List ThreadStatus)
    → rank ss ≡ ThreadStatus.idle
    → (ss ≢ []) × ((s : ThreadStatus) → Memᴰ s ss → s ≡ ThreadStatus.idle)
unfolding rank
rank-idle [] e = absurd (ground arith)
rank-idle (s ∷ ss) e =
    let h = rank_from-IsStrongest ThreadStatus.idle (s ∷ ss) in
    (λ n. cc, λ t m. idle_least t (rw e at (h.2 t m)))
