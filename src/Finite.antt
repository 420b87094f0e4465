-- ===== src/Finite.antt =====
-- Go's maps, as association lists: reading (`lookup`), assignment (`insert`), `delete` (`erase`) and
-- iteration in the list's order, which stands for one of the orders that Go may choose.
use mathlib.Core.List.{Memᴰ}
use atelier_code.Shared.{
  ◌≡◌, refl, sym, ◌∙◌, inl, inr, Bool-cases, Option-cases, ite, Bool, true, false, if◌then◌else◌,
  Option, none, some, List, [], ◌∷◌, arith,
}

module _ {ℓ} {K V : Type ℓ} (d : Discrete K) where
  unfoldable pub lookup : K → List (K × V) → Option V
  lookup k [] = none
  lookup k ((j, v) ∷ m) = ite (d j k) (some v) (lookup k m)

  unfoldable pub insert : K → V → List (K × V) → List (K × V)
  insert k v [] = (k, v) ∷ []
  insert k v ((j, w) ∷ m) = ite (d j k) ((k, v) ∷ m) ((j, w) ∷ insert k v m)

  unfoldable pub erase : K → List (K × V) → List (K × V)
  erase k [] = []
  erase k ((j, w) ∷ m) = ite (d j k) (erase k m) ((j, w) ∷ erase k m)

  pub lookup-insert :
      (k j : K) (v : V) (m : List (K × V))
      → lookup j (insert k v m) ≡ ite (d k j) (some v) (lookup j m)
  unfolding lookup insert
  lookup-insert k j v [] = refl
  lookup-insert k j v ((i, w) ∷ m) = ground (arith, lookup-insert k j v m)

  pub lookup-erase :
      (k j : K) (m : List (K × V)) → lookup j (erase k m) ≡ ite (d k j) none (lookup j m)
  unfolding lookup erase
  lookup-erase k j [] = ground arith
  lookup-erase k j ((i, w) ∷ m) = ground (arith, lookup-erase k j m)

  -- `for k := range m`, in the list's order.
  unfoldable pub keys : List (K × V) → List K
  keys [] = []
  keys ((j, v) ∷ m) = j ∷ keys m

  abbrev pub holds_at : (K → V → Bool) → K → List (K × V) → Bool
  holds_at p k m = elim (lookup k m) [ none ↦ false | some v ↦ p k v ]

  -- `for k, v := range m { if p(k, v) { delete(m, k) } }`, over the keys at hand.
  unfoldable pub erase_where : (K → V → Bool) → List K → List (K × V) → List (K × V)
  erase_where p [] m = m
  erase_where p (k ∷ ks) m = erase_where p ks (if holds_at p k m then erase k m else m)

  -- The keys whose value satisfies `p`.
  unfoldable pub select : (K → V → Bool) → List K → List (K × V) → List K
  select p [] m = []
  select p (k ∷ ks) m = let rest = select p ks m in if holds_at p k m then k ∷ rest else rest

  pub mem-keys : (k : K) (m : List (K × V)) (v : V) → lookup k m ≡ some v → Memᴰ k (keys m)
  unfolding lookup keys
  mem-keys k [] v h = absurd (ground arith)
  mem-keys k ((j, w) ∷ m) v h = elim (d j k) [
    | yes e ↦ Memᴰ.head (sym e)
    | no n ↦ Memᴰ.tail (mem-keys k m v (ground arith))
  ]

  -- What is left was there before.
  pub lookup-erase_where_old :
      (p : K → V → Bool) (ks : List K) (m : List (K × V)) (j : K) (v : V)
      → lookup j (erase_where p ks m) ≡ some v
      → lookup j m ≡ some v
  unfolding erase_where
  lookup-erase_where_old p [] m j v h = h
  lookup-erase_where_old p (k ∷ ks) m j v h =
      ground (arith, lookup-erase_where_old p ks _ j v h, lookup-erase k j m)

  -- What does not satisfy `p` is left.
  pub lookup-erase_where_kept :
      (p : K → V → Bool) (ks : List K) (m : List (K × V)) (j : K) (v : V)
      → lookup j m ≡ some v
      → p j v ≡ false
      → lookup j (erase_where p ks m) ≡ some v
  unfolding erase_where
  lookup-erase_where_kept p [] m j v h n = h
  lookup-erase_where_kept p (k ∷ ks) m j v h n =
      lookup-erase_where_kept p ks _ j v (ground (arith, lookup-erase k j m)) n

  -- What satisfies `p` is gone.
  pub lookup-erase_where_gone :
      (p : K → V → Bool) (ks : List K) (m : List (K × V)) (j : K) (v : V)
      → Memᴰ j ks
      → lookup j (erase_where p ks m) ≡ some v
      → p j v ≡ false
  unfolding erase_where
  lookup-erase_where_gone p [] m j v i h = elim i [ ]
  lookup-erase_where_gone p (k ∷ ks) m j v (Memᴰ.head e) h = elim (Bool-cases (p j v)) [
    | inl t ↦ ground (arith, lookup-erase_where_old p ks _ j v h, lookup-erase k j m)
    | inr f ↦ f
  ]
  lookup-erase_where_gone p (k ∷ ks) m j v (Memᴰ.tail i) h = lookup-erase_where_gone p ks _ j v i h

  -- The two laws at the keys of the map itself.
  pub lookup-erase_where-none :
      (p : K → V → Bool) (m : List (K × V)) (j : K) (v : V)
      → lookup j m ≡ some v
      → p j v ≡ true
      → lookup j (erase_where p (keys m) m) ≡ none
  lookup-erase_where-none p m j v h t = elim (Option-cases (lookup j (erase_where p (keys m) m))) [
    | inl e ↦ e
    | inr (w, e) ↦
        let old = lookup-erase_where_old p (keys m) m j w e in
        let gone = lookup-erase_where_gone p (keys m) m j w (mem-keys j m w old) e in
        cc (old, gone, h, t)
  ]

  pub lookup-erase_where_other :
      (p : K → V → Bool) (m : List (K × V)) (j : K)
      → ((v : V) → lookup j m ≡ some v → p j v ≡ false)
      → lookup j (erase_where p (keys m) m) ≡ lookup j m
  lookup-erase_where_other p m j n = elim (Option-cases (lookup j m)) [
    | inr (v, e) ↦ lookup-erase_where_kept p (keys m) m j v e (n v e) ∙ sym e
    | inl e ↦ elim (Option-cases (lookup j (erase_where p (keys m) m))) [
      | inl f ↦ f ∙ sym e
      | inr (w, f) ↦ let old = lookup-erase_where_old p (keys m) m j w f in cc (old)
    ]
  ]
