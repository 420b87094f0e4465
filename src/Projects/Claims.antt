-- ===== src/Projects/Claims.antt =====
-- internal/projects/projects.go: no two projects claim one folder.
use atelier_code.Shared.{
  ℕ, String, Bool, true, false, not, ◌&&◌, ◌||◌, ◌≡◌, refl, sym, ap, ◌∙◌, inl, inr, Option, none,
  some, [], ◌∷◌, ◌++◌, arith, if-cases, String-discrete, is_empty, Option-cases,
}
use atelier_code.Projects.{
  ProjectRecord, Rows, same_text, same_file, is_claimed, has_id, find, changed, replace, without,
}

-- Two directories that are one text, or one folder that is there.
abbrev pub is_same_folder : Option ℕ → Option ℕ → Bool
is_same_folder none o = false
is_same_folder (some n) o = same_file n o

module _ (folder : String → Option ℕ) where
  abbrev pub clashes : String → String → Bool
  clashes a b = same_text a b || is_same_folder (folder a) (folder b)

  abbrev pub is_free : String → Rows → Bool
  is_free directory [] = true
  is_free directory (x ∷ xs) = not (clashes x.directory directory) && is_free directory xs

  -- Every project has a directory of its own, and an id of its own that is not empty.
  abbrev pub AreSeparate : Rows → Type 0
  AreSeparate [] = Unit
  AreSeparate (x ∷ xs) =
      (is_free x.directory xs ≡ true)
      × (has_id x.id xs ≡ false)
      × (is_empty x.id ≡ false)
      × AreSeparate xs

  clashes_sym : (a b : String) → clashes a b ≡ clashes b a
  clashes_sym a b = elim (Option-cases (folder a)) [
    | inl e ↦ elim (Option-cases (folder b)) [
      | inl f ↦ ground (arith, e, f)
      | inr (m, f) ↦ ground (arith, e, f)
    ]
    | inr (n, e) ↦ elim (Option-cases (folder b)) [
      | inl f ↦ ground (arith, e, f)
      | inr (m, f) ↦ ground (arith, e, f)
    ]
  ]

  is_free-snoc :
      (directory : String) (r : ProjectRecord) (xs : Rows)
      → is_free directory xs ≡ true
      → clashes r.directory directory ≡ false
      → is_free directory (xs ++ r ∷ []) ≡ true
  is_free-snoc directory r [] h c = ground (arith, c)
  is_free-snoc directory r (x ∷ xs) h c = ground (arith, h, c, is_free-snoc directory r xs)

  has_id-snoc :
      (id : String) (r : ProjectRecord) (xs : Rows)
      → has_id id xs ≡ false
      → same_text r.id id ≡ false
      → has_id id (xs ++ r ∷ []) ≡ false
  unfolding has_id
  has_id-snoc id r [] h c = ground (arith, c)
  has_id-snoc id r (x ∷ xs) h c = ground (arith, h, c, has_id-snoc id r xs)

  pub AreSeparate-snoc :
      (r : ProjectRecord) (xs : Rows)
      → is_free r.directory xs ≡ true
      → has_id r.id xs ≡ false
      → is_empty r.id ≡ false
      → AreSeparate xs
      → AreSeparate (xs ++ r ∷ [])
  unfolding has_id
  AreSeparate-snoc r [] f i e a = (refl, refl, e, tt)
  AreSeparate-snoc r (x ∷ xs) f i e a = (
    is_free-snoc x.directory r xs a.0 (ground (arith, f, clashes_sym x.directory r.directory)),
    has_id-snoc x.id r xs a.1 (ground (arith, i)),
    a.2,
    AreSeparate-snoc r xs (ground (arith, f)) (ground (arith, i)) e a.3,
  )

  -- A directory that no project but `except` claims.
  abbrev pub is_free_but : String → String → Rows → Bool
  is_free_but except directory [] = true
  is_free_but except directory (x ∷ xs) =
      (same_text x.id except || not (clashes x.directory directory))
      && is_free_but except directory xs

  pub is_claimed-free :
      (n : ℕ) (directory except : String) (xs : Rows)
      → folder directory ≡ some n
      → is_claimed folder n directory except xs ≡ false
      → is_free_but except directory xs ≡ true
  unfolding is_claimed
  is_claimed-free n directory except [] e h = refl
  is_claimed-free n directory except (x ∷ xs) e h = elim (Option-cases (folder x.directory)) [
    | inl f ↦ ground (arith, e, f, h, is_claimed-free n directory except xs)
    | inr (m, f) ↦ ground (arith, e, f, h, is_claimed-free n directory except xs)
  ]

  pub is_free-all :
      (directory : String) (xs : Rows)
      → AreSeparate xs
      → is_free_but "" directory xs ≡ true
      → is_free directory xs ≡ true
  is_free-all directory [] a h = refl
  is_free-all directory (x ∷ xs) a h = ground (arith, a.2, h, is_free-all directory xs a.3)

  has_id-replace :
      (id j name directory : String) (now : ℕ) (xs : Rows)
      → has_id j (replace id (changed name directory now) xs) ≡ has_id j xs
  unfolding has_id replace
  has_id-replace id j name directory now [] = refl
  has_id-replace id j name directory now (x ∷ xs) =
      ground (arith, has_id-replace id j name directory now xs)

  is_free-replace :
      (id name directory other : String) (now : ℕ) (xs : Rows)
      → is_free other xs ≡ true
      → clashes directory other ≡ false
      → is_free other (replace id (changed name directory now) xs) ≡ true
  unfolding replace
  is_free-replace id name directory other now [] f c = refl
  is_free-replace id name directory other now (x ∷ xs) f c =
      if-cases
        (λ (y : ProjectRecord).
          (not (clashes y.directory other)
            && is_free other (replace id (changed name directory now) xs))
          ≡ true)
        (same_text x.id id)
        (λ e. ground (arith, c, f, is_free-replace id name directory other now xs))
        (λ e. ground (arith, f, c, is_free-replace id name directory other now xs))

  replace-absent :
      (id : String) (f : ProjectRecord → ProjectRecord) (xs : Rows)
      → has_id id xs ≡ false
      → replace id f xs ≡ xs
  unfolding has_id replace
  replace-absent id f [] h = refl
  replace-absent id f (x ∷ xs) h =
      if-cases (λ (y : ProjectRecord). y ∷ replace id f xs ≡ x ∷ xs) (same_text x.id id)
        (λ e. absurd (ground (arith, e, h)))
        (λ e. ap (λ ys. x ∷ ys) (replace-absent id f xs (ground (arith, h))))

  is_free-absent :
      (id directory : String) (xs : Rows)
      → has_id id xs ≡ false
      → is_free_but id directory xs ≡ true
      → is_free directory xs ≡ true
  unfolding has_id
  is_free-absent id directory [] n h = refl
  is_free-absent id directory (x ∷ xs) n h = ground (arith, n, h, is_free-absent id directory xs)

  pub AreSeparate-replace :
      (id name directory : String) (now : ℕ) (xs : Rows)
      → is_free_but id directory xs ≡ true
      → AreSeparate xs
      → AreSeparate (replace id (changed name directory now) xs)
  unfolding replace
  AreSeparate-replace id name directory now [] h a = tt
  AreSeparate-replace id name directory now (x ∷ xs) h a = elim (String-discrete x.id id) [
    | yes e ↦
        let gone : has_id id xs ≡ false = ap (λ j. has_id j xs) (sym e) ∙ a.1 in
        let kept = replace-absent id (changed name directory now) xs gone in
        if-cases
          (λ (y : ProjectRecord). AreSeparate (y ∷ replace id (changed name directory now) xs))
          (same_text x.id id)
          (λ g. rw kept (is_free-absent id directory xs gone (ground (arith, h)), a.1, a.2, a.3))
          (λ g. absurd (ground (arith, e, g)))
    | no n ↦
        if-cases
          (λ (y : ProjectRecord). AreSeparate (y ∷ replace id (changed name directory now) xs))
          (same_text x.id id) (λ g. absurd (ground (arith, n, g)))
          (λ g. (
            is_free-replace id name directory x.directory now xs a.0
                (ground (arith, h, n, clashes_sym x.directory directory)),
            has_id-replace id x.id name directory now xs ∙ a.1,
            a.2,
            AreSeparate-replace id name directory now xs (ground (arith, h)) a.3,
          ))
  ]

  is_free-find :
      (id other : String) (r : ProjectRecord) (xs : Rows)
      → is_free other xs ≡ true
      → find id xs ≡ some r
      → clashes r.directory other ≡ false
  unfolding find
  is_free-find id other r [] f = λ e. absurd (cc e)
  is_free-find id other r (x ∷ xs) f =
      if-cases (λ o. o ≡ some r → clashes r.directory other ≡ false) (same_text x.id id)
        (λ g e.
          let same : x ≡ r = cc e in
          ap (λ (y : ProjectRecord). clashes y.directory other) (sym same) ∙ ground (arith, f))
        (λ g e. is_free-find id other r xs (ground (arith, f)) e)

  is_free-weaken :
      (id directory : String) (xs : Rows)
      → is_free directory xs ≡ true
      → is_free_but id directory xs ≡ true
  is_free-weaken id directory [] h = refl
  is_free-weaken id directory (x ∷ xs) h = ground (arith, h, is_free-weaken id directory xs)

  pub find-free :
      (id : String) (r : ProjectRecord) (xs : Rows)
      → AreSeparate xs
      → find id xs ≡ some r
      → is_free_but id r.directory xs ≡ true
  unfolding find
  find-free id r [] a = λ e. refl
  find-free id r (x ∷ xs) a =
      if-cases (λ o. o ≡ some r → is_free_but id r.directory (x ∷ xs) ≡ true) (same_text x.id id)
        (λ g e.
          let same : x ≡ r = cc e in
          let free =
            is_free-weaken id r.directory xs
              (ap (λ (y : ProjectRecord). is_free y.directory xs) (sym same) ∙ a.0) in
          ground (arith, g, free))
        (λ g e. ground (
          arith,
          find-free id r xs a.3 e,
          is_free-find id x.directory r xs a.0 e,
          clashes_sym x.directory r.directory,
        ))

  is_free-without :
      (id directory : String) (xs : Rows)
      → is_free directory xs ≡ true
      → is_free directory (without id xs) ≡ true
  unfolding without
  is_free-without id directory [] h = refl
  is_free-without id directory (x ∷ xs) h = ground (arith, h, is_free-without id directory xs)

  has_id-without :
      (id j : String) (xs : Rows) → has_id j xs ≡ false → has_id j (without id xs) ≡ false
  unfolding has_id without
  has_id-without id j [] h = refl
  has_id-without id j (x ∷ xs) h = ground (arith, h, has_id-without id j xs)

  pub AreSeparate-without : (id : String) (xs : Rows) → AreSeparate xs → AreSeparate (without id xs)
  unfolding without
  AreSeparate-without id [] a = tt
  AreSeparate-without id (x ∷ xs) a =
      if-cases AreSeparate (same_text x.id id) (λ e. AreSeparate-without id xs a.3)
        (λ e. (
          is_free-without id x.directory xs a.0,
          has_id-without id x.id xs a.1,
          a.2,
          AreSeparate-without id xs a.3,
        ))
