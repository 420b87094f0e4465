-- ===== src/Placement/Names.antt =====
-- internal/placement/placement.go: `Name` and `ID`.
use Prim.Native.Char.{Char}
use Prim.Native.String.{count, ◌++◌ as join}
use text.Mathlib.Text.{starts_with}
use text.Mathlib.TextEquality.{starts_with_iff}
use text.Mathlib.TextLemmas.{
  append_inj, append_cancel_left, append_cancel_right, length-append, length-cons, nil-append,
  cons-append,
}
use text.Mathlib.TextPositions.{len-append, slice-append_right, starts_with-append}
use atelier_code.Shared.{
  ◌+◌, String, Option, none, some, ◌≡◌, ◌≢◌, ◌↔◌, refl, sym, ap, ◌∙◌, arith, ite, Bool-cases,
  Option-cases, inl, inr, false, String-discrete, is_empty, if◌then◌else◌,
}
use atelier_code.Placement.{cut_prefix, cut_suffix, put, scope_prefix, name, id_of, named, id_in}

cut_prefix-join : (p r : String) → cut_prefix (join p r) p ≡ some r
unfolding cut_prefix
cut_prefix-join p r = rw (starts_with-append p r, len-append p r, slice-append_right p r)

after_prefix : (s p r t : String) → join p t ≡ s → cut_prefix s p ≡ some r → s ≡ join p r
after_prefix s p r t e h = cc (e, h, cut_prefix-join p t)

cut_prefix_sound : (s p r : String) → cut_prefix s p ≡ some r → s ≡ join p r
unfolding cut_prefix
cut_prefix_sound s p r h = elim (Bool-cases (starts_with s p)) [
  | inl e ↦ let q = (starts_with_iff s p).0 e in after_prefix s p r q.0 q.1 h
  | inr e ↦ absurd (ground (arith, e, h))
]

ite-cases {ℓ} :
    {X A : Type 0} (P : A → Type ℓ) (d : Dec X) {x y : A}
    → (X → P x)
    → ((X → ⊥) → P y)
    → P (ite d x y)
ite-cases P (yes e) f g = f e
ite-cases P (no n) f g = g n

cut_suffix_self : (x : String) → cut_suffix x x ≡ some ""
unfolding cut_suffix
cut_suffix_self String.[] =
    ite-cases (λ o. o ≡ some "") (String-discrete "" "") (λ e. refl) (λ n. absurd (n refl))
cut_suffix_self (String.◌∷◌ c x) =
    ite-cases (λ o. o ≡ some "") (String-discrete (String.◌∷◌ c x) (String.◌∷◌ c x)) (λ e. refl)
      (λ n. absurd (n refl))

longer : (c : Char) (r x : String) → String.◌∷◌ c (join r x) ≢ x
longer c r x e = omega (arith, ap count e, length-append r x, length-cons c (join r x))

cut_suffix-before :
    (c : Char) (s x r : String)
    → String.◌∷◌ c s ≢ x
    → cut_suffix s x ≡ some r
    → cut_suffix (String.◌∷◌ c s) x ≡ some (String.◌∷◌ c r)
unfolding cut_suffix
cut_suffix-before c s x r n h =
    ite-cases (λ o. o ≡ some (String.◌∷◌ c r)) (String-discrete (String.◌∷◌ c s) x)
      (λ e. absurd (n e)) (λ m. ap (put c) h)

cut_suffix-join : (r x : String) → cut_suffix (join r x) x ≡ some r
cut_suffix-join String.[] x = cc (nil-append x, cut_suffix_self x)
cut_suffix-join (String.◌∷◌ c r) x =
    cc (cons-append c r x, cut_suffix-before c (join r x) x r (longer c r x) (cut_suffix-join r x))

ends_here : (s x r : String) → s ≡ x → some "" ≡ some r → s ≡ join r x
ends_here s x r e h = cc (e, h, nil-append x)

cut_suffix_sound : (s x r : String) → cut_suffix s x ≡ some r → s ≡ join r x
unfolding cut_suffix
cut_suffix_sound String.[] x r =
    ite-cases (λ o. o ≡ some r → "" ≡ join r x) (String-discrete "" x) (ends_here "" x r)
      (λ n h. cc h)
cut_suffix_sound (String.◌∷◌ c s) x r =
    ite-cases (λ o. o ≡ some r → String.◌∷◌ c s ≡ join r x) (String-discrete (String.◌∷◌ c s) x)
      (ends_here (String.◌∷◌ c s) x r)
      (λ n. elim (Option-cases (cut_suffix s x)) [
        | inl e ↦ λ h. cc (e, h)
        | inr (t, e) ↦ λ h. cc (e, h, cut_suffix_sound s x t e, cons-append c t x)
      ])

suffix_found :
    (rest id : String) (o : Option String)
    → cut_suffix rest ".scope" ≡ o
    → named o ≡ some id
    → (rest ≡ join id ".scope") × (id ≢ "")
suffix_found rest id none e = λ h. cc h
suffix_found rest id (some i) e =
    ite-cases (λ b. (if b then none else some i) ≡ some id → (rest ≡ join id ".scope") × (id ≢ ""))
      (String-discrete i "") (λ q h. cc h)
      (λ n h.
        let same : i ≡ id = cc h in
        (cc (same, cut_suffix_sound rest ".scope" i e), λ q. n (same ∙ q)))

found :
    (p unit id : String) (o : Option String)
    → cut_prefix unit p ≡ o
    → id_in o ≡ some id
    → (unit ≡ join p (join id ".scope")) × (id ≢ "")
found p unit id none e h = cc h
found p unit id (some rest) e h =
    let r = suffix_found rest id (cut_suffix rest ".scope") refl h in
    (cc (cut_prefix_sound unit p rest e, r.0), r.1)

is_empty-no : (id : String) → id ≢ "" → is_empty id ≡ false
is_empty-no id n =
    ite-cases (λ b. b ≡ false) (String-discrete id "") (λ e. absurd (n e)) (λ m. refl)

id_of-own_name :
    (digest : String → String) (kind namespace id : String)
    → id ≢ ""
    → id_of digest kind namespace (name digest kind namespace id) ≡ some id
unfolding id_of name
id_of-own_name digest kind namespace id n =
    ap id_in (cut_prefix-join (scope_prefix digest kind namespace) (join id ".scope"))
    ∙ ap named (cut_suffix-join id ".scope")
    ∙ ap (λ b. if b then none else some id) (is_empty-no id n)

-- `ID` finds an id exactly in the name that `Name` made of it for the same kind and namespace: for
-- every unit and id, it returns the id just if the unit is that name and the id is not empty.
pub id_of-name :
    (digest : String → String) (kind namespace unit id : String)
    → (id_of digest kind namespace unit ≡ some id)
      ↔ ((unit ≡ name digest kind namespace id) × (id ≢ ""))
unfolding id_of name
id_of-name digest kind namespace unit id = (
  λ h. found (scope_prefix digest kind namespace) unit id _ refl h,
  λ h. ap (id_of digest kind namespace) h.0 ∙ id_of-own_name digest kind namespace id h.1,
)

count-scope_prefix :
    (digest : String → String) (kind n : String)
    → count (digest n) ≡ 12
    → count (scope_prefix digest kind n)
      ≡ count "atc-" + (count kind + (count "-" + (12 + count "-")))
unfolding scope_prefix
count-scope_prefix digest kind n twelve = omega (
  arith,
  twelve,
  length-append (digest n) "-",
  length-append "-" (join (digest n) "-"),
  length-append kind (join "-" (join (digest n) "-")),
  length-append "atc-" (join kind (join "-" (join (digest n) "-"))),
)

scope_prefix-digest :
    (digest : String → String) (kind a b : String)
    → scope_prefix digest kind a ≡ scope_prefix digest kind b
    → digest a ≡ digest b
unfolding scope_prefix
scope_prefix-digest digest kind a b h =
    append_cancel_right _ _ "-"
      (append_cancel_left "-" _ _ (append_cancel_left kind _ _ (append_cancel_left "atc-" _ _ h)))

-- Two scopes of one kind have one name exactly if their ids are equal and so are the digests of their
-- namespaces, if every digest has twelve characters.
pub name-eq :
    (digest : String → String) (kind a b i j : String)
    → ((n : String) → count (digest n) ≡ 12)
    → (name digest kind a i ≡ name digest kind b j) ↔ ((digest a ≡ digest b) × (i ≡ j))
unfolding name scope_prefix
name-eq digest kind a b i j twelve = (
  λ h.
      let parts = append_inj h (
        count-scope_prefix digest kind a (twelve a)
        ∙ sym (count-scope_prefix digest kind b (twelve b))) in
      (scope_prefix-digest digest kind a b parts.0, append_cancel_right i j ".scope" parts.1),
  λ h. cc (h.0, h.1),
)
