-- ===== src/Threads/Metadata/Deepest.antt =====
-- internal/threads/service.go, `mostSpecific`: the project of a directory is the deepest that contains
-- it.
use mathlib.Core.List.{Memᴰ}
use Prim.Native.String.{len}
use atelier_code.Shared.{
  String, true, false, ◌≡◌, refl, sym, ap, ◌∙◌, ◌⊎◌, ◌≢◌, ◌≤◌, inl, inr, List, [], ◌∷◌, arith,
  Bool-cases,
}
use atelier_code.Threads.State.{ProjectRecord}
use atelier_code.Threads.Metadata.{contains, no_project, deeper, deepest_from, most_specific}

deeper_cases :
    (dir : String) (best p : ProjectRecord)
    → (deeper dir best p ≡ best) ⊎ ((deeper dir best p ≡ p) × (contains p.directory dir ≡ true))
unfolding deeper
deeper_cases dir best p = ground arith

-- A project that was found stays found, by this one or a deeper one.
deeper-best :
    (dir : String) (best p : ProjectRecord)
    → best.id ≢ ""
    → p.id ≢ ""
    → ((deeper dir best p).id ≢ "") × (len best.directory ≤ len (deeper dir best p).directory)
unfolding deeper
deeper-best dir best p h k = (ground arith, ground arith)

deeper-next :
    (dir : String) (best p : ProjectRecord)
    → contains p.directory dir ≡ true
    → p.id ≢ ""
    → ((deeper dir best p).id ≢ "") × (len p.directory ≤ len (deeper dir best p).directory)
unfolding deeper
deeper-next dir best p h k = (ground arith, ground arith)

abbrev AreNamed : List ProjectRecord → Type 0
AreNamed ps = (p : ProjectRecord) → Memᴰ p ps → p.id ≢ ""

-- What the loop leaves, from `best` over `ps`.
record IsDeepest (dir : String) (best : ProjectRecord) (ps : List ProjectRecord) (r : ProjectRecord)
    : Type 0 where
  found : (r ≡ best) ⊎ (Memᴰ r ps × (contains r.directory dir ≡ true))
  kept : best.id ≢ "" → (r.id ≢ "") × (len best.directory ≤ len r.directory)
  deepest :
      (q : ProjectRecord)
      → Memᴰ q ps
      → contains q.directory dir ≡ true
      → (r.id ≢ "") × (len q.directory ≤ len r.directory)

deepest_from-IsDeepest :
    (dir : String) (best : ProjectRecord) (ps : List ProjectRecord)
    → AreNamed ps
    → IsDeepest dir best ps (deepest_from dir best ps)
unfolding deepest_from
deepest_from-IsDeepest dir best [] named = record {
  found = inl refl;
  kept = λ n. (n, omega arith);
  deepest = λ q m e. elim m [ ];
}
deepest_from-IsDeepest dir best (p ∷ ps) named =
    let next = deeper dir best p in
    let ih = deepest_from-IsDeepest dir next ps (λ q m. named q (Memᴰ.tail m)) in
    let p_named = named p (Memᴰ.head refl) in
    record {
      found = first ih.found (deeper_cases dir best p);
      kept = λ n.
          let (n', le) = deeper-best dir best p n p_named in
          ((ih.kept n').0, omega (arith, le, (ih.kept n').1));
      deepest = later ih p_named;
    }
  where
    first :
        (deepest_from dir (deeper dir best p) ps ≡ deeper dir best p)
          ⊎ (Memᴰ (deepest_from dir (deeper dir best p) ps) ps
              × (contains (deepest_from dir (deeper dir best p) ps).directory dir ≡ true))
        → (deeper dir best p ≡ best) ⊎ ((deeper dir best p ≡ p) × (contains p.directory dir ≡ true))
        → (deepest_from dir (deeper dir best p) ps ≡ best)
          ⊎ (Memᴰ (deepest_from dir (deeper dir best p) ps) (p ∷ ps)
              × (contains (deepest_from dir (deeper dir best p) ps).directory dir ≡ true))
    first (inl e) (inl f) = inl (e ∙ f)
    first (inl e) (inr (f, c)) =
        inr (Memᴰ.head (e ∙ f), ap (λ (x : ProjectRecord). contains x.directory dir) (e ∙ f) ∙ c)
    first (inr (m, c)) _ = inr (Memᴰ.tail m, c)

    later :
        IsDeepest dir (deeper dir best p) ps (deepest_from dir (deeper dir best p) ps)
        → p.id ≢ ""
        → (q : ProjectRecord) → Memᴰ q (p ∷ ps)
        → contains q.directory dir ≡ true
        → ((deepest_from dir (deeper dir best p) ps).id ≢ "")
          × (len q.directory ≤ len (deepest_from dir (deeper dir best p) ps).directory)
    later ih n q (Memᴰ.tail m) e = ih.deepest q m e
    later ih n q (Memᴰ.head same) e =
        let (n', le) =
          deeper-next dir best p
            (ap (λ (x : ProjectRecord). contains x.directory dir) (sym same) ∙ e) n in
        (
          (ih.kept n').0,
          omega (arith, le, (ih.kept n').1, ap (λ (x : ProjectRecord). len x.directory) same),
        )

-- Where every project has an id, a directory is classified into none of the projects if none contains
-- it, and else into a project that contains it and than which no containing project has a longer
-- directory.
pub most_specific-deepest :
    (ps : List ProjectRecord) (dir : String)
    → ((p : ProjectRecord) → Memᴰ p ps → p.id ≢ "")
    → ((most_specific ps dir ≡ "")
        × ((q : ProjectRecord) → Memᴰ q ps → contains q.directory dir ≡ false))
      ⊎ ((p : ProjectRecord) × Memᴰ p ps
          × (most_specific ps dir ≡ p.id)
          × (contains p.directory dir ≡ true)
          × ((q : ProjectRecord)
              → Memᴰ q ps
              → contains q.directory dir ≡ true
              → len q.directory ≤ len p.directory))
unfolding most_specific
most_specific-deepest ps dir named =
    let h = deepest_from-IsDeepest dir no_project ps named in
    elim h.found [
      | inl e ↦ inl (
        ap (λ (x : ProjectRecord). x.id) e,
        λ q m. elim (Bool-cases (contains q.directory dir)) [
          | inl c ↦ absurd ((h.deepest q m c).0 (ap (λ (x : ProjectRecord). x.id) e))
          | inr c ↦ c
        ],
      )
      | inr (m, c) ↦ inr (deepest_from dir no_project ps, m, refl, c, λ q n e. (h.deepest q n e).1)
    ]
