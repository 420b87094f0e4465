-- ===== src/Tests/Projects.antt =====
-- Two projects, one inside the other.
use mathlib.Core.List.{Memᴰ}
use Prim.Native.String.{len}
use atelier_code.Shared.{
  String, true, false, ◌≡◌, refl, sym, ap, ◌∙◌, ◌⊎◌, ◌≢◌, ◌≤◌, List, [], ◌∷◌, String-ne,
}
use atelier_code.Threads.State.{ProjectRecord}
use atelier_code.Threads.Metadata.{contains, most_specific}
use atelier_code.Threads.Metadata.Deepest.{most_specific-deepest}

abbrev outer : ProjectRecord
outer = record { id = "p1"; directory = "/work" }

abbrev inner : ProjectRecord
inner = record { id = "p2"; directory = "/work/site" }

abbrev both : List ProjectRecord
both = outer ∷ inner ∷ []

abbrev directory : String
directory = "/work/site/pages"

both-named : (p : ProjectRecord) → Memᴰ p both → p.id ≢ ""
both-named p (Memᴰ.head e) f = String-ne "p1" "" refl (sym (ap (λ (x : ProjectRecord). x.id) e) ∙ f)
both-named p (Memᴰ.tail (Memᴰ.head e)) f =
    String-ne "p2" "" refl (sym (ap (λ (x : ProjectRecord). x.id) e) ∙ f)
both-named p (Memᴰ.tail (Memᴰ.tail m)) f = elim m [ ]

most_specific-deepest_example :
    ((most_specific both directory ≡ "")
      × ((q : ProjectRecord) → Memᴰ q both → contains q.directory directory ≡ false))
    ⊎ ((p : ProjectRecord) × Memᴰ p both
        × (most_specific both directory ≡ p.id)
        × (contains p.directory directory ≡ true)
        × ((q : ProjectRecord)
            → Memᴰ q both
            → contains q.directory directory ≡ true
            → len q.directory ≤ len p.directory))
most_specific-deepest_example = most_specific-deepest both directory both-named
