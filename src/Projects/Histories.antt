-- ===== src/Projects/Histories.antt =====
-- internal/projects/projects.go: histories of the mutations.
use atelier_code.Shared.{
  ℕ, String, true, false, ◌&&◌, ◌||◌, ◌≡◌, refl, sym, subst, ap, ◌∙◌, Option, none, some, List, [],
  ◌∷◌, arith, if-cases, option-cases, is_empty,
}
use atelier_code.Projects.{
  ProjectRecord, Rows, Service, World, Error, Field, absent, null, value, same_text, is_claimed,
  unclaimed_at, unclaimed, has_id, has_directory, new_record, mint, create_at, create, find, write,
  is_taken, new_name, moved, new_directory, write_changes, update_row, update, delete,
}
use atelier_code.Projects.Claims.{
  is_free, is_free_but, AreSeparate, AreSeparate-snoc, is_claimed-free, is_free-all,
  AreSeparate-replace, find-free, AreSeparate-without,
}

-- No id that is drawn is empty.
abbrev pub AreFull : List String → Type 0
AreFull [] = Unit
AreFull (id ∷ ids) = (is_empty id ≡ false) × AreFull ids

module _ (w : World) where
  abbrev IsSeparate : Service × Option Error → Type 0
  IsSeparate y = AreSeparate w.folder y.0.rows

  unclaimed_at-free :
      (o : Option ℕ) (directory except : String) (rows : Rows)
      → w.folder directory ≡ o
      → unclaimed_at w o directory except rows ≡ none
      → is_free_but w.folder except directory rows ≡ true
  unfolding unclaimed_at
  unclaimed_at-free none directory except rows e = λ h. absurd (cc h)
  unclaimed_at-free (some n) directory except rows e =
      if-cases (λ (o : Option Error). o ≡ none → is_free_but w.folder except directory rows ≡ true)
        w.refuses (λ f h. absurd (cc h))
        (λ f.
          if-cases
            (λ (o : Option Error). o ≡ none → is_free_but w.folder except directory rows ≡ true)
            (is_claimed w.folder n directory except rows) (λ g h. absurd (cc h))
            (λ g h. is_claimed-free w.folder n directory except rows e g))

  unclaimed-free :
      (directory except : String) (rows : Rows)
      → unclaimed w directory except rows ≡ none
      → is_free_but w.folder except directory rows ≡ true
  unfolding unclaimed
  unclaimed-free directory except rows =
      unclaimed_at-free (w.folder directory) directory except rows refl

  mint-IsSeparate :
      (name directory : String) (ids : List String) (s : Service)
      → AreFull ids
      → is_free w.folder directory s.rows ≡ true
      → AreSeparate w.folder s.rows
      → IsSeparate (mint w name directory ids s)
  unfolding mint
  mint-IsSeparate name directory [] s f free a = a
  mint-IsSeparate name directory (id ∷ ids) s f free a =
      if-cases IsSeparate w.refuses (λ e. a)
        (λ e.
          if-cases IsSeparate (has_id id s.rows)
            (λ g. mint-IsSeparate name directory ids s f.1 free a)
            (λ g.
              if-cases IsSeparate (has_directory directory s.rows) (λ h. a)
                (λ h.
                  AreSeparate-snoc w.folder (new_record w id name directory) s.rows free g f.0 a)))

  create-IsSeparate :
      (name directory : String) (ids : List String) (s : Service)
      → AreFull ids
      → AreSeparate w.folder s.rows
      → IsSeparate (create w name directory ids s)
  unfolding create create_at
  create-IsSeparate name directory ids s f a =
      option-cases IsSeparate (w.canonical directory) (λ e. a)
        (λ canonical e.
          option-cases IsSeparate (unclaimed w canonical "" s.rows)
            (λ h.
              mint-IsSeparate _ canonical ids s f
                (is_free-all w.folder canonical s.rows a (unclaimed-free canonical "" s.rows h)) a)
            (λ g h. a))

  write-IsSeparate :
      (id name directory : String) (s : Service)
      → is_free_but w.folder id directory s.rows ≡ true
      → AreSeparate w.folder s.rows
      → IsSeparate (write w id name directory s)
  unfolding write
  write-IsSeparate id name directory s free a =
      if-cases IsSeparate (w.refuses || is_taken id directory s.rows) (λ e. a)
        (λ e. AreSeparate-replace w.folder id name directory w.now s.rows free a)

  -- What a patch of the directory comes to: no error means that no other project claims it.
  abbrev IsUnclaimed : String → Rows → Option Error × String → Type 0
  IsUnclaimed id rows y = y.0 ≡ none → is_free_but w.folder id y.1 rows ≡ true

  moved-IsUnclaimed :
      (id current : String) (rows : Rows) (o : Option String)
      → is_free_but w.folder id current rows ≡ true
      → IsUnclaimed id rows (moved w id current rows o)
  unfolding moved
  moved-IsUnclaimed id current rows none h = λ e. absurd (cc e)
  moved-IsUnclaimed id current rows (some directory) h =
      if-cases (IsUnclaimed id rows) (same_text directory current)
        (λ e f.
          let same : directory ≡ current = ground (arith, e) in
          ap (λ d. is_free_but w.folder id d rows) same ∙ h)
        (λ e f. unclaimed-free directory id rows f)

  new_directory-IsUnclaimed :
      (id current : String) (f : Field) (rows : Rows)
      → is_free_but w.folder id current rows ≡ true
      → IsUnclaimed id rows (new_directory w id f current rows)
  unfolding new_directory
  new_directory-IsUnclaimed id current absent rows h = λ e. h
  new_directory-IsUnclaimed id current null rows h = λ e. absurd (cc e)
  new_directory-IsUnclaimed id current (value v) rows h =
      moved-IsUnclaimed id current rows (w.canonical v) h

  update_row-IsSeparate :
      (r : ProjectRecord) (id : String) (x y : Option Error × String) (s : Service)
      → IsUnclaimed id s.rows y
      → AreSeparate w.folder s.rows
      → IsSeparate (update_row w r id x y s)
  unfolding update_row write_changes
  update_row-IsSeparate r id (some e, name) (o, directory) s u a = a
  update_row-IsSeparate r id (none, name) (some e, directory) s u a = a
  update_row-IsSeparate r id (none, name) (none, directory) s u a =
      if-cases IsSeparate (same_text name r.name && same_text directory r.directory) (λ e. a)
        (λ e. write-IsSeparate id name directory s (u refl) a)

  update-IsSeparate :
      (id : String) (name directory : Field) (s : Service)
      → AreSeparate w.folder s.rows
      → IsSeparate (update w id name directory s)
  unfolding update
  update-IsSeparate id name directory s a =
      if-cases IsSeparate w.refuses (λ e. a)
        (λ e.
          option-cases IsSeparate (find id s.rows) (λ f. a)
            (λ r f.
              update_row-IsSeparate r id (new_name w name r.name) _ s
                (new_directory-IsUnclaimed id r.directory directory s.rows
                  (find-free w.folder id r s.rows a f))
                a))

  delete-IsSeparate :
      (id : String) (s : Service) → AreSeparate w.folder s.rows → IsSeparate (delete w id s)
  unfolding delete
  delete-IsSeparate id s a =
      if-cases IsSeparate w.refuses (λ e. a)
        (λ e.
          if-cases IsSeparate (has_id id s.rows) (λ f. AreSeparate-without w.folder id s.rows a)
            (λ f. a))

-- One mutation, while the folders stand still.
pub data Step (folder : String → Option ℕ) : Service → Service → Type 0 where
  creating :
      {s : Service} (w : World) (name directory : String) (ids : List String)
      → w.folder ≡ folder
      → AreFull ids
      → Step folder s (create w name directory ids s).0
  updating :
      {s : Service} (w : World) (id : String) (name directory : Field)
      → w.folder ≡ folder
      → Step folder s (update w id name directory s).0
  deleting :
      {s : Service} (w : World) (id : String) → w.folder ≡ folder → Step folder s (delete w id s).0

pub data History (folder : String → Option ℕ) : Service → Service → Type 0 where
  rest : {s : Service} → History folder s s
  step : {s t u : Service} → Step folder s t → History folder t u → History folder s u

Step-AreSeparate :
    (folder : String → Option ℕ) {s t : Service}
    → Step folder s t
    → AreSeparate folder s.rows
    → AreSeparate folder t.rows
Step-AreSeparate folder (creating {s} w name directory ids e f) a =
    subst (λ g. AreSeparate g (create w name directory ids s).0.rows) e
      (create-IsSeparate w name directory ids s f (subst (λ g. AreSeparate g s.rows) (sym e) a))
Step-AreSeparate folder (updating {s} w id name directory e) a =
    subst (λ g. AreSeparate g (update w id name directory s).0.rows) e
      (update-IsSeparate w id name directory s (subst (λ g. AreSeparate g s.rows) (sym e) a))
Step-AreSeparate folder (deleting {s} w id e) a =
    subst (λ g. AreSeparate g (delete w id s).0.rows) e
      (delete-IsSeparate w id s (subst (λ g. AreSeparate g s.rows) (sym e) a))

-- While the folders stand still, any history of creations, updates and deletions keeps the projects
-- apart: no two claim one directory, by its text or as one folder that is there, no two have one id,
-- and no id is empty.
pub History-AreSeparate :
    (folder : String → Option ℕ) {s t : Service}
    → History folder s t
    → AreSeparate folder s.rows
    → AreSeparate folder t.rows
History-AreSeparate folder rest a = a
History-AreSeparate folder (step x h) a = History-AreSeparate folder h (Step-AreSeparate folder x a)
