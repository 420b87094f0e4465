-- ===== src/Tests/Claims.antt =====
-- Two spellings of one folder.
use atelier_code.Shared.{ℕ, String, Option, some, List, [], ◌∷◌, refl, false, String-discrete}
use atelier_code.Projects.{Service, World, create}
use atelier_code.Projects.Claims.{AreSeparate}
use atelier_code.Projects.Histories.{AreFull, rest, step, creating, History-AreSeparate}

-- `/work/Site` and `/work/site` are one folder.
abbrev folders : String → Option ℕ
folders d = some 1

abbrev machine : World
machine = record {
  now = 5;
  trim = λ s. s;
  base = λ s. s;
  canonical = λ s. some s;
  folder = folders;
  refuses = false;
}

abbrev no_projects : Service
no_projects = record { rows = []; published = [] }

abbrev proj_1 : List String
proj_1 = "proj-1" ∷ []

proj_1-AreFull : AreFull proj_1
unfolding String-discrete
proj_1-AreFull = (refl, tt)

History-AreSeparate_example :
    let s = (create machine "site" "/work/site" proj_1 no_projects).0 in
    let t = (create machine "Site" "/work/Site" proj_1 s).0 in AreSeparate folders t.rows
History-AreSeparate_example =
    History-AreSeparate folders
      (step (creating machine "site" "/work/site" proj_1 refl proj_1-AreFull)
        (step (creating machine "Site" "/work/Site" proj_1 refl proj_1-AreFull) rest))
      tt
