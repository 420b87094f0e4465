-- ===== src/Threads/Metadata.antt =====
-- internal/threads/service.go: observed metadata, and the classification of a directory into projects.
pub mod Deepest
use Prim.Native.String.{len, ◌++◌ as join}
use text.Mathlib.Text.{starts_with}
use atelier_code.Shared.{
  String, Bool, true, false, not, ◌&&◌, ◌||◌, List, [], ◌∷◌, String-discrete, is_empty, differ, ltb,
  if◌then◌else◌,
}
use atelier_code.Threads.Record.{ThreadRecord}
use atelier_code.Threads.State.{ProjectRecord}

-- Empty fields mean "not observed this time".
pub record Metadata : Type 0 where
  pub title : String
  pub model : String
  pub effort : String
  pub cwd : String
  pub permission_mode : String

-- The closure `set`: the field's new value, and whether that is a change.
unfoldable pub observed : String → String → String × Bool
observed old value =
    if not (is_empty value) && differ String-discrete old value then (value, true) else (old, false)

unfoldable pub fills_title : ThreadRecord → Metadata → Bool
fills_title r m = not (is_empty m.title) && not r.title_user_set && is_empty r.title

unfoldable pub apply_metadata : ThreadRecord → Metadata → ThreadRecord × Bool
unfolding observed fills_title
apply_metadata r m =
    let (model, c1) = observed r.model m.model in
    let (effort, c2) = observed r.effort m.effort in
    let (cwd, c3) = observed r.cwd m.cwd in
    let (mode, c4) = observed r.permission_mode m.permission_mode in
    (
      record r {
        title = if fills_title r m then m.title else r.title;
        model = model;
        effort = effort;
        cwd = cwd;
        permission_mode = mode;
      },
      fills_title r m || c1 || c2 || c3 || c4,
    )

-- Path-segment boundaries: /a/b contains /a/b/c but not /a/bc.
unfoldable pub contains : String → String → Bool
contains root dir =
    if not (differ String-discrete root dir)
    then true
    else if not (differ String-discrete root "/")
    then starts_with dir "/"
    else starts_with dir (join root "/")

abbrev pub no_project : ProjectRecord
no_project = record { id = ""; directory = "" }

-- One round of the loop in `mostSpecific`.
unfoldable pub deeper : String → ProjectRecord → ProjectRecord → ProjectRecord
deeper dir best p =
    if contains p.directory dir && (is_empty best.id || ltb (len best.directory) (len p.directory))
    then p
    else best

unfoldable pub deepest_from : String → ProjectRecord → List ProjectRecord → ProjectRecord
deepest_from dir best [] = best
deepest_from dir best (p ∷ ps) = deepest_from dir (deeper dir best p) ps

unfoldable pub most_specific : List ProjectRecord → String → String
unfolding deepest_from
most_specific ps dir = (deepest_from dir no_project ps).id
