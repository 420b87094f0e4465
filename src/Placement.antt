-- ===== src/Placement.antt =====
-- internal/placement/placement.go: the names of the scopes. The digest of a namespace (the first six
-- bytes of its SHA-256, in hexadecimal) is a parameter.
pub mod Names
use Prim.Native.Char.{Char}
use Prim.Native.String.{len, slice, ◌++◌ as join}
use text.Mathlib.Text.{starts_with}
use atelier_code.Shared.{String, Option, none, some, ite, String-discrete, is_empty, if◌then◌else◌}

-- Go's `strings.CutPrefix`.
unfoldable pub cut_prefix : String → String → Option String
cut_prefix s prefix = if starts_with s prefix then some (slice s (len prefix) (len s)) else none

abbrev pub put : Char → Option String → Option String
put c none = none
put c (some s) = some (String.◌∷◌ c s)

-- Go's `strings.CutSuffix`.
unfoldable pub cut_suffix : String → String → Option String
cut_suffix String.[] suffix = ite (String-discrete "" suffix) (some "") none
cut_suffix (String.◌∷◌ c s) suffix =
    let rest = cut_suffix s suffix in
    ite (String-discrete (String.◌∷◌ c s) suffix) (some "") (put c rest)

-- `ID`: what is left must be an id.
abbrev pub named : Option String → Option String
named none = none
named (some id) = if is_empty id then none else some id

abbrev pub id_in : Option String → Option String
id_in none = none
id_in (some rest) = named (cut_suffix rest ".scope")

module _ (digest : String → String) where
  -- `prefix`.
  unfoldable pub scope_prefix : String → String → String
  scope_prefix kind namespace = join "atc-" (join kind (join "-" (join (digest namespace) "-")))

  -- `Name`.
  unfoldable pub name : String → String → String → String
  name kind namespace id = join (scope_prefix kind namespace) (join id ".scope")

  -- `Pattern`, a glob of systemctl.
  unfoldable pub pattern_of : String → String → String
  pattern_of kind namespace =
      if is_empty namespace
      then join "atc-" (join kind "-*.scope")
      else join (scope_prefix kind namespace) "*.scope"

  -- `ID`.
  unfoldable pub id_of : String → String → String → Option String
  id_of kind namespace unit = id_in (cut_prefix unit (scope_prefix kind namespace))
