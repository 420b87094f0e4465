-- ===== src/Ids.antt =====
-- internal/ids/ids.go: the public identifiers. The random bytes are a list of the buffers that are
-- read; a list that runs out is `none`, where Go reads on.
pub mod Letters
use Prim.Native.String.{slice, ◌++◌ as join}
use atelier_code.Shared.{
  ℕ, zero, suc, ◌+◌, ◌-◌, ◌%◌, String, Bool, true, false, Option, none, some, List, [], ◌∷◌, ltb,
  leb, if◌then◌else◌,
}

abbrev pub suffix_length : ℕ
suffix_length = 5

abbrev pub long_suffix_length : ℕ
long_suffix_length = 10

abbrev pub alphabet : String
alphabet = "23456789bcdfghjkmnpqrstvwxyz"

abbrev pub alphabet_length : ℕ
alphabet_length = 28

-- The first byte that is drawn again.
abbrev pub limit : ℕ
limit = 256 - 256 % alphabet_length

-- The letter of a byte, as its place in the alphabet, if the byte counts.
unfoldable pub place : ℕ → Option ℕ
place b = if leb limit b then none else some (b % alphabet_length)

-- The places of a suffix, and how many are missing.
pub record Suffix : Type 0 where
  pub places : List ℕ
  pub missing : ℕ

abbrev pub add : Option ℕ → Suffix → Suffix
add none x = x
add (some k) x = record { places = k ∷ x.places; missing = x.missing - 1 }

-- The loop over one buffer, which stops at a full suffix; the last place comes first.
unfoldable pub read_buffer : List ℕ → Suffix → Suffix
read_buffer [] x = x
read_buffer (b ∷ bs) x =
    let rest = read_buffer bs (add (place b) x) in if ltb 0 x.missing then rest else x

-- The loop that fills the suffix.
unfoldable pub fill : List (List ℕ) → Suffix → Option (List ℕ)
fill [] x = if ltb 0 x.missing then none else some x.places
fill (buffer ∷ buffers) x =
    let rest = fill buffers (read_buffer buffer x) in
    if ltb 0 x.missing then rest else some x.places

-- The letters, of which the last comes first.
unfoldable pub spell : List ℕ → String
spell [] = ""
spell (k ∷ ks) = join (spell ks) (slice alphabet k (k + 1))

unfoldable pub mint : String → ℕ → List (List ℕ) → Option String
mint prefix length buffers = elim (fill buffers (record { places = []; missing = length })) [
  | none ↦ none
  | some places ↦ some (join prefix (spell places))
]

-- `New` and `NewLong`.
unfoldable pub new_id : String → List (List ℕ) → Option String
new_id prefix buffers = mint prefix suffix_length buffers

unfoldable pub new_long : String → List (List ℕ) → Option String
new_long prefix buffers = mint prefix long_suffix_length buffers
