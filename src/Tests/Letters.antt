-- ===== src/Tests/Letters.antt =====
-- One buffer of random bytes, of which two are drawn again.
use atelier_code.Shared.{ℕ, some, List, [], ◌∷◌, ◌≡◌, refl, ◌≤◌, arith}
use atelier_code.Ids.{fill, new_id, place, read_buffer, spell, mint}
use atelier_code.Ids.Letters.{
  IsSuffix, accepted_in, accepted_bytes, bytes_for, fill-letters, bytes_for-nine,
}

abbrev random : List (List ℕ)
random = (255 ∷ 0 ∷ 30 ∷ 252 ∷ 251 ∷ []) ∷ (27 ∷ 9 ∷ 11 ∷ []) ∷ []

enough : 5 ≤ accepted_in random
unfolding accepted_in accepted_bytes
enough = omega arith

fill-letters_example : IsSuffix 5 (fill random (record { places = []; missing = 5 }))
fill-letters_example = fill-letters 5 random enough

bytes_for-nine_example : bytes_for 3 256 ≡ 9
bytes_for-nine_example = bytes_for-nine 3 (omega arith)

new_id-letters : new_id "thr-" random ≡ some "thr-24zzc"
unfolding new_id mint fill read_buffer place spell
new_id-letters = refl
