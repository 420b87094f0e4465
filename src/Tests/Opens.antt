-- ===== src/Tests/Opens.antt =====
-- A resumed terminal lands.
use atelier_code.Shared.{String, ◌≡◌, ◌⊎◌, ◌≢◌, Option, none, some, [], ◌∷◌}
use atelier_code.Threads.State.{Service, Error, Method, ok}
use atelier_code.Threads.Resuming.{land_open}
use atelier_code.Threads.Resuming.Landing.{IsLanded, IsGivenUp, land_open-IsLanded}
use atelier_code.Tests.Samples.{empty_service, world, working_thread}

-- The thread, whose launch is under way.
abbrev launching : Service
launching = record empty_service {
  rows = ("th", working_thread) ∷ [];
  view = ("th", working_thread) ∷ [];
  opening = ("th", tt) ∷ [];
}

abbrev launched : String
launched = "w9"

abbrev discards : Method (Unit {0})
discards s = (s, ok tt)

land_open-IsLanded_example :
    let y = land_open (world 40 []) "th" launched none discards launching in
    ((launched ≢ "") ⊎ (◌≡◌ {A = Option Error} none none)
      → IsLanded (world 40 []) "th" launched none discards launching y)
    × ((e : Error) → launched ≡ "" → none ≡ some e → IsGivenUp "th" e launching y.0 y.1)
land_open-IsLanded_example = land_open-IsLanded (world 40 []) "th" launched none discards launching
