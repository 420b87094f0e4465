-- ===== src/Tests/Scopes.antt =====
-- Two state directories on one machine.
use Prim.Native.String.{count}
use atelier_code.Shared.{String, ◌≡◌, ◌↔◌, ◌≢◌, refl, some, ite, String-discrete}
use atelier_code.Placement.{name, id_of, pattern_of, scope_prefix}
use atelier_code.Placement.Names.{id_of-name, name-eq}

abbrev digest_of : String → String
digest_of n = ite (String-discrete n "/home/a/state") "00ff00ff00ff" "aa11aa11aa11"

abbrev terminal : String
terminal = "k2z9p"

abbrev scope : String
scope = "atc-terminal-00ff00ff00ff-k2z9p.scope"

digest_of-length : (n : String) → count (digest_of n) ≡ 12
digest_of-length n =
    elim (String-discrete n "/home/a/state")
      as (λ d. count (ite d "00ff00ff00ff" "aa11aa11aa11") ≡ 12) [ yes e ↦ refl | no o ↦ refl ]

id_of-name_example : (id_of digest_of "terminal" "/home/a/state" scope ≡ some terminal) ↔ (
    (scope ≡ name digest_of "terminal" "/home/a/state" terminal) × (◌≢◌ {A = String} terminal ""))
id_of-name_example = id_of-name digest_of "terminal" "/home/a/state" scope terminal

name-eq_example :
    (name digest_of "terminal" "/home/a/state" terminal
      ≡ name digest_of "terminal" "/home/b/state" terminal)
    ↔ ((digest_of "/home/a/state" ≡ digest_of "/home/b/state") × (terminal ≡ terminal))
name-eq_example =
    name-eq digest_of "terminal" "/home/a/state" "/home/b/state" terminal terminal digest_of-length

terminal_scope : name digest_of "terminal" "/home/a/state" terminal ≡ scope
unfolding name scope_prefix String-discrete
terminal_scope = refl

all_terminals : pattern_of digest_of "terminal" "" ≡ "atc-terminal-*.scope"
unfolding pattern_of String-discrete
all_terminals = refl
