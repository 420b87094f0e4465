-- ===== src/Threads/Loading.antt =====
-- internal/threads/service.go, `Load`: the view from the database at boot, with what only a live
-- observation can back coerced and written back.
pub mod Rows
pub mod Boot
use atelier_code.Shared.{
  String, Bool, true, false, Option, none, some, List, [], ◌∷◌, String-discrete, if◌then◌else◌,
}
use atelier_code.Finite.{insert}
use atelier_code.Threads.Record.{ThreadRecord}
use atelier_code.Threads.Evidence.{coerce_record}
use atelier_code.Threads.State.{
  IdentityKey, IdentityKey-discrete, Error, Service, World, Method, ◌>>=◌, ◌>>◌, return, throw,
  read, modify, branch, on_option, update_row,
}

-- The record as `Load` leaves it in its list.
unfoldable pub booted : World → ThreadRecord → ThreadRecord
booted w r = if (coerce_record r).1 then record (coerce_record r).0 { updated_at = w.now } else r

unfoldable pub load_row : World → ThreadRecord → Method (Unit {0})
load_row w r = branch (coerce_record r).1 (do _ ← update_row w (booted w r); return tt) (return tt)

unfoldable pub load_rows : World → List (String × ThreadRecord) → Method (Unit {0})
load_rows w [] = return tt
load_rows w ((id, r) ∷ m) = let others = load_rows w m in do load_row w r; others

unfoldable pub install_rows :
    World
    → List (String × ThreadRecord)
    → List (String × ThreadRecord)
    → List (String × ThreadRecord)
install_rows w [] view = view
install_rows w ((id, r) ∷ m) view = install_rows w m (insert String-discrete r.id (booted w r) view)

unfoldable pub install_identities : List (IdentityKey × String) → Service → Service
install_identities [] s = s
install_identities ((key, id) ∷ m) s = install_identities m (record s {
  identities = insert IdentityKey-discrete key id s.identities;
  identity_keys = insert String-discrete id key s.identity_keys;
})

-- `Load`; `unreadable` is the error of a table that cannot be read.
unfoldable pub load : World → Option Error → Method (Unit {0})
load w unreadable = do
  on_option unreadable (return tt) throw
  rows ← read (λ s. s.rows)
  mapped ← read (λ s. s.identity_rows)
  load_rows w rows
  modify (λ s. record s { view = install_rows w rows s.view })
  modify (install_identities mapped)
