-- ===== src/Tests/Environ.antt =====
-- An environment of two entries, and the theorem on `getenv` and `setenv` there.
use inwox.Base.{◌≡◌, refl, ◌≢◌, true, some, List, [], ◌∷◌, map, arith, replicate, Bytes}
use inwox.Str.Text.{cstring}
use inwox.Environ.{Alloc, Environment, getenv, set_entry, ok}
use inwox.Environ.Entry.{IsName}
use inwox.Environ.Lookup.{Binding, encode, IsEnvironment}
use inwox.Environ.Setting.{getenv-set_entry}

abbrev home : Bytes
home = b'H' ∷ []

abbrev root : Bytes
root = b'/' ∷ []

abbrev bindings : List Binding
bindings = (b'P' ∷ [], b'x' ∷ [], []) ∷ (home, b'y' ∷ b'z' ∷ [], 9 ∷ []) ∷ []

abbrev two_entries : Environment
two_entries = record { environ = some (map encode bindings); owned = true; length = 2; size = 16 }

two_entries-IsEnvironment : IsEnvironment two_entries bindings
two_entries-IsEnvironment = (
  refl,
  refl,
  omega arith,
  omega arith,
  (
    (((omega arith, omega arith), tt), (omega arith, tt)),
    ((((omega arith, omega arith), tt), (omega arith, (omega arith, tt))), tt),
  ),
)

abbrev plenty : Alloc
plenty n = some (replicate n 7)

getenv-set_entry_example :
    (env' : Environment) × (t : Bytes) × (set_entry plenty
        (cstring home [])
        (cstring root [])
        true
        two_entries
      ≡ some (ok, env'))
    × (getenv (cstring home []) env' ≡ some (some (cstring root t)))
    × ((m : Bytes)
        → IsName m
        → home ≢ m
        → getenv (cstring m []) env' ≡ getenv (cstring m []) two_entries)
getenv-set_entry_example =
    getenv-set_entry plenty two_entries bindings home root [] (7 ∷ 7 ∷ 7 ∷ 7 ∷ []) (replicate 128 7)
      ((omega arith, omega arith), tt) (omega arith, tt) two_entries-IsEnvironment refl refl refl
