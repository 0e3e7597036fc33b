-- ===== src/Environ.antt =====
-- libc/src/stdlib/getenv.c and, from line 83 on, setenv.c: the environment as a list of entries. An
-- entry is an object of its own, so the `free` of a replaced one changes no other.
pub mod Entry
pub mod Lookup
pub mod Setting
use inwox.Base.{
  ℕ, zero, suc, ◌+◌, ◌-◌, ◌*◌, ◌/◌, ◌%◌, ◌^◌, ◌≤◌, ◌<◌, min, ◌≡◌, refl, sym, ap, ◌∙◌, ◌≢◌, ◌↔◌, ◌⊎◌,
  inl, inr, Bool, true, false, not, ◌&&◌, ◌||◌, Option, none, some, List, [], ◌∷◌, ◌++◌, map,
  append-nil, append_assoc, arith, ltb, leb, ◌==◌, ==_iff, if◌then◌else◌, Bool-cases, Option-cases,
  length, get_elem?, set, take, drop, replicate, All, length-append, length-replicate, length-set,
  Bytes, ◌>>=◌,
}
use inwox.Base.Int.{ℤ, pos, negsuc}
use inwox.Str.{Found, strlen, strncmp, strchr, strcspn, stpcpy}

-- `malloc` of a size: the new object, `none` for `NULL`.
abbrev pub Alloc : Type 0
Alloc = ℕ → Option Bytes

-- `environ` is `none` for `NULL`, and else the entries up to the `NULL` at the end. `owned` says that
-- it is __mallocedEnviron.
-- `length` and `size` are __environLength and __environSize.
pub record Environment : Type 0 where
  pub environ : Option (List Bytes)
  pub owned : Bool
  pub length : ℕ
  pub size : ℕ

-- "=" and its terminator.
abbrev pub equals_sign : Bytes
equals_sign = b'=' ∷ 0 ∷ []

unfoldable pub is_zero : ℤ → Bool
is_zero (pos zero) = true
is_zero (pos (suc n)) = false
is_zero (negsuc n) = false

-- Is the text in front of the `=` the name, of `size` bytes?
unfoldable pub is_entry : Bytes → ℕ → Bytes → Option Bool
is_entry name size entry = strcspn entry equals_sign >>= λ length.
    if size == length
    then (strncmp entry name size >>= λ order. some (is_zero order))
    else some false

-- `getenv` compares in the other order.
unfoldable pub getenv_loop : Bytes → ℕ → List Bytes → Option (Option Bytes)
getenv_loop name size [] = some none
getenv_loop name size (entry ∷ envp) =
    let rest = getenv_loop name size envp in
    strcspn entry equals_sign >>= λ length.
    if length == size
    then (strncmp name entry length >>= λ order.
        if is_zero order then some (some (drop (length + 1) entry)) else rest)
    else rest

-- The value is an object inside the entry; `some none` is `NULL`, and `none` a fault, also where
-- `environ` is `NULL`.
unfoldable pub getenv : Bytes → Environment → Option (Option Bytes)
getenv name env = strlen name >>= λ size. env.environ >>= λ envp. getenv_loop name size envp

-- stpcpy to an offset of an object.
unfoldable pub stpcpy_at : Bytes → ℕ → Bytes → Option (Bytes × ℕ)
stpcpy_at dest offset src =
    stpcpy (drop offset dest) src >>= λ (text, end). some (take offset dest ++ text, offset + end)

-- The new entry; `some none` where there is no memory for it.
unfoldable pub new_entry : Alloc → Bytes → ℕ → Bytes → Option (Option Bytes)
new_entry malloc name name_length value = strlen value >>= λ value_length.
    elim (malloc (name_length + value_length + 2)) [
      | none ↦ some none
      | some fresh ↦ stpcpy_at fresh 0 name >>= λ (entry, end).
          stpcpy_at entry end equals_sign >>= λ (entry', end').
          stpcpy_at entry' end' value >>= λ (entry'', end''). some (some entry'')
    ]

-- The loop of `setenv`: the first entry for the name, counted from `i`.
unfoldable pub find_entry : Bytes → ℕ → List Bytes → ℕ → Option Found
find_entry name size [] i = some none
find_entry name size (entry ∷ environ) i =
    let rest = find_entry name size environ (i + 1) in
    is_entry name size entry >>= λ hit. if hit then some (some i) else rest

-- The result of `setenv`: 0, or -1.
pub data Status : Type 0 where
  ok fail : Status

unfoldable pub replace_entry :
    Alloc → Bytes → ℕ → Bytes → Bool → ℕ → List Bytes → Environment → Option (Status × Environment)
replace_entry malloc name name_length value overwrite i environ env =
    if not overwrite
    then some (ok, env)
    else (new_entry malloc name name_length value >>= λ made. some (elim made [
      | none ↦ (fail, env)
      | some entry ↦ (ok, record env { environ = some (set environ i entry) })
    ]))

-- The array is doubled where it is full; `none` is the return of -1.
unfoldable pub grow : Alloc → Environment → Option Environment
grow realloc env =
    if env.length + 1 == env.size
    then (if leb (2 ^ 32) (env.size * 8)
        then none
        else (realloc (env.size * 8) >>= λ _.
            some (record env { size = env.size * 2; owned = true })))
    else some env

-- The entry is put behind the others, and `NULL` behind it, which needs the room.
unfoldable pub append_entry : Bytes → List Bytes → Environment → Option (Status × Environment)
append_entry entry environ env =
    if ltb (length environ + 1) env.size
    then some (ok, record env { environ = some (environ ++ (entry ∷ [])); length = env.length + 1 })
    else none

unfoldable pub append_made : Option Bytes → List Bytes → Environment → Option (Status × Environment)
append_made none environ env = some (fail, env)
append_made (some entry) environ env = append_entry entry environ env

unfoldable pub add_grown :
    Alloc
    → Bytes
    → ℕ
    → Bytes
    → List Bytes
    → Environment
    → Option Environment
    → Option (Status × Environment)
add_grown malloc name name_length value environ env none = some (fail, env)
add_grown malloc name name_length value environ env (some env') =
    new_entry malloc name name_length value >>= λ made. append_made made environ env'

unfoldable pub add_entry :
    Alloc → Bytes → ℕ → Bytes → List Bytes → Environment → Option (Status × Environment)
add_entry malloc name name_length value environ env =
    add_grown malloc name name_length value environ env (grow malloc env)

-- The work of `setenv` in an array that may be changed.
unfoldable pub set_entry :
    Alloc → Bytes → Bytes → Bool → Environment → Option (Status × Environment)
set_entry malloc name value overwrite env = strlen name >>= λ name_length.
    env.environ >>= λ environ. find_entry name name_length environ 0 >>= λ found. elim found [
      | some i ↦ replace_entry malloc name name_length value overwrite i environ env
      | none ↦ add_entry malloc name name_length value environ env
    ]
