-- ===== src/Str.antt =====
-- libc/src/string and libc/src/ctype/isspace.c: the functions on C strings and byte ranges. A pointer
-- is the list of bytes from it to the end of its object; `none` is an access beyond that end.
pub mod Text
pub mod Length
pub mod Compare
pub mod Search
pub mod Copy
pub mod Move
pub mod Messages
pub mod Tokens
use inwox.Base.{
  ℕ, zero, suc, ◌+◌, ◌-◌, ◌*◌, ◌/◌, ◌%◌, ◌^◌, ◌≤◌, ◌<◌, min, ◌≡◌, refl, sym, ap, ◌∙◌, ◌≢◌, ◌↔◌, ◌⊎◌,
  inl, inr, Bool, true, false, not, ◌&&◌, ◌||◌, Option, none, some, List, [], ◌∷◌, ◌++◌, map,
  append-nil, append_assoc, arith, ltb, leb, ◌==◌, ==_iff, if◌then◌else◌, Bool-cases, Option-cases,
  length, get_elem?, set, take, drop, replicate, All, length-append, length-replicate, length-set,
  Bytes, ◌>>=◌,
}
use inwox.Base.Int.{ℤ, pos, negsuc}

strlen_loop : ℕ → Bytes → Option ℕ
strlen_loop len [] = none
strlen_loop len (c ∷ s) = if c == 0 then some len else strlen_loop (len + 1) s

unfoldable pub strlen : Bytes → Option ℕ
unfolding strlen_loop
strlen s = strlen_loop 0 s

strnlen_loop : ℕ → Bytes → ℕ → Option ℕ
strnlen_loop maxlen [] ret = if ltb ret maxlen then none else some ret
strnlen_loop maxlen (c ∷ str) ret =
    let rest = strnlen_loop maxlen str (ret + 1) in
    if ltb ret maxlen then (if c == 0 then some ret else rest) else some ret

unfoldable pub strnlen : Bytes → ℕ → Option ℕ
unfolding strnlen_loop
strnlen str maxlen = strnlen_loop maxlen str 0

unfoldable pub strcmp : Bytes → Bytes → Option ℤ
strcmp (ac ∷ a) (bc ∷ b) =
    let rest = strcmp a b in
    if ac == 0 && bc == 0
    then some (pos 0)
    else if ltb ac bc
    then some (negsuc 0)
    else if ltb bc ac
    then some (pos 1)
    else rest
strcmp _ _ = none

unfoldable pub strncmp : Bytes → Bytes → ℕ → Option ℤ
strncmp str1 str2 zero = some (pos 0)
strncmp (a ∷ str1) (b ∷ str2) (suc length) =
    let rest = strncmp str1 str2 length in
    if ltb a b
    then some (negsuc 0)
    else if ltb b a
    then some (pos 1)
    else if a == 0 && b == 0
    then some (pos 0)
    else rest
strncmp _ _ _ = none

unfoldable pub memcmp : Bytes → Bytes → ℕ → Option ℤ
memcmp p q zero = some (pos 0)
memcmp (a ∷ p) (b ∷ q) (suc size) =
    let rest = memcmp p q size in
    if ltb a b then some (negsuc 0) else if ltb b a then some (pos 1) else rest
memcmp _ _ _ = none

-- An offset, or `none` for `NULL`.
abbrev pub Found : Type 0
Found = Option ℕ

strchr_loop : ℕ → Bytes → ℕ → Option Found
strchr_loop c [] i = none
strchr_loop c (x ∷ s) i =
    let rest = strchr_loop c s (i + 1) in
    if x == c % 256 then some (some i) else if x == 0 then some none else rest

unfoldable pub strchr : Bytes → ℕ → Option Found
unfolding strchr_loop
strchr s c = strchr_loop c s 0

strrchr_loop : ℕ → Bytes → ℕ → Found → Option Found
strrchr_loop c [] i result = none
strrchr_loop c (x ∷ s) i result =
    let result' : Found = if x == c % 256 then some i else result in
    let rest = strrchr_loop c s (i + 1) result' in if x == 0 then some result' else rest

unfoldable pub strrchr : Bytes → ℕ → Option Found
unfolding strrchr_loop
strrchr s c = strrchr_loop c s 0 none

-- The inner loop of `strcspn`: does `c` occur in `characters`?
unfoldable pub occurs : ℕ → Bytes → Option Bool
occurs c [] = none
occurs c (k ∷ characters) =
    let rest = occurs c characters in
    if k == 0 then some false else if c == k then some true else rest

strcspn_loop : Bytes → Bytes → ℕ → Option ℕ
strcspn_loop characters [] result = none
strcspn_loop characters (c ∷ string) result =
    let rest = strcspn_loop characters string (result + 1) in
    if c == 0
    then some result
    else (occurs c characters >>= λ hit. if hit then some result else rest)

unfoldable pub strcspn : Bytes → Bytes → Option ℕ
unfolding strcspn_loop occurs
strcspn string characters = strcspn_loop characters string 0

-- The inner loop of `strspn`: is some byte of `characters` other than `string[0]`? The string is
-- read only where a byte of `characters` is compared.
unfoldable pub differs : Bytes → Bytes → Option Bool
differs string [] = none
differs [] (k ∷ characters) = if k == 0 then some false else none
differs (c ∷ string) (k ∷ characters) =
    let rest = differs (c ∷ string) characters in
    if k == 0 then some false else if c == k then rest else some true

abbrev tail : Bytes → Bytes
tail [] = []
tail (c ∷ s) = s

-- `none` is a fault; `some none` is a loop that has not ended after the rounds given.
strspn_loop : ℕ → Bytes → Bytes → ℕ → Option (Option ℕ)
strspn_loop zero string characters result = some none
strspn_loop (suc fuel) string characters result =
    let rest = strspn_loop fuel (tail string) characters (result + 1) in
    differs string characters >>= λ stop. if stop then some (some result) else rest

unfoldable pub strspn : ℕ → Bytes → Bytes → Option (Option ℕ)
unfolding strspn_loop differs
strspn fuel string characters = strspn_loop fuel string characters 0

-- The destination afterwards, and the offset of the terminator that was written.
unfoldable pub stpcpy : Bytes → Bytes → Option (Bytes × ℕ)
stpcpy dest [] = none
stpcpy [] (c ∷ src) = none
stpcpy (d ∷ dest) (c ∷ src) =
    let rest = stpcpy dest src in
    if c == 0 then some (0 ∷ dest, 0) else (rest >>= λ r. some (c ∷ r.0, r.1 + 1))

-- The same loop; what is returned is the destination's own address.
unfoldable pub strcpy : Bytes → Bytes → Option Bytes
strcpy dest [] = none
strcpy [] (c ∷ src) = none
strcpy (d ∷ dest) (c ∷ src) =
    let rest = strcpy dest src in if c == 0 then some (0 ∷ dest) else (rest >>= λ r. some (c ∷ r))

-- `dest` and `src` are different objects.
unfoldable pub memcpy : Bytes → Bytes → ℕ → Option Bytes
memcpy dest src zero = some dest
memcpy (d ∷ dest) (s ∷ src) (suc size) = memcpy dest src size >>= λ r. some (s ∷ r)
memcpy _ _ _ = none

unfoldable pub memset : Bytes → ℕ → ℕ → Option Bytes
memset dest value zero = some dest
memset [] value (suc size) = none
memset (d ∷ dest) value (suc size) = memset dest value size >>= λ r. some ((value % 256) ∷ r)

-- `fresh` is the object that `malloc` returns, `none` for `NULL`.
unfoldable pub strdup : (ℕ → Option Bytes) → Bytes → Option Bytes
strdup malloc str =
    strlen str >>= λ length. malloc (length + 1) >>= λ result. memcpy result str (length + 1)

unfoldable pub isspace : ℕ → Bool
isspace c = c == b'\t' || c == b'\n' || c == 11 || c == 12 || c == b'\r' || c == b' '
