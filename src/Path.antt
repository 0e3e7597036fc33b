-- ===== src/Path.antt =====
-- libc/src/libgen/basename.c and dirname.c: the parts of a path name, in the object of the path.
pub mod Parts
use inwox.Base.{
  ℕ, zero, suc, ◌+◌, ◌-◌, ◌*◌, ◌/◌, ◌%◌, ◌^◌, ◌≤◌, ◌<◌, min, ◌≡◌, refl, sym, ap, ◌∙◌, ◌≢◌, ◌↔◌, ◌⊎◌,
  inl, inr, Bool, true, false, not, ◌&&◌, ◌||◌, Option, none, some, List, [], ◌∷◌, ◌++◌, map,
  append-nil, append_assoc, arith, ltb, leb, ◌==◌, ==_iff, if◌then◌else◌, Bool-cases, Option-cases,
  length, get_elem?, set, take, drop, replicate, All, length-append, length-replicate, length-set,
  Bytes, ◌>>=◌,
}
use inwox.Str.{strlen}

-- A literal string that is returned, or the place in the path that is returned with the object as
-- it is then. `beyond` is an access outside the object.
pub data Part : Type 0 where
  literal : Bytes → Part
  place : ℕ → Bytes → Part
  beyond : Part

abbrev pub slash : ℕ
slash = b'/'

unfoldable pub is_slash : Bytes → ℕ → Option Bool
is_slash path i = get_elem? path i >>= λ c. some (c == slash)

-- The loops of `basename`, on `i`: slashes at the end are cut off, and then the last part is
-- looked for.
unfoldable pub cut_slashes : ℕ → Bytes → Option (ℕ × Bytes)
cut_slashes zero path = some (0, path)
cut_slashes (suc i) path =
    let rest = cut_slashes i (set path (suc i) 0) in
    is_slash path (suc i) >>= λ s. if s then rest else some (suc i, path)

unfoldable pub last_part : ℕ → Bytes → Option ℕ
last_part zero path = some 0
last_part (suc i) path =
    let rest = last_part i path in is_slash path i >>= λ s. if s then some (suc i) else rest

unfoldable pub to_place : Bytes → Option ℕ → Part
to_place path none = beyond
to_place path (some i) = place i path

unfoldable pub find_last : Option (ℕ × Bytes) → Part
find_last none = beyond
find_last (some (i, path)) = to_place path (last_part i path)

unfoldable pub base_from : Bytes → Option ℕ → Part
base_from path none = beyond
base_from path (some n) =
    if n == 0 then literal (b'.' ∷ []) else find_last (cut_slashes (n - 1) path)

-- `none` is a null pointer.
unfoldable pub basename : Option Bytes → Part
basename none = literal (b'.' ∷ [])
basename (some path) = base_from path (strlen path)

-- The three loops of `dirname`, the first and the last of which are the same: to the last byte
-- that is not a slash, and to the last slash. `none` in the result is the start of the path.
unfoldable pub skip_slashes : ℕ → Bytes → Option (Option ℕ)
skip_slashes zero path = is_slash path 0 >>= λ s. some (if s then none else some 0)
skip_slashes (suc i) path =
    let rest = skip_slashes i path in
    is_slash path (suc i) >>= λ s. if s then rest else some (some (suc i))

unfoldable pub skip_name : ℕ → Bytes → Option (Option ℕ)
skip_name zero path = is_slash path 0 >>= λ s. some (if s then some 0 else none)
skip_name (suc i) path =
    let rest = skip_name i path in
    is_slash path (suc i) >>= λ s. if s then some (some (suc i)) else rest

unfoldable pub end_at : Bytes → Option (Option ℕ) → Part
end_at path none = beyond
end_at path (some none) = literal (slash ∷ [])
end_at path (some (some i)) = place 0 (set path (i + 1) 0)

unfoldable pub behind_name : Bytes → Option (Option ℕ) → Part
behind_name path none = beyond
behind_name path (some none) = literal (b'.' ∷ [])
behind_name path (some (some i)) = end_at path (skip_slashes i path)

unfoldable pub behind_slashes : Bytes → Option (Option ℕ) → Part
behind_slashes path none = beyond
behind_slashes path (some none) = literal (slash ∷ [])
behind_slashes path (some (some i)) = behind_name path (skip_name i path)

unfoldable pub dir_from : Bytes → Option ℕ → Part
dir_from path none = beyond
dir_from path (some n) =
    if n == 0 then literal (b'.' ∷ []) else behind_slashes path (skip_slashes (n - 1) path)

unfoldable pub dirname : Option Bytes → Part
dirname none = literal (b'.' ∷ [])
dirname (some path) = dir_from path (strlen path)
