-- ===== src/Str/Text.antt =====
-- C strings as lists: the contents of a string are its bytes up to the terminator.
use inwox.Base.{◌≢◌, All, Bytes, ◌∷◌, ◌++◌}

-- A byte that does not end a string.
abbrev pub NoNul : Bytes → Type 0
NoNul = All (λ c. c ≢ 0)

-- An object that holds the string `xs`, with `rest` behind the terminator.
abbrev pub cstring : Bytes → Bytes → Bytes
cstring xs rest = xs ++ (0 ∷ rest)
