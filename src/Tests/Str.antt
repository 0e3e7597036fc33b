-- ===== src/Tests/Str.antt =====
-- The string functions at small strings, and the theorems on them there.
use inwox.Base.{ℕ, ◌+◌, ◌≡◌, refl, Option, none, some, [], ◌∷◌, ◌++◌, arith, replicate, Bytes}
use inwox.Base.Int.{negsuc}
use inwox.Str.{strcmp, strspn}
use inwox.Str.Text.{NoNul, cstring}
use inwox.Str.Compare.{lex, strcmp-lex}
use inwox.Str.Search.{strspn-two}
use inwox.Str.Messages.{
  codes, first_messages, middle_messages, last_messages, message_in, or_unknown, strerror,
}
use inwox.Str.Tokens.{token, strtok, strtok-single}
use inwox.Str.Move.{memmove, Copied, memmove-Copied}

abbrev abc : Bytes
abc = b'a' ∷ b'b' ∷ b'c' ∷ []

abbrev abd : Bytes
abd = b'a' ∷ b'b' ∷ b'd' ∷ []

-- What lies behind a string in its object.
abbrev behind : Bytes
behind = 7 ∷ []

abc-NoNul : NoNul abc
abc-NoNul = (omega arith, (omega arith, (omega arith, tt)))

abd-NoNul : NoNul abd
abd-NoNul = (omega arith, (omega arith, (omega arith, tt)))

strcmp_runs : strcmp (cstring abc []) (cstring abd []) ≡ some (negsuc 0)
unfolding strcmp
strcmp_runs = refl

memmove_runs : memmove 1 0 3 (cstring abc []) ≡ some (b'a' ∷ abc)
unfolding memmove
memmove_runs = refl

memmove-Copied_example :
    (m' : Bytes) × (memmove 1 0 3 (cstring abc []) ≡ some m') × Copied (cstring abc []) 1 0 0 3 m'
memmove-Copied_example = memmove-Copied 1 0 3 (cstring abc []) (omega arith) (omega arith)

strcmp-lex_example : strcmp (cstring abc behind) (cstring abd []) ≡ some (lex abc abd)
strcmp-lex_example = strcmp-lex abc abd behind [] abc-NoNul abd-NoNul

strspn-two_example : strspn 4 (cstring abc []) (b'a' ∷ b'b' ∷ 0 ∷ []) ≡ some (some 0)
strspn-two_example =
    strspn-two 3 b'a' (b'b' ∷ b'c' ∷ 0 ∷ []) b'a' b'b' (0 ∷ []) (omega arith) (omega arith)
      (omega arith)

-- Objects of four bytes.
abbrev fours : ℕ → Option Bytes
fours n = some (1 ∷ 2 ∷ 3 ∷ 4 ∷ [])

-- Two dots, a word of two bytes, and a dot.
abbrev two_dots : Bytes
two_dots = replicate 2 b'.'

strtok-single_example :
    strtok 10 (some 0) (b'.' ∷ (0 ∷ [])) (record {
      text = ([] ++ two_dots) ++ ((b'a' ∷ (b'b' ∷ [])) ++ (b'.' ∷ ([] ++ (0 ∷ []))));
      next = none;
    })
    ≡ token (some 2) (record {
      text = ([] ++ two_dots) ++ ((b'a' ∷ (b'b' ∷ [])) ++ (0 ∷ ([] ++ (0 ∷ []))));
      next = some (0 + 2 + 2 + 1);
    })
strtok-single_example =
    strtok-single 10 b'.' 2 [] b'a' (b'b' ∷ []) [] [] [] none (omega arith)
      ((omega arith, omega arith), ((omega arith, omega arith), tt)) tt (omega arith)

no_entry_runs : strerror 44 ≡ codes "No such file or directory"
unfolding strerror message_in or_unknown first_messages middle_messages last_messages
no_entry_runs = refl
