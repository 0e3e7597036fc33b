-- ===== src/Str/Messages.antt =====
-- libc/src/string/strerror.c: the message of an error number.
use inwox.Base.{
  ℕ, zero, suc, ◌<◌, ◌≡◌, refl, sym, ap, ◌∙◌, inl, inr, Bool, true, false, ◌&&◌, Option, none, some,
  List, [], ◌∷◌, ◌++◌, arith, ◌==◌, if◌then◌else◌, Bool-cases, Bytes,
}
use Prim.Native.Char.{code}
use Prim.Native.String.{String}

-- The bytes of a text in ASCII.
abbrev pub codes : String → Bytes
codes String.[] = []
codes (String.◌∷◌ c s) = code c ∷ codes s

-- The cases in their order, in three parts; each stands for `case` number and text.
unfoldable pub first_messages : List (ℕ × Bytes)
first_messages =
    (0, codes "Success")
    ∷ (1, codes "Argument list too long")
    ∷ (2, codes "Permission denied")
    ∷ (3, codes "Address already in use")
    ∷ (4, codes "Address not available")
    ∷ (5, codes "Address family not supported")
    ∷ (6, codes "Resource temporarily unavailable")
    ∷ (7, codes "Connection already in progress")
    ∷ (8, codes "Bad file descriptor")
    ∷ (9, codes "Bad message")
    ∷ (10, codes "Device or resource busy")
    ∷ (11, codes "Operation canceled")
    ∷ (12, codes "No child processes")
    ∷ (13, codes "Connection aborted")
    ∷ (14, codes "Connection refused")
    ∷ (15, codes "Connection reset")
    ∷ (16, codes "Resource deadlock avoided")
    ∷ (17, codes "Destination address required")
    ∷ (18, codes "Mathematics argument out of domain of function")
    ∷ (19, codes "Disk quota exceeded")
    ∷ (20, codes "File exists")
    ∷ (21, codes "Bad address")
    ∷ (22, codes "File too large")
    ∷ (23, codes "Host is unreachable")
    ∷ (24, codes "Identifier removed")
    ∷ (25, codes "Invalid or incomplete multibyte or wide character")
    ∷ (26, codes "Operation in progress")
    ∷ []

-- From EINTR on.
unfoldable pub middle_messages : List (ℕ × Bytes)
middle_messages =
    (27, codes "Interrupted function call")
    ∷ (28, codes "Invalid argument")
    ∷ (29, codes "Input/output error")
    ∷ (30, codes "Socket is connected")
    ∷ (31, codes "Is a directory")
    ∷ (32, codes "Too many levels of symbolic links")
    ∷ (33, codes "Too many open files")
    ∷ (34, codes "Too many links")
    ∷ (35, codes "Message too long")
    ∷ (36, codes "Multihop attempted")
    ∷ (37, codes "Filename too long")
    ∷ (38, codes "Network is down")
    ∷ (39, codes "Connection aborted by network")
    ∷ (40, codes "Network unreachable")
    ∷ (41, codes "Too many open files in system")
    ∷ (42, codes "No buffer space available")
    ∷ (43, codes "No such device")
    ∷ (44, codes "No such file or directory")
    ∷ (45, codes "Exec format error")
    ∷ (46, codes "No locks available")
    ∷ (47, codes "Link has been severed")
    ∷ (48, codes "Not enough space/cannot allocate memory")
    ∷ (49, codes "No message of the desired type")
    ∷ (50, codes "Protocol not available")
    ∷ (51, codes "No space left on device")
    ∷ (52, codes "Function not implemented")
    ∷ []

-- From ENOTCONN on.
unfoldable pub last_messages : List (ℕ × Bytes)
last_messages =
    (53, codes "The socket is not connected")
    ∷ (54, codes "Not a directory")
    ∷ (55, codes "Directory not empty")
    ∷ (56, codes "State not recoverable")
    ∷ (57, codes "Not a socket")
    ∷ (58, codes "Operation not supported")
    ∷ (59, codes "Inappropriate I/O control operation")
    ∷ (60, codes "No such device or address")
    ∷ (61, codes "Operation not supported on socket")
    ∷ (62, codes "Value too large to be stored in data type")
    ∷ (63, codes "Owner died")
    ∷ (64, codes "Operation not permitted")
    ∷ (65, codes "Broken pipe")
    ∷ (66, codes "Protocol error")
    ∷ (67, codes "Protocol not supported")
    ∷ (68, codes "Protocol wrong type for socket")
    ∷ (69, codes "Result too large")
    ∷ (70, codes "Read-only filesystem")
    ∷ (71, codes "Invalid seek")
    ∷ (72, codes "No such process")
    ∷ (73, codes "Stale file handle")
    ∷ (74, codes "Connection timed out")
    ∷ (75, codes "Text file busy")
    ∷ (76, codes "Operation would block")
    ∷ (77, codes "Improper link")
    ∷ []

unfoldable pub message_in : ℕ → List (ℕ × Bytes) → Option Bytes
message_in e [] = none
message_in e ((k, text) ∷ rest) = if e == k then some text else message_in e rest

unfoldable pub or_unknown : Option Bytes → Bytes
or_unknown none = codes "Unknown error"
or_unknown (some text) = text

unfoldable pub strerror : ℕ → Bytes
strerror e = or_unknown (message_in e (first_messages ++ (middle_messages ++ last_messages)))

abbrev same_bytes : Bytes → Bytes → Bool
same_bytes [] [] = true
same_bytes (x ∷ xs) (y ∷ ys) = if x == y then same_bytes xs ys else false
same_bytes _ _ = false

-- The number whose message is the text.
number_of : Bytes → List (ℕ × Bytes) → ℕ
number_of cs [] = 78
number_of cs ((k, text) ∷ rest) = if same_bytes cs text then k else number_of cs rest

abbrev messages : List (ℕ × Bytes)
messages = first_messages ++ (middle_messages ++ last_messages)

-- Each number below `n` is found by its message.
are_found : ℕ → Bool
are_found zero = true
are_found (suc n) = number_of (strerror n) messages == n && are_found n

are_found_all : are_found 78 ≡ true
unfolding are_found number_of strerror message_in or_unknown first_messages middle_messages
    last_messages
are_found_all = refl

are_found-lt : (n e : ℕ) → are_found n ≡ true → e < n → number_of (strerror e) messages ≡ e
unfolding are_found
are_found-lt zero e h l = absurd (omega arith)
are_found-lt (suc n) e h l = elim (Bool-cases (e == n)) [
  | inl q ↦ let here : e ≡ n = ground (arith, q) in rw here (ground (arith, h))
  | inr q ↦ are_found-lt n e (ground (arith, h)) (ground (arith, q))
]

-- Two different errors, of the 77 and success, have different messages.
pub strerror-injective : (d e : ℕ) → d < 78 → e < 78 → strerror d ≡ strerror e → d ≡ e
strerror-injective d e hd he same =
    sym (are_found-lt 78 d are_found_all hd)
    ∙ (ap (λ cs. number_of cs messages) same ∙ are_found-lt 78 e are_found_all he)
