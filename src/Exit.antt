-- ===== src/Exit.antt =====
-- libc/src/stdlib/atexit.c and exit.c: the table of the exit handlers.
pub mod Order
use inwox.Base.{
  ℕ, zero, suc, ◌+◌, ◌-◌, ◌*◌, ◌/◌, ◌%◌, ◌^◌, ◌≤◌, ◌<◌, min, ◌≡◌, refl, sym, ap, ◌∙◌, ◌≢◌, ◌↔◌, ◌⊎◌,
  inl, inr, Bool, true, false, not, ◌&&◌, ◌||◌, Option, none, some, List, [], ◌∷◌, ◌++◌, map,
  append-nil, append_assoc, arith, ltb, leb, ◌==◌, ==_iff, if◌then◌else◌, Bool-cases, Option-cases,
  length, get_elem?, set, take, drop, replicate, All, length-append, length-replicate, length-set,
  Bytes, ◌>>=◌,
}

-- A handler is known by a number; `none` is a slot that is `NULL`.
abbrev pub Table : Type 0
Table = List (Option ℕ)

abbrev pub atexit_max : ℕ
atexit_max = 32

abbrev pub empty_table : Table
empty_table = replicate atexit_max none

-- `none` is the result -1: every slot is taken.
unfoldable pub atexit : ℕ → Table → Option Table
atexit func [] = none
atexit func (none ∷ slots) = some (some func ∷ slots)
atexit func (some g ∷ slots) = atexit func slots >>= λ slots'. some (some g ∷ slots')

-- What a handler does to the table when it is called: it may call `atexit` itself.
abbrev pub Act : Type 0
Act = ℕ → Table → Table

-- __callAtexitHandlers: the handlers called, in the order of the calls. Slot `i - 1` is next.
unfoldable pub call_slot : (Table → List ℕ) → Act → Option (Option ℕ) → Table → List ℕ
call_slot next act (some (some func)) slots = func ∷ next (act func slots)
call_slot next act _ slots = next slots

unfoldable pub call_from : Act → ℕ → Table → List ℕ
call_from act zero slots = []
call_from act (suc i) slots = call_slot (call_from act i) act (get_elem? slots i) slots

unfoldable pub call_handlers : Act → Table → List ℕ
call_handlers act = call_from act atexit_max

-- A run of calls of `atexit`.
unfoldable pub register : List ℕ → Table → Option Table
register [] slots = some slots
register (func ∷ funcs) slots = atexit func slots >>= register funcs
