-- ===== src/Tests/Exit.antt =====
-- Three exit handlers, and the theorems on the table of handlers there.
use inwox.Base.{◌≡◌, refl, some, [], ◌∷◌, arith}
use inwox.Exit.{Table, empty_table, Act, call_handlers, register}
use inwox.Exit.Order.{backwards, call_handlers-backwards}

abbrev quiet : Act
quiet func slots = slots

call_handlers-backwards_example :
    (slots : Table) × (register (backwards (3 ∷ 2 ∷ 1 ∷ [])) empty_table ≡ some slots)
    × (call_handlers quiet slots ≡ (3 ∷ 2 ∷ 1 ∷ []))
call_handlers-backwards_example =
    call_handlers-backwards quiet (λ f t. refl) (3 ∷ 2 ∷ 1 ∷ []) (omega arith)
