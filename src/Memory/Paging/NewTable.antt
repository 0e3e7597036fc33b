-- ===== src/Memory/Paging/NewTable.antt =====
-- A page table that is made of a fresh frame.
use inwox.Base.{
  ℕ, ◌+◌, ◌*◌, ◌/◌, ◌%◌, ◌<◌, ◌≡◌, refl, sym, ap, ◌∙◌, ◌≢◌, inl, inr, true, false, List, [], ◌∷◌,
  arith, ◌==◌, if◌then◌else◌, Bool-cases, All,
}
use inwox.Memory.Paging.{
  page_size, Paging, directory, user_flag, set_word, set_table, set_at, share, frame_of, with_table,
}
use inwox.Memory.Paging.Translate.{
  self_index, IsTable, Separate, IsFresh, lookup, lookup-zero, lookup-same, translate,
  set_table-far, set_table-here, frame_of-flags,
}

share-far :
    (ss : List ℕ) (dirs : ℕ → ℕ) (pd word : ℕ) (d : ℕ → ℕ → ℕ) (a j : ℕ)
    → All (λ s. dirs s ≢ a) ss
    → share ss dirs pd word d a j ≡ d a j
unfolding share set_at
share-far [] dirs pd word d a j h = refl
share-far (s ∷ ss) dirs pd word d a j (ne, h) =
    share-far ss dirs pd word (set_table d (dirs s) (set_word (d (dirs s)) pd word)) a j h
    ∙ set_table-far d (dirs s) a j (set_word (d (dirs s)) pd word) (λ e. ne (sym e))

-- Where the other spaces' directories do not stand, the sharing changes nothing.
with_table-unshared :
    (space pd frame : ℕ) (m : Paging) (a j : ℕ)
    → (space ≡ 0 → All (λ s. m.page_dir s ≢ a) m.spaces)
    → (with_table space pd frame m).memory a j
      ≡ set_table
          (set_at m.memory (m.page_dir space) pd (frame + 3 + user_flag space))
          frame
          (λ _. 0)
          a
          j
unfolding with_table
with_table-unshared space pd frame m a j far = elim (Bool-cases (space == 0)) [
  | inl e ↦ rw e (share-far m.spaces m.page_dir pd (frame + 3) _ a j (far (ground (arith, e))))
  | inr e ↦ rw e refl
]

All-map : (P Q : ℕ → Type 0) (ss : List ℕ) → ((s : ℕ) → P s → Q s) → All P ss → All Q ss
All-map P Q [] f h = tt
All-map P Q (s ∷ ss) f h = (f s h.0, All-map P Q ss f h.1)

-- The frames of `a` stay apart from the other directories.
abbrev Unshared : ℕ → ℕ → Paging → Type 0
Unshared space a m = space ≡ 0 → All (λ s. m.page_dir s ≢ a) m.spaces

pub with_table-directory :
    (space pd frame : ℕ) (m : Paging)
    → IsFresh space frame m
    → (j : ℕ)
    → directory (with_table space pd frame m) space j
      ≡ (if j == pd then frame + (3 + user_flag space) else directory m space j)
unfolding set_at set_word with_table
with_table-directory space pd frame m h j =
    let a = m.page_dir space in
    let word = frame + 3 + user_flag space in
    let flags : word ≡ frame + (3 + user_flag space) = omega arith in
    let far : Unshared space a m = λ z. All-map _ _ m.spaces (λ s k. k.1) (h.others z) in
    with_table-unshared space pd frame m a j far
    ∙ set_table-far _ frame a j (λ _. 0) h.not_directory
    ∙ set_table-here m.memory a j (set_word (m.memory a) pd word)
    ∙ ap (λ w. if j == pd then w else m.memory a j) flags

pub user_flag-lt : (space : ℕ) → 3 + user_flag space < page_size
unfolding user_flag
user_flag-lt space = ground arith

-- The new table is empty.
with_table-new :
    (space pd frame : ℕ) (m : Paging)
    → IsFresh space frame m
    → (j : ℕ) → (with_table space pd frame m).memory frame j ≡ 0
with_table-new space pd frame m h j =
    let far : Unshared space frame m = λ z. All-map _ _ m.spaces (λ s k. k.0) (h.others z) in
    with_table-unshared space pd frame m frame j far ∙ set_table-here _ frame j (λ _. 0)

-- The tables that were there stay as they are.
with_table-table :
    (space pd frame : ℕ) (m : Paging)
    → IsFresh space frame m
    → Separate space m
    → (i j : ℕ) → IsTable space i m
    → (with_table space pd frame m).memory (frame_of (directory m space i)) j
      ≡ m.memory (frame_of (directory m space i)) j
unfolding set_at
with_table-table space pd frame m h sep i j table =
    let a = frame_of (directory m space i) in
    let far : Unshared space a m = λ z. All-map _ _ m.spaces (λ s k. k.2 i table) (h.others z) in
    with_table-unshared space pd frame m a j far
    ∙ set_table-far _ frame a j (λ _. 0) (h.not_table i table)
    ∙ set_table-far m.memory (m.page_dir space) a j _ (sep.own i table)

lookup-empty :
    (frame flags j : ℕ) (memory : ℕ → ℕ → ℕ)
    → frame % page_size ≡ 0
    → flags < page_size
    → memory frame j ≡ 0
    → lookup (frame + flags) memory j ≡ 0
unfolding lookup frame_of
lookup-empty frame flags j memory aligned small empty =
    let own : (frame + flags) / page_size * page_size ≡ frame =
      frame_of-flags frame flags aligned small in
    rw (own, empty) (ground arith)

-- A new table changes no translation.
pub with_table-translate :
    (space pd frame : ℕ) (m : Paging)
    → directory m space pd ≡ 0
    → Separate space m
    → IsFresh space frame m
    → (i j : ℕ) → i ≢ self_index
    → translate space i j (with_table space pd frame m) ≡ translate space i j m
unfolding translate
with_table-translate space pd frame m absent sep h i j ne =
    let t = (with_table space pd frame m).memory in
    ap (λ w. lookup w t j) (with_table-directory space pd frame m h i)
    ∙ elim (Bool-cases (i == pd)) [
      | inl e ↦
          let here : i ≡ pd = ground (arith, e) in
          let word : directory m space i ≡ 0 = ap (directory m space) here ∙ absent in
          rw e (
            lookup-empty frame (3 + user_flag space) j t h.aligned (user_flag-lt space)
              (with_table-new space pd frame m h j)
            ∙ sym (ap (λ w. lookup w m.memory j) word ∙ lookup-zero m.memory j))
      | inr e ↦ rw e (
          lookup-same (directory m space i) t m.memory j
            (λ z. with_table-table space pd frame m h sep i j (ne, z)))
    ]

with_table-old :
    (space pd frame i : ℕ) (m : Paging)
    → IsFresh space frame m
    → i ≢ pd
    → directory (with_table space pd frame m) space i ≡ directory m space i
with_table-old space pd frame i m h ne =
    let other : (i == pd) ≡ false = ground (arith, ne) in
    with_table-directory space pd frame m h i ∙ rw other refl

with_table-frame :
    (space pd frame : ℕ) (m : Paging)
    → IsFresh space frame m
    → frame_of (directory (with_table space pd frame m) space pd) ≡ frame
with_table-frame space pd frame m h =
    let self : (pd == pd) ≡ true = ground arith in
    ap frame_of (with_table-directory space pd frame m h pd ∙ rw self refl)
    ∙ frame_of-flags frame (3 + user_flag space) h.aligned (user_flag-lt space)

pub with_table-Separate :
    (space pd frame : ℕ) (m : Paging)
    → IsFresh space frame m
    → Separate space m
    → Separate space (with_table space pd frame m)
unfolding with_table
with_table-Separate space pd frame m h sep =
    let m' = with_table space pd frame m in
    let new = with_table-frame space pd frame m h in
    let was : (i : ℕ) → i ≢ pd → IsTable space i m' → IsTable space i m =
      λ i ne t. (t.0, λ z. t.1 (with_table-old space pd frame i m h ne ∙ z)) in
    let same : (i : ℕ) → i ≢ pd → frame_of (directory m' space i) ≡ frame_of (directory m space i) =
      λ i ne. ap frame_of (with_table-old space pd frame i m h ne) in
    record {
      apart = λ i j ti tj ne. elim (Bool-cases (i == pd)) [
        | inl e ↦
            let here : i ≡ pd = ground (arith, e) in
            let other : j ≢ pd = λ q. ne (here ∙ sym q) in
            λ q. h.not_table j (was j other tj) (
              sym (same j other) ∙ (sym q ∙ (ap (λ k. frame_of (directory m' space k)) here ∙ new)))
        | inr e ↦ elim (Bool-cases (j == pd)) [
          | inl e' ↦
              let here : j ≡ pd = ground (arith, e') in
              let other : i ≢ pd = λ q. ne (q ∙ sym here) in
              λ q.
                h.not_table i (was i other ti) (
                  sym (same i other) ∙ (q ∙ (ap (λ k. frame_of (directory m' space k)) here ∙ new)))
          | inr e' ↦
              let oi : i ≢ pd = λ q. ground (arith, e, q) in
              let oj : j ≢ pd = λ q. ground (arith, e', q) in
              λ q. sep.apart i j (was i oi ti) (was j oj tj) ne (sym (same i oi) ∙ (q ∙ same j oj))
        ]
      ];
      own = λ i ti. elim (Bool-cases (i == pd)) [
        | inl e ↦
            let here : i ≡ pd = ground (arith, e) in
            λ q. h.not_directory (sym q ∙ (ap (λ k. frame_of (directory m' space k)) here ∙ new))
        | inr e ↦
            let oi : i ≢ pd = λ q. ground (arith, e, q) in
            λ q. sep.own i (was i oi ti) (sym (same i oi) ∙ q)
      ];
    }
