-- ===== src/Memory/Paging/Entry.antt =====
-- An entry that is written in a page table.
use inwox.Base.{
  ℕ, ◌≡◌, refl, sym, ap, ◌∙◌, ◌≢◌, inl, inr, true, false, ◌&&◌, arith, ◌==◌, if◌then◌else◌,
  Bool-cases,
}
use inwox.Memory.Paging.{Paging, directory, set_word, set_table, set_at, frame_of, set_entry}
use inwox.Memory.Paging.Translate.{
  self_index, IsTable, Separate, lookup, lookup-same, translate, set_table-far,
}

-- The table of an index is not the directory, so an entry of it changes no word of this.
pub set_entry-directory :
    (space pd pt word : ℕ) (m : Paging)
    → Separate space m
    → IsTable space pd m
    → (i : ℕ) → directory (set_entry space pd pt word m) space i ≡ directory m space i
unfolding set_entry set_at
set_entry-directory space pd pt word m sep table i =
    set_table-far m.memory (frame_of (directory m space pd)) (m.page_dir space) i _
      (λ q. sep.own pd table (sym q))

in_table :
    (w pt j word : ℕ) (memory : ℕ → ℕ → ℕ)
    → w ≢ 0
    → lookup w (set_at memory (frame_of w) pt word) j
      ≡ (if j == pt then frame_of word else lookup w memory j)
unfolding lookup set_at set_table set_word
in_table w pt j word memory there =
    let present : (w == 0) ≡ false = ground (arith, there) in
    let self : (frame_of w == frame_of w) ≡ true = ground arith in
    elim (Bool-cases (j == pt)) [
      | inl e ↦ rw (present, self, e) refl
      | inr e ↦ rw (present, self, e) refl
    ]

pub set_entry-spaces :
    (space pd pt word : ℕ) (m : Paging) → (set_entry space pd pt word m).spaces ≡ m.spaces
unfolding set_entry
set_entry-spaces space pd pt word m = refl

set_entry-here :
    (space pd pt word : ℕ) (m : Paging)
    → Separate space m
    → IsTable space pd m
    → (j : ℕ)
    → translate space pd j (set_entry space pd pt word m)
      ≡ (if j == pt then frame_of word else translate space pd j m)
unfolding translate set_entry
set_entry-here space pd pt word m sep table j =
    ap (λ w. lookup w (set_entry space pd pt word m).memory j)
      (set_entry-directory space pd pt word m sep table pd)
    ∙ in_table (directory m space pd) pt j word m.memory table.1

set_entry-elsewhere :
    (space pd pt word : ℕ) (m : Paging)
    → Separate space m
    → IsTable space pd m
    → (i j : ℕ) → i ≢ self_index
    → i ≢ pd
    → translate space i j (set_entry space pd pt word m) ≡ translate space i j m
unfolding translate set_entry set_at
set_entry-elsewhere space pd pt word m sep table i j usual ne =
    let a = frame_of (directory m space pd) in
    ap (λ w. lookup w (set_entry space pd pt word m).memory j)
      (set_entry-directory space pd pt word m sep table i)
    ∙ lookup-same (directory m space i) (set_table m.memory a (set_word (m.memory a) pt word))
        m.memory j
        (λ z.
          set_table-far m.memory a (frame_of (directory m space i)) j _
            (sep.apart i pd (usual, z) table ne))

pub set_entry-Separate :
    (space pd pt word : ℕ) (m : Paging)
    → Separate space m
    → IsTable space pd m
    → Separate space (set_entry space pd pt word m)
unfolding set_entry
set_entry-Separate space pd pt word m sep table =
    let m' = set_entry space pd pt word m in
    let same = set_entry-directory space pd pt word m sep table in
    let was : (i : ℕ) → IsTable space i m' → IsTable space i m =
      λ i t. (t.0, λ z. t.1 (same i ∙ z)) in
    record {
      apart = λ i j ti tj ne q.
          sep.apart i j (was i ti) (was j tj) ne
            (sym (ap frame_of (same i)) ∙ (q ∙ ap frame_of (same j)));
      own = λ i ti q. sep.own i (was i ti) (sym (ap frame_of (same i)) ∙ q);
    }

pub set_entry-translate :
    (space pd pt word : ℕ) (m : Paging)
    → Separate space m
    → IsTable space pd m
    → (i j : ℕ) → i ≢ self_index
    → translate space i j (set_entry space pd pt word m)
      ≡ (if i == pd && j == pt then frame_of word else translate space i j m)
set_entry-translate space pd pt word m sep table i j usual = elim (Bool-cases (i == pd)) [
  | inl e ↦
      let here : i ≡ pd = ground (arith, e) in
      rw e (rw here (set_entry-here space pd pt word m sep table j))
  | inr e ↦
      rw e (set_entry-elsewhere space pd pt word m sep table i j usual (λ z. ground (arith, e, z)))
]
