-- ===== src/Memory/Paging/Translate.antt =====
-- What a mapping does to the translation of addresses.
use inwox.Base.{
  ℕ, ◌+◌, ◌%◌, ◌<◌, ◌≡◌, refl, ap, ◌≢◌, inl, inr, true, false, Option, none, some, arith, ◌==◌,
  if◌then◌else◌, Bool-cases, All,
}
use inwox.Memory.Paging.{page_size, Paging, directory, set_table, frame_of}

-- The last word of the kernel's directory points to the directory itself, so it counts as no table.
abbrev pub self_index : ℕ
self_index = 1023

abbrev pub IsTable : ℕ → ℕ → Paging → Type 0
IsTable space i m = (i ≢ self_index) × (directory m space i ≢ 0)

-- The tables of a space stand in different frames, and none in the frame of the directory.
pub record Separate (space : ℕ) (m : Paging) : Type 0 where
  pub apart :
      (i j : ℕ)
      → IsTable space i m
      → IsTable space j m
      → i ≢ j
      → frame_of (directory m space i) ≢ frame_of (directory m space j)
  pub own : (i : ℕ) → IsTable space i m → frame_of (directory m space i) ≢ m.page_dir space

-- A frame that is neither a directory nor a table of the space, and directories of the other spaces
-- that are neither this frame nor the kernel's directory or tables, where a kernel's table is shared.
pub record IsFresh (space frame : ℕ) (m : Paging) : Type 0 where
  pub aligned : frame % page_size ≡ 0
  pub not_directory : m.page_dir space ≢ frame
  pub not_table : (i : ℕ) → IsTable space i m → frame_of (directory m space i) ≢ frame
  pub others :
      space ≡ 0
      → All
          (λ s.
            (m.page_dir s ≢ frame)
            × (m.page_dir s ≢ m.page_dir space)
            × ((i : ℕ) → IsTable space i m → m.page_dir s ≢ frame_of (directory m space i)))
          m.spaces

-- There is a table for the index, or a fresh frame to make one of.
abbrev pub CanMap : ℕ → ℕ → Option ℕ → Paging → Type 0
CanMap space pd none m = directory m space pd ≢ 0
CanMap space pd (some frame) m = IsFresh space frame m

-- What the word of a directory and the tables say of a page.
unfoldable pub lookup : ℕ → (ℕ → ℕ → ℕ) → ℕ → ℕ
lookup word table pt = if word == 0 then 0 else frame_of (table (frame_of word) pt)

pub lookup-zero : (table : ℕ → ℕ → ℕ) (j : ℕ) → lookup 0 table j ≡ 0
unfolding lookup
lookup-zero table j = refl

unfoldable pub translate : ℕ → ℕ → ℕ → Paging → ℕ
translate space pd pt m = lookup (directory m space pd) m.memory pt

pub set_table-far : (f : ℕ → ℕ → ℕ) (a b j : ℕ) (w : ℕ → ℕ) → b ≢ a → set_table f a w b j ≡ f b j
unfolding set_table
set_table-far f a b j w ne = let other : (b == a) ≡ false = ground (arith, ne) in rw other refl

pub set_table-here : (f : ℕ → ℕ → ℕ) (a j : ℕ) (w : ℕ → ℕ) → set_table f a w a j ≡ w j
unfolding set_table
set_table-here f a j w = let self : (a == a) ≡ true = ground arith in rw self refl

pub frame_of-flags :
    (frame flags : ℕ) → frame % page_size ≡ 0 → flags < page_size → frame_of (frame + flags) ≡ frame
unfolding frame_of
frame_of-flags frame flags h small = omega arith

pub lookup-same :
    (word : ℕ) (f g : ℕ → ℕ → ℕ) (j : ℕ)
    → (word ≢ 0 → f (frame_of word) j ≡ g (frame_of word) j)
    → lookup word f j ≡ lookup word g j
unfolding lookup
lookup-same word f g j h = elim (Bool-cases (word == 0)) [
  | inl e ↦ rw e refl
  | inr e ↦ rw e (ap frame_of (h (λ z. ground (arith, e, z))))
]
