-- ===== src/Memory/Frames/Bag.antt =====
-- The free frames as a bag: what is pushed can be popped, once each, in some order.
use inwox.Base.{
  ℕ, suc, ◌%◌, ◌^◌, ◌<◌, ◌≡◌, refl, ap, ◌∙◌, ◌≢◌, ◌⊎◌, inl, inr, some, [], ◌∷◌, ◌++◌, arith, ◌==◌,
  Bool-cases, length, length-append, Bytes,
}
use mathlib.Core.List.{Perm, Permᴰ, perm_middle}
use mathlib.Core.Logic.{∥∥₁_elim}
use native.Mathlib.Nat.{ℕ_set}
use mathlib.Core.List.Perm
use inwox.Memory.Paging.{page_size}
use inwox.Memory.Frames.{Frames, push_page_frame, pop_page_frame}
use inwox.Memory.Frames.Stack.{Stacked, push-entry, push-page, pop-entry, pop-page, pop-empty}

-- The frames of the bag are those on the stack and those of its pages.
pub record Bag (f : Frames) (frames : Bytes) : Type 0 where
  pub entries : Bytes
  pub pages : Bytes
  pub stack : Stacked f entries pages
  pub same : Perm frames (entries ++ pages)

push_entry-Bag :
    (p : ℕ) (f : Frames) (frames : Bytes) (b : Bag f frames)
    → f.left ≢ 0
    → (f' : Frames) × (push_page_frame p f ≡ some f') × Bag f' (p ∷ frames)
push_entry-Bag p f frames b ne =
    let (f', e, h) = push-entry p f b.entries b.pages b.stack ne in
    (
      f',
      e,
      record { entries = p ∷ b.entries; pages = b.pages; stack = h; same = Perm.cons p b.same },
    )

push_page-Bag :
    (p : ℕ) (f : Frames) (frames : Bytes) (b : Bag f frames)
    → f.left ≡ 0
    → p % page_size ≡ 0
    → length b.pages < 1024
    → (f' : Frames) × (push_page_frame p f ≡ some f') × Bag f' (p ∷ frames)
push_page-Bag p f frames b full aligned few =
    let (f', e, h) = push-page p f b.entries b.pages b.stack full aligned few in
    (
      f',
      e,
      record {
        entries = b.entries;
        pages = p ∷ b.pages;
        stack = h;
        same = Perm.trans (Perm.cons p b.same) (Perm.symm (perm_middle b.entries b.pages));
      },
    )

Permᴰ-length : {xs ys : Bytes} → Permᴰ xs ys → length xs ≡ length ys
Permᴰ-length Permᴰ.nil = refl
Permᴰ-length (Permᴰ.cons _ p) = ap suc (Permᴰ-length p)
Permᴰ-length (Permᴰ.swap _ _) = refl
Permᴰ-length (Permᴰ.trans p q) = Permᴰ-length p ∙ Permᴰ-length q

length-perm : {xs ys : Bytes} → Perm xs ys → length xs ≡ length ys
length-perm p = ∥∥₁_elim p (ℕ_set _ _) Permᴰ-length

-- A frame is put in the bag, as long as there are fewer than the 2 ^ 20 of the physical memory.
pub push_page_frame-Bag :
    (p : ℕ) (f : Frames) (frames : Bytes)
    → Bag f frames
    → p % page_size ≡ 0
    → length frames < 2 ^ 20
    → (f' : Frames) × (push_page_frame p f ≡ some f') × Bag f' (p ∷ frames)
push_page_frame-Bag p f frames b aligned few =
    let counted = length-perm b.same in
    let both = length-append b.entries b.pages in
    elim (Bool-cases (f.left == 0)) [
      | inl e ↦
          push_page-Bag p f frames b (ground (arith, e)) aligned
            (ground (arith, e, b.stack.total, b.stack.used))
      | inr e ↦ push_entry-Bag p f frames b (λ z. ground (arith, e, z))
    ]

-- A pop takes a frame of the bag out of it, and gives 0 when the bag is empty.
abbrev pub Pops : Frames → Bytes → Type 0
Pops f frames =
    ((frames ≡ []) × (pop_page_frame f ≡ some (0, f)))
    ⊎ ((x : ℕ) × (f' : Frames) × (rest : Bytes) × (pop_page_frame f ≡ some (x, f'))
        × Perm frames (x ∷ rest)
        × Bag f' rest)

pop_from :
    (f : Frames) (frames entries pages : Bytes)
    → Stacked f entries pages
    → Perm frames (entries ++ pages)
    → Pops f frames
pop_from f frames [] [] h same = inl (Perm.eq-nil same, pop-empty f h)
pop_from f frames [] (p ∷ pages) h same =
    let (f', e, h') = pop-page p f pages h in
    inr (
      p,
      f',
      pages,
      e,
      same,
      record { entries = []; pages = pages; stack = h'; same = Perm.refl pages },
    )
pop_from f frames (x ∷ entries) pages h same =
    let (f', e, h') = pop-entry x f entries pages h in
    inr (
      x,
      f',
      entries ++ pages,
      e,
      same,
      record { entries = entries; pages = pages; stack = h'; same = Perm.refl (entries ++ pages) },
    )

-- From a bag with a frame, a pop takes a frame out; from an empty one, it returns 0 and changes
-- nothing.
pub pop_page_frame-Bag : (f : Frames) (frames : Bytes) → Bag f frames → Pops f frames
pop_page_frame-Bag f frames b = pop_from f frames b.entries b.pages b.stack b.same
