-- ===== src/Heap/Removed.antt =====
-- What `free` does to the objects in use, and that free blocks never stand side by side.
use inwox.Base.{
  ℕ, ◌+◌, ◌<◌, ◌≡◌, refl, ap, ◌∙◌, ◌≢◌, Bool, true, false, some, List, [], ◌∷◌, ◌++◌, arith,
}
use inwox.Heap.{Ptr, null, Heap, mcb_size, size_mod, free}
use inwox.Heap.Chain.{Block, Chain, end_of}
use inwox.Heap.Join.{merge_next}
use inwox.Heap.Freed.{freed}
use inwox.Heap.Release.{is_whole, free-freed}
use inwox.Heap.Live.{Object, objects}

objects-append :
    (pre bs : List Block) (p : Ptr)
    → objects p (pre ++ bs) ≡ objects p pre ++ objects (end_of p pre) bs
unfolding objects
objects-append [] bs p = refl
objects-append ((true, s) ∷ pre) bs p = rw (objects-append pre bs (p + mcb_size + s))
objects-append ((false, s) ∷ pre) bs p = objects-append pre bs (p + mcb_size + s)

objects-merge_next :
    (s : ℕ) (post : List Block) (p : Ptr)
    → objects p (merge_next s post) ≡ objects (p + mcb_size + s) post
unfolding objects merge_next
objects-merge_next s [] p = refl
objects-merge_next s ((true, t) ∷ post) p = refl
objects-merge_next s ((false, t) ∷ post) p =
    let e : p + mcb_size + (s + mcb_size + t) ≡ p + mcb_size + s + mcb_size + t = omega arith in
    ap (λ k. objects k post) e

objects-freed :
    (pre : List Block) (s : ℕ) (post : List Block) (p : Ptr)
    → objects p (freed pre s post) ≡ objects p pre ++ objects (end_of p pre + mcb_size + s) post
unfolding objects freed
objects-freed [] s post p = objects-merge_next s post p
objects-freed ((true, t) ∷ []) s post p =
    ap (λ k. (p + mcb_size, t) ∷ k) (objects-merge_next s post (p + mcb_size + t))
objects-freed ((false, t) ∷ []) s post p =
    let e : p + mcb_size + (t + mcb_size + s) ≡ p + mcb_size + t + mcb_size + s = omega arith in
    objects-merge_next (t + mcb_size + s) post p ∙ ap (λ k. objects k post) e
objects-freed ((true, t) ∷ b ∷ pre) s post p =
    ap (λ k. (p + mcb_size, t) ∷ k) (objects-freed (b ∷ pre) s post (p + mcb_size + t))
objects-freed ((false, t) ∷ b ∷ pre) s post p = objects-freed (b ∷ pre) s post (p + mcb_size + t)

-- `free` of an object, where the block does not become the whole of its big block, takes exactly that
-- object from the objects of the big block, whether or not the block joins its neighbours, and every
-- other object keeps its address and its size.
pub free-objects :
    (pre : List Block) (h : Heap) (p s : ℕ) (post : List Block)
    → p ≢ null
    → Chain h null p (pre ++ ((true, s) ∷ post))
    → end_of p (pre ++ ((true, s) ∷ post)) < size_mod
    → is_whole (freed pre s post) ≡ false
    → (h' : Heap) × (bs : List Block) × (xs : List Object) × (ys : List Object) × (free
          (end_of p pre + mcb_size)
          h
        ≡ some (tt, h'))
      × Chain h' null p bs
      × (objects p (pre ++ ((true, s) ∷ post)) ≡ xs ++ ((end_of p pre + mcb_size, s) ∷ ys))
      × (objects p bs ≡ xs ++ ys)
unfolding objects
free-objects pre h p s post ne c w part =
    let (h', e, c', o) = free-freed pre h p s post ne c w part in
    (
      h',
      freed pre s post,
      objects p pre,
      objects (end_of p pre + mcb_size + s) post,
      e,
      c',
      objects-append pre ((true, s) ∷ post) p,
      objects-freed pre s post p,
    )

-- No two free blocks stand side by side.
unfoldable pub is_joined : List Block → Bool
is_joined [] = true
is_joined ((true, s) ∷ bs) = is_joined bs
is_joined ((false, s) ∷ []) = true
is_joined ((false, s) ∷ (false, t) ∷ bs) = false
is_joined ((false, s) ∷ (true, t) ∷ bs) = is_joined bs

is_joined-merge_next :
    (s : ℕ) (post : List Block) → is_joined post ≡ true → is_joined (merge_next s post) ≡ true
unfolding is_joined merge_next
is_joined-merge_next s [] j = refl
is_joined-merge_next s ((true, t) ∷ post) j = j
is_joined-merge_next s ((false, t) ∷ []) j = refl
is_joined-merge_next s ((false, t) ∷ (true, y) ∷ post) j = j
is_joined-merge_next s ((false, t) ∷ (false, y) ∷ post) j = j

is_joined-freed :
    (pre : List Block) (s : ℕ) (post : List Block)
    → is_joined (pre ++ ((true, s) ∷ post)) ≡ true
    → is_joined (freed pre s post) ≡ true
unfolding is_joined freed
is_joined-freed [] s post j = is_joined-merge_next s post j
is_joined-freed ((true, t) ∷ []) s post j = is_joined-merge_next s post j
is_joined-freed ((false, t) ∷ []) s post j = is_joined-merge_next (t + mcb_size + s) post j
is_joined-freed ((true, t) ∷ b ∷ pre) s post j = is_joined-freed (b ∷ pre) s post j
is_joined-freed ((false, t) ∷ (true, x) ∷ []) s post j = is_joined-merge_next s post j
is_joined-freed ((false, t) ∷ (true, x) ∷ b ∷ pre) s post j = is_joined-freed (b ∷ pre) s post j
is_joined-freed ((false, t) ∷ (false, x) ∷ pre) s post j = cc

-- A big block with no two free blocks side by side stays so: after a `free` where the block does not
-- become the whole of the big block, its memory holds a well linked chain in which no free block has
-- a free neighbour.
pub free-is_joined :
    (pre : List Block) (h : Heap) (p s : ℕ) (post : List Block)
    → p ≢ null
    → Chain h null p (pre ++ ((true, s) ∷ post))
    → end_of p (pre ++ ((true, s) ∷ post)) < size_mod
    → is_whole (freed pre s post) ≡ false
    → is_joined (pre ++ ((true, s) ∷ post)) ≡ true
    → (h' : Heap) × (bs : List Block) × (free (end_of p pre + mcb_size) h ≡ some (tt, h'))
      × Chain h' null p bs
      × (is_joined bs ≡ true)
free-is_joined pre h p s post ne c w part j =
    let (h', e, c', o) = free-freed pre h p s post ne c w part in
    (h', freed pre s post, e, c', is_joined-freed pre s post j)
