-- ===== src/Heap/Release.antt =====
-- The last part of `free`: a big block goes back to the kernel only if one free block fills it.
use inwox.Base.{
  ℕ, ◌+◌, ◌-◌, ◌<◌, ◌≡◌, refl, ◌≢◌, Bool, true, false, some, List, [], ◌∷◌, ◌++◌, arith, ◌==◌,
  if◌then◌else◌,
}
use inwox.Heap.{Ptr, null, mcb, Heap, mcb_size, size_mod, give_back, release, join, free}
use inwox.Heap.Chain.{Block, magic_of, IsCell, Chain, end_of, SameOutside, load_lem}
use inwox.Heap.Join.{merge_next, Leaves}
use inwox.Heap.Freed.{freed, joined, join_first, join_behind}

-- A chain that is one free block.
unfoldable pub is_whole : List Block → Bool
is_whole ((false, s) ∷ []) = true
is_whole _ = false

release_kept :
    (h : Heap) (p : Ptr) (x : ℕ) (b : Block) (bs : List Block)
    → Chain h null p ((false, x) ∷ b ∷ bs)
    → release p h ≡ some (tt, h)
unfolding release
release_kept h p x (true, t) bs c =
    rw (load_lem h p c.0.0, c.0.1, load_lem h (p + mcb_size + x) c.1.0.0, c.1.0.1)
release_kept h p x (false, t) bs c =
    rw (load_lem h p c.0.0, c.0.1, load_lem h (p + mcb_size + x) c.1.0.0, c.1.0.1)

release_given :
    (h : Heap) (p : Ptr) (x : ℕ)
    → Chain h null p ((false, x) ∷ [])
    → release p h ≡ give_back (p - mcb_size) h
unfolding release
release_given h p x c = rw (load_lem h p c.0.0, c.0.1, load_lem h (p + mcb_size + x) c.1.0, c.1.1)

release_inner :
    (h : Heap) (prv p nxt x : ℕ)
    → prv ≢ null
    → IsCell h p (mcb (magic_of false) x prv nxt)
    → release p h ≡ some (tt, h)
unfolding release
release_inner h prv p nxt x ne c =
    let not_null : (prv == null) ≡ false = ground arith in rw (load_lem h p c.0, c.1, not_null)

-- At the front of a big block.
release_first :
    (h : Heap) (p x : ℕ) (post : List Block)
    → Chain h null p (merge_next x post)
    → release p h
      ≡ (if is_whole (merge_next x post) then give_back (p - mcb_size) h else some (tt, h))
unfolding merge_next is_whole
release_first h p x [] c = release_given h p x c
release_first h p x ((true, t) ∷ post) c = release_kept h p x (true, t) post c
release_first h p x ((false, t) ∷ []) c = release_given h p (x + mcb_size + t) c
release_first h p x ((false, t) ∷ b ∷ post) c = release_kept h p (x + mcb_size + t) b post c

release_merged :
    (h : Heap) (prv p x : ℕ) (post : List Block)
    → prv ≢ null
    → Chain h prv p (merge_next x post)
    → release p h ≡ some (tt, h)
unfolding merge_next
release_merged h prv p x [] ne c = release_inner h prv p (p + mcb_size + x) x ne c.0
release_merged h prv p x ((true, t) ∷ post) ne c = release_inner h prv p (p + mcb_size + x) x ne c.0
release_merged h prv p x ((false, t) ∷ post) ne c =
    release_inner h prv p (p + mcb_size + (x + mcb_size + t)) (x + mcb_size + t) ne c.0

release_behind :
    (pre : List Block) (b : Block) (h : Heap) (prv p s : ℕ) (post : List Block)
    → p ≢ null
    → prv ≢ null
    → Chain h prv p (freed (b ∷ pre) s post)
    → release (joined p (b ∷ pre)) h ≡ some (tt, h)
unfolding freed joined
release_behind [] (true, t) h prv p s post ne ne' c =
    release_merged h p (p + mcb_size + t) s post ne c.1
release_behind [] (false, t) h prv p s post ne ne' c =
    release_merged h prv p (t + mcb_size + s) post ne' c
release_behind (b' ∷ pre) (u, t) h prv p s post ne ne' c =
    release_behind pre b' h p (p + mcb_size + t) s post (omega arith) ne c.1

more_than_one :
    (pre : List Block) (b : Block) (t s : ℕ) (post : List Block)
    → is_whole ((false, t) ∷ freed (b ∷ pre) s post) ≡ false
unfolding is_whole freed merge_next
more_than_one [] (true, x) t s post = refl
more_than_one [] (false, x) t s [] = refl
more_than_one [] (false, x) t s ((true, y) ∷ post) = refl
more_than_one [] (false, x) t s ((false, y) ∷ post) = refl
more_than_one (b' ∷ pre) (u, x) t s post = refl

-- After joining, the big block is given back exactly where it is one free block.
pub release_lem :
    (pre : List Block) (h : Heap) (p s : ℕ) (post : List Block)
    → p ≢ null
    → Chain h null p (freed pre s post)
    → release (joined p pre) h
      ≡ (if is_whole (freed pre s post) then give_back (p - mcb_size) h else some (tt, h))
unfolding freed joined is_whole
release_lem [] h p s post ne c = release_first h p s post c
release_lem ((true, t) ∷ []) h p s post ne c = release_merged h p (p + mcb_size + t) s post ne c.1
release_lem ((false, t) ∷ []) h p s post ne c = release_first h p (t + mcb_size + s) post c
release_lem ((true, t) ∷ b ∷ pre) h p s post ne c =
    release_behind pre b h p (p + mcb_size + t) s post (omega arith) ne c.1
release_lem ((false, t) ∷ b ∷ pre) h p s post ne c =
    rw (more_than_one pre b t s post)
      (release_behind pre b h p (p + mcb_size + t) s post (omega arith) ne c.1)

-- Joining, for a block anywhere in a big block.
join_any :
    (pre : List Block) (h : Heap) (p s : ℕ) (post : List Block)
    → p ≢ null
    → Chain h null p (pre ++ ((true, s) ∷ post))
    → end_of p (pre ++ ((true, s) ∷ post)) < size_mod
    → Leaves
        (joined p pre)
        null
        p
        (freed pre s post)
        (end_of p (pre ++ ((true, s) ∷ post)))
        h
        (join (end_of p pre) h)
unfolding freed joined
join_any [] h p s post ne c w = join_first h p s post c w
join_any ((u, t) ∷ pre) h p s post ne c w = join_behind pre (u, t) h null p s post ne c w

-- `free` of a block in use, anywhere in a big block whose first block stands at `p`, where the
-- result does not fill the big block: the call ends, the block has become free and one with the
-- free neighbours that it had, the chain is well linked, and nothing outside the chain changes.
pub free-freed :
    (pre : List Block) (h : Heap) (p s : ℕ) (post : List Block)
    → p ≢ null
    → Chain h null p (pre ++ ((true, s) ∷ post))
    → end_of p (pre ++ ((true, s) ∷ post)) < size_mod
    → is_whole (freed pre s post) ≡ false
    → (h' : Heap) × (free (end_of p pre + mcb_size) h ≡ some (tt, h'))
      × Chain h' null p (freed pre s post)
      × SameOutside p (end_of p (pre ++ ((true, s) ∷ post))) h h'
unfolding free
free-freed pre h p s post ne c w part =
    let (h', e, c', o) = join_any pre h p s post ne c w in
    let back : end_of p pre + mcb_size - mcb_size ≡ end_of p pre = omega arith in
    let not_null : (end_of p pre + mcb_size == null) ≡ false = ground arith in
    (h', rw (not_null, back, e, release_lem pre h' p s post ne c', part), c', o)
