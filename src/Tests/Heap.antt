-- ===== src/Tests/Heap.antt =====
-- A small heap, and the theorems on `malloc` and `free` at it.
use inwox.Base.{
  ◌≡◌, refl, inl, true, false, ◌&&◌, some, List, [], ◌∷◌, ◌++◌, arith, ltb, leb, ◌==◌,
  if◌then◌else◌,
}
use inwox.Heap.{
  Ptr, null, Mcb, mcb, Heap, magic_big, magic_free, magic_used, magic_end, Mapper, round_up, load,
  modify, take_block, split_block, malloc_loop, malloc, free,
}
use inwox.Heap.Chain.{Block, Chain, SameOutside}
use inwox.Heap.Bigs.{Big, IsBig, IsHeap, Spares}
use inwox.Heap.Search.{any_fits}
use inwox.Heap.Serve.{any_big_fits, serve, serve_address, malloc-serve}
use inwox.Heap.Live.{Object, objects, live, Adds, malloc-Adds, round_up_wraps}
use inwox.Heap.Freed.{freed}
use inwox.Heap.Join.{merge_next}
use inwox.Heap.Release.{is_whole, free-freed}
use inwox.Heap.Removed.{is_joined, free-objects, free-is_joined}

abbrev cells_at : List (Ptr × Mcb) → Ptr → Mcb
cells_at [] a = mcb 0 0 0 0
cells_at ((p, c) ∷ cells) a = if a == p then c else cells_at cells a

-- The static big block at 0x1000, and one at 0x2000 with an object of 32 bytes, a free block of 64
-- bytes and an object of 3920.
abbrev small : Heap
small = record {
  mapped = λ a. leb 0x1000 a && ltb a 0x3000;
  cell = cells_at (
      (0x1000, mcb magic_big 32 null 0x2000)
      ∷ (0x1010, mcb magic_end 0 null null)
      ∷ (0x2000, mcb magic_big 0x1000 0x1000 null)
      ∷ (0x2010, mcb magic_used 32 null 0x2040)
      ∷ (0x2040, mcb magic_free 64 0x2010 0x2090)
      ∷ (0x2090, mcb magic_used 3920 0x2040 0x2ff0)
      ∷ (0x2ff0, mcb magic_end 0 0x2090 null)
      ∷ []);
}

abbrev blocks : List Block
blocks = (true, 32) ∷ (false, 64) ∷ (true, 3920) ∷ []

abbrev bigs : List Big
bigs = (0x1000, []) ∷ (0x2000, blocks) ∷ []

-- The kernel has no more memory.
abbrev empty_kernel : Mapper
empty_kernel size = null

blocks-Chain : Chain small null 0x2010 blocks
blocks-Chain = ((refl, refl), ((refl, refl), ((refl, refl), (refl, refl))))

front-IsBig : IsBig small null 0x2000 0x1000 []
front-IsBig = record {
  not_null = omega arith;
  cell = (refl, refl);
  chain = (refl, refl);
  mapped = λ a lo hi. ground arith;
  below = omega arith;
}

back-IsBig : IsBig small 0x1000 null 0x2000 blocks
back-IsBig = record {
  not_null = omega arith;
  cell = (refl, refl);
  chain = blocks-Chain;
  mapped = λ a lo hi. ground arith;
  below = omega arith;
}

small-IsHeap : IsHeap small 0x1000 bigs
small-IsHeap = record {
  starts = refl;
  not_null = omega arith;
  chain = (front-IsBig, (back-IsBig, tt));
  apart = ((inl (omega arith), tt), (tt, tt));
}

malloc_runs :
    (h' : Heap) × (malloc empty_kernel 9 0x1000 20 small ≡ some (0x2050, h'))
    × (h'.cell 0x2040 ≡ mcb magic_used 32 0x2010 0x2070)
    × (h'.cell 0x2070 ≡ mcb magic_free 16 0x2040 0x2090)
unfolding malloc malloc_loop round_up load modify take_block split_block
malloc_runs = (_, refl, refl, refl)

malloc-serve_example :
    (h' : Heap) × (malloc empty_kernel 9 0x1000 20 small
      ≡ some (serve_address (round_up 20) bigs, h'))
    × IsHeap h' 0x1000 (serve (round_up 20) bigs)
    × ((a : Ptr) → h'.mapped a ≡ small.mapped a)
    × Spares bigs small h'
unfolding any_big_fits any_fits round_up
malloc-serve_example =
    malloc-serve empty_kernel 9 0x1000 20 small bigs small-IsHeap refl (omega arith) (omega arith)

malloc-Adds_example :
    (p : Ptr) × (h' : Heap) × (bigs' : List Big) × (malloc empty_kernel 9 0x1000 20 small
      ≡ some (p, h'))
    × IsHeap h' 0x1000 bigs'
    × Adds p (round_up 20) (live bigs) (live bigs')
unfolding any_big_fits any_fits round_up
malloc-Adds_example =
    malloc-Adds empty_kernel 9 0x1000 20 small bigs small-IsHeap refl (omega arith) (omega arith)

-- The last object is freed: its block joins the free one in front of it.
abbrev front : List Block
front = (true, 32) ∷ (false, 64) ∷ []

free-freed_example :
    (h' : Heap) × (free 0x20a0 small ≡ some (tt, h'))
    × Chain h' null 0x2010 (freed front 3920 [])
    × SameOutside 0x2010 0x2ff0 small h'
unfolding is_whole freed merge_next
free-freed_example =
    free-freed front small 0x2010 3920 [] (omega arith) blocks-Chain (omega arith) refl

free-objects_example :
    (h' : Heap) × (bs : List Block) × (xs : List Object) × (ys : List Object) × (free 0x20a0 small
      ≡ some (tt, h'))
    × Chain h' null 0x2010 bs
    × (objects 0x2010 blocks ≡ xs ++ ((0x20a0, 3920) ∷ ys))
    × (objects 0x2010 bs ≡ xs ++ ys)
unfolding is_whole freed merge_next
free-objects_example =
    free-objects front small 0x2010 3920 [] (omega arith) blocks-Chain (omega arith) refl

free-is_joined_example :
    (h' : Heap) × (bs : List Block) × (free 0x20a0 small ≡ some (tt, h'))
    × Chain h' null 0x2010 bs
    × (is_joined bs ≡ true)
unfolding is_whole freed merge_next is_joined
free-is_joined_example =
    free-is_joined front small 0x2010 3920 [] (omega arith) blocks-Chain (omega arith) refl refl

round_up_wraps_example : round_up 0xffff_fff8 ≡ 0
round_up_wraps_example = round_up_wraps 0xffff_fff8 (omega arith) (omega arith)
