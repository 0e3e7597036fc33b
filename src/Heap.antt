-- ===== src/Heap.antt =====
-- libc/src/stdlib/malloc.c, malloc.h and free.c: the heap as memory control blocks at addresses.
-- A size_t is 32 bits wide (the i686 target); a control block is four such words, 16 bytes.
pub mod Chain
pub mod Split
pub mod Search
pub mod Bigs
pub mod Serve
pub mod Live
pub mod Join
pub mod Freed
pub mod Release
pub mod Removed
pub mod Calloc
use inwox.Base.{
  ℕ, zero, suc, ◌+◌, ◌-◌, ◌*◌, ◌/◌, ◌%◌, ◌^◌, ◌≤◌, ◌<◌, min, ◌≡◌, refl, sym, ap, ◌∙◌, ◌≢◌, ◌↔◌, ◌⊎◌,
  inl, inr, Bool, true, false, not, ◌&&◌, ◌||◌, Option, none, some, List, [], ◌∷◌, ◌++◌, map,
  append-nil, append_assoc, arith, ltb, leb, ◌==◌, ==_iff, if◌then◌else◌, Bool-cases, Option-cases,
  length, get_elem?, set, take, drop, replicate, All, length-append, length-replicate, length-set,
  Bytes,
}

abbrev pub Ptr : Type 0
Ptr = ℕ

abbrev pub null : Ptr
null = 0

pub record Mcb : Type 0 where
  pub magic : ℕ
  pub size : ℕ
  pub prev : Ptr
  pub next : Ptr

abbrev pub mcb : ℕ → ℕ → Ptr → Ptr → Mcb
mcb m s p n = record { magic = m; size = s; prev = p; next = n }

abbrev pub magic_big : ℕ
magic_big = 0xC001C0DE

abbrev pub magic_free : ℕ
magic_free = 0xBEEFBEEF

abbrev pub magic_used : ℕ
magic_used = 0xDEADBEEF

abbrev pub magic_end : ℕ
magic_end = 0xDEADDEAD

-- sizeof(Mem_Ctrl_Blk), alignof(max_align_t) and PAGESIZE.
abbrev pub mcb_size : ℕ
mcb_size = 16

abbrev pub max_align : ℕ
max_align = 16

abbrev pub page_size : ℕ
page_size = 0x1000

abbrev pub size_mod : ℕ
size_mod = 2 ^ 32

-- ALIGN_UP for an alignment that is a power of two: `& ~(alignment - 1)` clears the low bits.
unfoldable pub align_up : ℕ → ℕ → ℕ
align_up value alignment =
    ((value + size_mod - 1) % size_mod / alignment * alignment + alignment) % size_mod

-- Memory: which addresses are mapped, and the control block that the words at an address form.
pub record Heap : Type 0 where
  pub mapped : Ptr → Bool
  pub cell : Ptr → Mcb

-- `none` is an access to memory that is not mapped, or a loop that is out of rounds.
abbrev pub M : Type 0 → Type 0
M A = Heap → Option (A × Heap)

abbrev pub pure : {A : Type 0} → A → M A
pure a h = some (a, h)

abbrev pub and_then : {A B : Type 0} → Option (A × Heap) → (A → M B) → Option (B × Heap)
and_then none f = none
and_then (some (a, h)) f = f a h

infixl 5 ◌>>=◌ ◌>>◌
abbrev pub ◌>>=◌ : {A B : Type 0} → M A → (A → M B) → M B
m >>= f = λ h. and_then (m h) f

abbrev pub ◌>>◌ : {B : Type 0} → M (Unit {0}) → M B → M B
m >> k = m >>= λ _. k

unfoldable pub load : Ptr → M Mcb
load p h = if h.mapped p then some (h.cell p, h) else none

-- An assignment to fields of the control block at `p`.
unfoldable pub modify : Ptr → (Mcb → Mcb) → M (Unit {0})
modify p f h =
    if h.mapped p
    then some (tt, record h { cell = λ a. if a == p then f (h.cell p) else h.cell a })
    else none

abbrev pub set_magic : ℕ → Mcb → Mcb
set_magic m b = record b { magic = m }

abbrev pub set_size : ℕ → Mcb → Mcb
set_size s b = record b { size = s }

abbrev pub set_prev : Ptr → Mcb → Mcb
set_prev p b = record b { prev = p }

abbrev pub set_next : Ptr → Mcb → Mcb
set_next n b = record b { next = n }

-- `mapMemory(size)`: the address that the kernel gives for that size, and `null` (MAP_FAILED) where
-- it has none. The kernel is not part of this library, so its answers are a parameter.
abbrev pub Mapper : Type 0
Mapper = ℕ → Ptr

unfoldable pub map_memory : Mapper → ℕ → M Ptr
map_memory answer size h =
    let p = answer size in
    some (
      p,
      if p == null
          then h
          else record h { mapped = λ a. (leb p a && ltb a (p + size)) || h.mapped a },
    )

-- `unmapMemory(addr, size)`.
unfoldable pub unmap_memory : Ptr → ℕ → M (Unit {0})
unmap_memory p size h =
    some (tt, record h { mapped = λ a. not (leb p a && ltb a (p + size)) && h.mapped a })

-- `assert` ends the program where its condition fails.
unfoldable pub assert : Bool → M (Unit {0})
assert true = pure tt
assert false = λ _. none

-- The new big block is linked behind `last`. `size` wraps as the C code computes it.
unfoldable pub allocate_big_block : Mapper → Ptr → ℕ → M Ptr
allocate_big_block answer last request = do
  l ← load last
  assert (l.magic == magic_big)
  let size = align_up ((request + 3 * mcb_size) % size_mod) page_size
  big ← map_memory answer size
  let block = big + mcb_size
  let end_block = big + size - mcb_size
  modify big (λ _. mcb magic_big size last null)
  modify last (set_next big)
  modify block (λ _. mcb magic_free ((size + size_mod - 3 * mcb_size) % size_mod) null end_block)
  modify end_block (λ _. mcb magic_end 0 block null)
  pure big

unfoldable pub unify_blocks : Ptr → Ptr → M Ptr
unify_blocks first second = do
  s ← load second
  modify first (set_next s.next)
  modify first (λ f. record f { size = (f.size + mcb_size + s.size) % size_mod })
  modify s.next (set_prev first)
  pure first

unfoldable pub split_block : Ptr → ℕ → M (Unit {0})
split_block block size = do
  b ← load block
  let new_block = block + mcb_size + size
  modify new_block
      (λ _. mcb magic_free ((b.size + 2 * size_mod - mcb_size - size) % size_mod) block b.next)
  modify block (set_size size)
  modify b.next (set_prev new_block)
  modify block (set_next new_block)

-- What `malloc` does with a block that is large enough.
unfoldable pub take_block : Ptr → ℕ → ℕ → ℕ → M Ptr
take_block block block_size size total = do
  if ltb total block_size then split_block block size else pure tt
  modify block (set_magic magic_used)
  pure (block + mcb_size)

-- The loop of `malloc`, on the rounds left.
unfoldable pub malloc_loop : Mapper → ℕ → (size total big block : ℕ) → M Ptr
malloc_loop answer zero size total big block = λ _. none
malloc_loop answer (suc fuel) size total big block = load block >>= λ b.
    let along = malloc_loop answer fuel size total big b.next in
    let grow = allocate_big_block answer big size >>= λ new.
    let entered = malloc_loop answer fuel size total new (new + mcb_size) in
    if new == null then pure null else entered in
    let leave = load big >>= λ bb.
    let entered = malloc_loop answer fuel size total bb.next (bb.next + mcb_size) in
    if not (bb.next == null) then entered else grow in
    if b.magic == magic_free
    then (if leb size b.size then take_block block b.size size total else along)
    else if b.magic == magic_used
    then along
    else if b.magic == magic_end
    then leave
    else pure null

unfoldable pub round_up : ℕ → ℕ
unfolding align_up
round_up size = align_up (if size == 0 then 1 else size) max_align

-- `first` is `firstBigBlock`.
unfoldable pub malloc : Mapper → ℕ → Ptr → ℕ → M Ptr
malloc answer fuel first size =
    let aligned = round_up size in
    malloc_loop answer fuel aligned ((mcb_size + aligned) % size_mod) first (first + mcb_size)

-- `if (bigBlock->prev) bigBlock->prev->next = …`: the write is left out at `null`.
unfoldable pub modify_unless_null : Ptr → (Mcb → Mcb) → M (Unit {0})
modify_unless_null p f = if p == null then pure tt else modify p f

-- The big block is unlinked, and its memory goes back to the kernel.
unfoldable pub give_back : Ptr → M (Unit {0})
give_back big = do
  bb ← load big
  modify_unless_null bb.prev (set_next bb.next)
  modify_unless_null bb.next (set_prev bb.prev)
  unmap_memory big bb.size

-- That is done where the block fills its big block.
unfoldable pub release : Ptr → M (Unit {0})
release block = load block >>= λ b.
    if not (b.prev == null)
    then pure tt
    else (load b.next >>= λ n.
        if n.magic == magic_end then give_back (block - mcb_size) else pure tt)

unfoldable pub unify_back : Ptr → M Ptr
unify_back block = load block >>= λ b.
    if b.prev == null
    then pure block
    else (load b.prev >>= λ p.
        if p.magic == magic_free then unify_blocks b.prev block else pure block)

unfoldable pub unify_on : Ptr → M Ptr
unify_on block = do
  b ← load block
  n ← load b.next
  if n.magic == magic_free then unify_blocks block b.next else pure block

-- `free` up to the release: the block becomes free and is joined with free neighbours.
unfoldable pub join : Ptr → M Ptr
join block = do modify block (set_magic magic_free); joined ← unify_back block; unify_on joined

unfoldable pub free : Ptr → M (Unit {0})
free addr = if addr == null then pure tt else (join (addr - mcb_size) >>= release)
