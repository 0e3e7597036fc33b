-- ===== src/Memory/Frames.antt =====
-- kernel/src/physicalmemory.cpp: the free page frames, on a stack that grows downwards from
-- 0xFFC00000. The stack lies in page frames itself, which are given out when nothing else is left.
pub mod Stack
pub mod Bag
pub mod Usable
use inwox.Base.{
  ℕ, zero, suc, ◌+◌, ◌-◌, ◌*◌, ◌/◌, ◌%◌, ◌^◌, ◌≤◌, ◌<◌, min, ◌≡◌, refl, sym, ap, ◌∙◌, ◌≢◌, ◌↔◌, ◌⊎◌,
  inl, inr, Bool, true, false, not, ◌&&◌, ◌||◌, Option, none, some, List, [], ◌∷◌, ◌++◌, map,
  append-nil, append_assoc, arith, ltb, leb, ◌==◌, ==_iff, if◌then◌else◌, Bool-cases, Option-cases,
  length, get_elem?, set, take, drop, replicate, All, length-append, length-replicate, length-set,
  Bytes, ◌>>=◌,
}
use inwox.Memory.Paging.{page_size, Paging, Protection, map_at, unmap, get_physical_address}

abbrev pub stack_base : ℕ
stack_base = 0xFFC00000

abbrev pub address_mod : ℕ
address_mod = 2 ^ 32

-- `words k` is the word `stack[-k]`; `used` and `left` are the variables stackUsed and stackLeft.
pub record Frames : Type 0 where
  pub words : ℕ → ℕ
  pub used : ℕ
  pub left : ℕ
  pub paging : Paging

abbrev pub read_write : Protection
read_write = record { readable = true; writable = true; executable = false }

-- The kernel's address space is 0, and the lock is held, so that no page table can be made.
unfoldable pub push_page_frame : ℕ → Frames → Option Frames
push_page_frame p f =
    if f.left == 0
    then (map_at 0
          ((stack_base + address_mod - (f.used * 4) % address_mod - page_size) % address_mod) p
          read_write none f.paging
        >>= λ (_, m). some (record f { left = f.left + 1024; paging = m }))
    else some (record f {
      words = λ k. if k == f.used + 1 then p else f.words k;
      used = f.used + 1;
      left = f.left - 1;
    })

-- The frame of the last page of the stack, which is empty then.
unfoldable pub pop_stack_page : Frames → Option (ℕ × Frames)
pop_stack_page f =
    let v = (stack_base + address_mod - (f.left * 4) % address_mod) % address_mod in
    get_physical_address 0 v f.paging >>= λ p.
    unmap 0 v none f.paging >>= λ (_, m). some (p, record f { left = f.left - 1024; paging = m })

unfoldable pub pop_page_frame : Frames → Option (ℕ × Frames)
pop_page_frame f =
    if f.used == 0
    then if ltb 0 f.left then pop_stack_page f else some (0, f)
    else some (f.words f.used, record f { used = f.used - 1; left = f.left + 1 })
