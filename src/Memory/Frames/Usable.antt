-- ===== src/Memory/Frames/Usable.antt =====
-- `PhysicalMemory::initialize`: which page frames are free at the start. The memory map and the list
-- of modules of the boot loader are lists here, and the mapping of the two is left out.
pub mod Collected
pub mod Ranges
use inwox.Base.{
  ℕ, zero, suc, ◌+◌, ◌-◌, ◌*◌, ◌/◌, ◌%◌, ◌^◌, ◌≤◌, ◌<◌, min, ◌≡◌, refl, sym, ap, ◌∙◌, ◌≢◌, ◌↔◌, ◌⊎◌,
  inl, inr, Bool, true, false, not, ◌&&◌, ◌||◌, Option, none, some, List, [], ◌∷◌, ◌++◌, map,
  append-nil, append_assoc, arith, ltb, leb, ◌==◌, ==_iff, if◌then◌else◌, Bool-cases, Option-cases,
  length, get_elem?, set, take, drop, replicate, All, length-append, length-replicate, length-set,
  Bytes, ◌>>=◌,
}
use inwox.Memory.Paging.{page_size}
use inwox.Memory.Frames.{address_mod, Frames, push_page_frame}

-- The symbols of the linker, and what the boot loader tells.
pub record Layout : Type 0 where
  pub bootstrap_begin : ℕ
  pub bootstrap_end : ℕ
  pub kernel_begin : ℕ
  pub kernel_end : ℕ
  pub modules : List (ℕ × ℕ)
  pub mmap_addr : ℕ
  pub mmap_length : ℕ
  pub mods_addr : ℕ
  pub mods_count : ℕ

pub record MmapEntry : Type 0 where
  pub base_addr : ℕ
  pub length : ℕ
  pub kind : ℕ

unfoldable pub in_range : ℕ → ℕ → ℕ → Bool
in_range a lo hi = leb lo a && ltb a hi

unfoldable pub is_used_by_kernel : Layout → ℕ → Bool
is_used_by_kernel l a =
    in_range a l.bootstrap_begin l.bootstrap_end || in_range a l.kernel_begin l.kernel_end || a == 0

unfoldable pub is_used_by_module : List (ℕ × ℕ) → ℕ → Bool
is_used_by_module [] a = false
is_used_by_module ((start, end) ∷ rest) a =
    if in_range a start end then true else is_used_by_module rest a

-- An entry of the list of modules has 16 bytes.
unfoldable pub is_used_by_multiboot : Layout → ℕ → Bool
is_used_by_multiboot l a =
    in_range a (l.mmap_addr / page_size * page_size) ((l.mmap_addr + l.mmap_length) % address_mod)
    || in_range a (l.mods_addr / page_size * page_size)
        ((l.mods_addr + l.mods_count * 16) % address_mod)

unfoldable pub is_used : Layout → ℕ → Bool
is_used l a = is_used_by_module l.modules a || is_used_by_kernel l a || is_used_by_multiboot l a

-- The loop over the pages of an entry from `a` on, on the pages left.
unfoldable pub push_region : Layout → ℕ → ℕ → Frames → Option Frames
push_region l zero a f = some f
push_region l (suc n) a f =
    if is_used l a
    then push_region l n ((a + page_size) % address_mod) f
    else (push_page_frame a f >>= push_region l n ((a + page_size) % address_mod))

abbrev pub available : ℕ
available = 1

unfoldable pub is_available : MmapEntry → Bool
is_available e = e.kind == available && leb ((e.base_addr + e.length) % 2 ^ 64) (address_mod - 1)

-- Pages that are begun count as pages.
unfoldable pub page_count : ℕ → ℕ
page_count n = (n + (page_size - 1)) / page_size

unfoldable pub push_entries : Layout → List MmapEntry → Frames → Option Frames
push_entries l [] f = some f
push_entries l (e ∷ es) f =
    if is_available e
    then (push_region l (page_count e.length) (e.base_addr % address_mod) f >>= push_entries l es)
    else push_entries l es f

-- Nothing is done when one of two flags, bits 0 and 6, is not set.
unfoldable pub initialize : ℕ → Layout → List MmapEntry → Frames → Option Frames
initialize flags l es f =
    if not (flags % 2 == 1)
    then some f
    else if not ((flags / 64) % 2 == 1)
    then some f
    else push_entries l es f
