-- ===== src/Memory/Frames/Usable/Ranges.antt =====
-- The pages that are free at the start, by the ranges of addresses that are in use.
use inwox.Base.{
  ℕ, zero, suc, ◌+◌, ◌-◌, ◌*◌, ◌/◌, ◌%◌, ◌^◌, ◌≤◌, ◌<◌, ◌≡◌, refl, ap, ◌∙◌, inl, inr, Bool, true,
  false, not, ◌&&◌, ◌||◌, some, List, [], ◌∷◌, ◌++◌, arith, ltb, leb, ◌==◌, if◌then◌else◌,
  Bool-cases, length, All, Bytes,
}
use mathlib.Core.List.{Perm, perm_middle}
use mathlib.Core.List.Perm
use inwox.Memory.Paging.{page_size}
use inwox.Memory.Frames.{address_mod, Frames}
use inwox.Memory.Frames.Bag.{Bag}
use inwox.Memory.Frames.Usable.Collected.{
  pages_from, keep_free, available_pages, put_all, initialize-put_all,
}
use inwox.Memory.Frames.Usable.{
  Layout, MmapEntry, in_range, is_used_by_kernel, is_used_by_module, is_used_by_multiboot, is_used,
  is_available, page_count, initialize,
}

-- What is in use, from an address to another: the modules, the bootstrap code, the kernel, the
-- address 0, and the pages of the memory map and of the list of modules.
unfoldable pub used_ranges : Layout → List (ℕ × ℕ)
used_ranges l =
    l.modules
    ++ ((l.bootstrap_begin, l.bootstrap_end)
        ∷ ((l.kernel_begin, l.kernel_end)
            ∷ ((0, 1)
                ∷ ((l.mmap_addr - l.mmap_addr % 4096, (l.mmap_addr + l.mmap_length) % 2 ^ 32)
                    ∷ ((
                      l.mods_addr - l.mods_addr % 4096,
                      (l.mods_addr + 16 * l.mods_count) % 2 ^ 32,
                    )
                        ∷ [])))))

unfoldable pub is_outside : List (ℕ × ℕ) → ℕ → Bool
is_outside [] a = true
is_outside ((start, end) ∷ rest) a = (ltb a start || leb end a) && is_outside rest a

unfoldable pub keep_outside : List (ℕ × ℕ) → Bytes → Bytes
keep_outside rs [] = []
keep_outside rs (a ∷ rest) =
    if is_outside rs a then a ∷ keep_outside rs rest else keep_outside rs rest

-- The addresses of `n` pages one behind the other.
unfoldable pub pages_at : ℕ → ℕ → Bytes
pages_at zero a = []
pages_at (suc n) a = a ∷ pages_at n (a + 4096)

-- The entries of kind 1 that end below 4 GB; a page that they begin is theirs.
unfoldable pub memory_pages : List MmapEntry → Bytes
memory_pages [] = []
memory_pages (e ∷ es) =
    if e.kind == 1 && ltb (e.base_addr + e.length) (2 ^ 32)
    then pages_at ((e.length + 4095) / 4096) e.base_addr ++ memory_pages es
    else memory_pages es

abbrev pub IsEntry : MmapEntry → Type 0
IsEntry e = (e.base_addr % page_size ≡ 0) × (e.base_addr + e.length < 2 ^ 64)

is_outside-append :
    (rs qs : List (ℕ × ℕ)) (a : ℕ) → is_outside (rs ++ qs) a ≡ (is_outside rs a && is_outside qs a)
unfolding is_outside
is_outside-append [] qs a = refl
is_outside-append ((start, end) ∷ rs) qs a =
    let ih = is_outside-append rs qs a in rw ih (ground arith)

is_used_by_module-is_outside :
    (ms : List (ℕ × ℕ)) (a : ℕ) → is_used_by_module ms a ≡ not (is_outside ms a)
unfolding is_used_by_module is_outside in_range
is_used_by_module-is_outside [] a = refl
is_used_by_module-is_outside ((start, end) ∷ ms) a =
    let ih = is_used_by_module-is_outside ms a in rw ih (ground arith)

in_range-not : (a lo hi : ℕ) → in_range a lo hi ≡ not (ltb a lo || leb hi a)
unfolding in_range
in_range-not a lo hi = ground arith

none_of :
    (m b1 b2 b3 b4 b5 : Bool)
    → (not m || (not b1 || not b2 || not b3) || (not b4 || not b5))
      ≡ not (m && (b1 && (b2 && (b3 && (b4 && (b5 && true))))))
none_of true true true true true true = refl
none_of true true true true true false = refl
none_of true true true true false b5 = refl
none_of true true true false b4 b5 = refl
none_of true true false b3 b4 b5 = refl
none_of true false b2 b3 b4 b5 = refl
none_of false b1 b2 b3 b4 b5 = refl

is_used-is_outside : (l : Layout) (a : ℕ) → is_used l a ≡ not (is_outside (used_ranges l) a)
unfolding is_used is_used_by_kernel is_used_by_multiboot used_ranges is_outside
is_used-is_outside l a =
    let start : (n : ℕ) → n / page_size * page_size ≡ n - n % 4096 = λ n. omega arith in
    let zero_address : (a == 0) ≡ not (ltb a 0 || leb 1 a) = ground arith in
    let entries : l.mods_count * 16 ≡ 16 * l.mods_count = omega arith in
    let mmap_start = l.mmap_addr - l.mmap_addr % 4096 in
    let mmap_end = (l.mmap_addr + l.mmap_length) % 2 ^ 32 in
    let mods_start = l.mods_addr - l.mods_addr % 4096 in
    let mods_end = (l.mods_addr + 16 * l.mods_count) % 2 ^ 32 in
    rw
      (
        is_used_by_module-is_outside l.modules a,
        is_outside-append l.modules (_ ∷ _) a,
        start l.mmap_addr,
        start l.mods_addr,
        entries,
        in_range-not a l.bootstrap_begin l.bootstrap_end,
        in_range-not a l.kernel_begin l.kernel_end,
        zero_address,
        in_range-not a mmap_start mmap_end,
        in_range-not a mods_start mods_end,
      )
      (none_of (is_outside l.modules a) (ltb a l.bootstrap_begin || leb l.bootstrap_end a)
        (ltb a l.kernel_begin || leb l.kernel_end a) (ltb a 0 || leb 1 a)
        (ltb a mmap_start || leb mmap_end a) (ltb a mods_start || leb mods_end a))

keep_free-keep_outside :
    (l : Layout) (ps : Bytes) → keep_free l ps ≡ keep_outside (used_ranges l) ps
unfolding keep_free keep_outside
keep_free-keep_outside l [] = refl
keep_free-keep_outside l (a ∷ ps) =
    let ih = keep_free-keep_outside l ps in
    rw (is_used-is_outside l a, ih)
      (elim (Bool-cases (is_outside (used_ranges l) a)) [ inl e ↦ rw e refl | inr e ↦ rw e refl ])

pages_from-pages_at : (n a : ℕ) → a + n * 4096 < address_mod + 4096 → pages_from n a ≡ pages_at n a
unfolding pages_from pages_at
pages_from-pages_at zero a h = refl
pages_from-pages_at (suc zero) a h = refl
pages_from-pages_at (suc (suc n)) a h =
    let low : (a + page_size) % address_mod ≡ a + 4096 = omega arith in
    rw low (ap (λ r. a ∷ r) (pages_from-pages_at (suc n) (a + 4096) (omega arith)))

available_pages-memory_pages :
    (es : List MmapEntry) → All IsEntry es → available_pages es ≡ memory_pages es
unfolding available_pages memory_pages is_available page_count
available_pages-memory_pages [] h = refl
available_pages-memory_pages (e ∷ es) h =
    let ih = available_pages-memory_pages es h.1 in
    let same : (e.kind == 1 && leb ((e.base_addr + e.length) % 2 ^ 64) (address_mod - 1))
        ≡ (e.kind == 1 && ltb (e.base_addr + e.length) (2 ^ 32)) =
      ground (arith, h.0.1) in
    rw (same, ih)
      (elim (Bool-cases (e.kind == 1 && ltb (e.base_addr + e.length) (2 ^ 32))) [
        | inl avail ↦
            let low : e.base_addr % address_mod ≡ e.base_addr = ground (arith, avail) in
            let n = (e.length + 4095) / 4096 in
            let fits : e.base_addr + n * 4096 < address_mod + 4096 = ground (arith, avail) in
            rw (avail, low)
              (ap (λ ps. ps ++ memory_pages es) (pages_from-pages_at n e.base_addr fits))
        | inr other ↦ rw other refl
      ])

put_all-append : (ps frames : Bytes) → Perm (put_all ps frames) (ps ++ frames)
unfolding put_all
put_all-append [] frames = Perm.refl frames
put_all-append (p ∷ ps) frames = Perm.trans (put_all-append ps (p ∷ frames)) (perm_middle ps frames)

-- With both flags set and a memory map of page-aligned entries below 2 ^ 64, `initialize` adds to
-- the bag the pages of the entries of kind 1 that end below 4 GB, those pages left out whose address
-- is in a range that is in use; each is added once for each entry it is in, as long as the bag then
-- has 2 ^ 20 frames at most.
pub initialize-Bag :
    (flags : ℕ) (l : Layout) (es : List MmapEntry) (f : Frames) (frames : Bytes)
    → Bag f frames
    → flags % 2 ≡ 1
    → (flags / 64) % 2 ≡ 1
    → All IsEntry es
    → let free = keep_outside (used_ranges l) (memory_pages es) in
      length free + length frames ≤ 2 ^ 20
      → (f' : Frames) × (initialize flags l es f ≡ some f') × Bag f' (free ++ frames)
initialize-Bag flags l es f frames b low high entries few =
    let free = keep_outside (used_ranges l) (memory_pages es) in
    let same : keep_free l (available_pages es) ≡ free =
      keep_free-keep_outside l (available_pages es)
      ∙ ap (keep_outside (used_ranges l)) (available_pages-memory_pages es entries) in
    let (f', e, b') =
      initialize-put_all flags l es f frames b low high (aligned es entries) (rw same few) in
    (
      f',
      e,
      record {
        entries = b'.entries;
        pages = b'.pages;
        stack = b'.stack;
        same = Perm.trans (Perm.symm (put_all-append free frames)) (rw same at b'.same);
      },
    )
  where
    aligned : (es : List MmapEntry) → All IsEntry es → All (λ e. e.base_addr % page_size ≡ 0) es
    aligned [] h = tt
    aligned (e ∷ es) h = (h.0.0, aligned es h.1)
