-- ===== src/Memory/Paging.antt =====
-- kernel/src/addressspace.cpp: page directories and page tables, which stand in one memory of page
-- frames. A page table is found by the frame in its directory's word. The kernel reaches it at
-- 0xFFC00000 + 4096 * pd, through the last word of its directory, which is the directory's own
-- frame: so for pd = 1023 the table is the directory. For another space the code maps the table for
-- a moment at 0xFF7FF000 in the kernel's; this mapping and its removal are not modelled.
pub mod Translate
pub mod NewTable
pub mod Entry
pub mod Mapped
use inwox.Base.{
  ℕ, zero, suc, ◌+◌, ◌-◌, ◌*◌, ◌/◌, ◌%◌, ◌^◌, ◌≤◌, ◌<◌, min, ◌≡◌, refl, sym, ap, ◌∙◌, ◌≢◌, ◌↔◌, ◌⊎◌,
  inl, inr, Bool, true, false, not, ◌&&◌, ◌||◌, Option, none, some, List, [], ◌∷◌, ◌++◌, map,
  append-nil, append_assoc, arith, ltb, leb, ◌==◌, ==_iff, if◌then◌else◌, Bool-cases, Option-cases,
  length, get_elem?, set, take, drop, replicate, All, length-append, length-replicate, length-set,
  Bytes, ◌>>=◌,
}

abbrev pub page_size : ℕ
page_size = 4096

-- Address spaces by number, and 0 is the kernel's; `spaces` is the list of the others. `page_dir`
-- gives the frame of a space's directory, `memory` the words of a frame.
pub record Paging : Type 0 where
  pub spaces : List ℕ
  pub page_dir : ℕ → ℕ
  pub memory : ℕ → ℕ → ℕ

-- The words of a space's directory.
abbrev pub directory : Paging → ℕ → ℕ → ℕ
directory m space = m.memory (m.page_dir space)

-- `none` is an assertion that fails, here and below.
unfoldable pub address_to_index : ℕ → Option (ℕ × ℕ)
address_to_index v = if v % page_size == 0 then some (v / 2 ^ 22, (v / 2 ^ 12) % 1024) else none

unfoldable pub index_to_address : ℕ → ℕ → Option ℕ
index_to_address pd pt =
    if leb pd 1023 && leb pt 1023 then some (pd * 2 ^ 22 + pt * 2 ^ 12) else none

abbrev pub page_present : ℕ
page_present = 1

abbrev pub page_writable : ℕ
page_writable = 2

abbrev pub page_user : ℕ
page_user = 4

-- The protection as its three bits.
pub record Protection : Type 0 where
  pub readable : Bool
  pub writable : Bool
  pub executable : Bool

unfoldable pub protection_to_flags : Protection → ℕ
protection_to_flags p = if p.writable then page_present + page_writable else page_present

unfoldable pub user_flag : ℕ → ℕ
user_flag space = if space == 0 then 0 else page_user

unfoldable pub set_word : (ℕ → ℕ) → ℕ → ℕ → ℕ → ℕ
set_word f i v j = if j == i then v else f j

unfoldable pub set_table : (ℕ → ℕ → ℕ) → ℕ → (ℕ → ℕ) → ℕ → ℕ → ℕ
set_table f a words b = if b == a then words else f b

-- The frame of a word of a directory or a table: its lower 12 bits are flags. A frame's address has
-- 0 there, and its | with flags is +.
unfoldable pub frame_of : ℕ → ℕ
frame_of word = word / page_size * page_size

unfoldable pub set_at : (ℕ → ℕ → ℕ) → ℕ → ℕ → ℕ → ℕ → ℕ → ℕ
set_at f a i word = set_table f a (set_word (f a) i word)

-- A new page table of the kernel is put in every directory.
unfoldable pub share : List ℕ → (ℕ → ℕ) → ℕ → ℕ → (ℕ → ℕ → ℕ) → ℕ → ℕ → ℕ
share [] dirs pd word d = d
share (s ∷ ss) dirs pd word d = share ss dirs pd word (set_at d (dirs s) pd word)

-- The directory's word, the cleared table, and the other directories.
unfoldable pub with_table : ℕ → ℕ → ℕ → Paging → Paging
with_table space pd frame m =
    let word = frame + (page_present + page_writable) in
    let d = set_at m.memory (m.page_dir space) pd (word + user_flag space) in
    let cleared = set_table d frame (λ _. 0) in
    record m { memory = if space == 0 then share m.spaces m.page_dir pd word cleared else cleared }

-- The page table is made if there is none, of the frame that `popPageFrame` returns; `frame` is
-- `none` where the lock of the free frames is held, and the call waits for ever.
unfoldable pub need_table : ℕ → ℕ → Option ℕ → Paging → Option Paging
need_table space pd none m = if directory m space pd == 0 then none else some m
need_table space pd (some frame) m =
    if directory m space pd == 0 then some (with_table space pd frame m) else some m

unfoldable pub set_entry : ℕ → ℕ → ℕ → ℕ → Paging → Paging
set_entry space pd pt word m =
    let a = frame_of (directory m space pd) in record m { memory = set_at m.memory a pt word }

unfoldable pub map_at_with_flags :
    (space pd pt physical flags : ℕ) → Option ℕ → Paging → Option (ℕ × Paging)
map_at_with_flags space pd pt physical flags frame m = need_table space pd frame m >>= λ m'.
    index_to_address pd pt >>= λ v. some (v, set_entry space pd pt (physical + flags) m')

unfoldable pub map_at :
    (space v physical : ℕ) → Protection → Option ℕ → Paging → Option (ℕ × Paging)
map_at space v physical p frame m = address_to_index v >>= λ (pd, pt).
    if physical % page_size == 0
    then map_at_with_flags space pd pt physical (protection_to_flags p + user_flag space) frame m
    else none

unfoldable pub unmap : (space v : ℕ) → Option ℕ → Paging → Option (ℕ × Paging)
unmap space v frame m = address_to_index v >>= λ (pd, pt). map_at_with_flags space pd pt 0 0 frame m

unfoldable pub get_physical_address : ℕ → ℕ → Paging → Option ℕ
get_physical_address space v m = address_to_index v >>= λ (pd, pt).
    if directory m space pd == 0
    then some 0
    else some (frame_of (m.memory (frame_of (directory m space pd)) pt))
