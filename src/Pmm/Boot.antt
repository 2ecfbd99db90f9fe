-- ===== src/Pmm/Boot.antt =====
-- `pmm_init` of kernel/pmm.c: reading the Multiboot2 memory map that the boot loader left in memory
-- and building the bitmap from it. Memory is a function of the address; `kernel_end` and the
-- address of `g_bitmap` come from the linker and are arguments. A run that never ends (a tag of
-- size 0) or that divides by a zero entry size gives `none`.
pub mod Walk
pub mod Init
pub mod Reserve
use fobos_os.Base.{
  ℕ, zero, suc, ◌+◌, ◌-◌, ◌*◌, ◌/◌, ◌%◌, ◌^◌, Bool, true, false, not, ◌&&◌, Option, none, some, ltb,
  ◌==◌, if◌then◌else◌,
}
use fobos_os.Pmm.{Pmm, bitmap_size, page_size, give_page, mark_used}

abbrev pub Memory : Type 0
Memory = ℕ → ℕ

-- Little-endian reads.
abbrev pub read32 : Memory → ℕ → ℕ
read32 m a = m a + m (a + 1) * 2 ^ 8 + m (a + 2) * 2 ^ 16 + m (a + 3) * 2 ^ 24

abbrev pub read64 : Memory → ℕ → ℕ
read64 m a = read32 m a + read32 m (a + 4) * 2 ^ 32

-- `tag->type` and `tag->size`
abbrev pub tag_type : Memory → ℕ → ℕ
tag_type m tag = read32 m tag

abbrev pub tag_size : Memory → ℕ → ℕ
tag_size m tag = read32 m (tag + 4)

-- `(u8*)tag + ((tag->size + 7) & ~7u)`
abbrev pub next_tag : Memory → ℕ → ℕ
next_tag m tag = tag + (tag_size m tag + 7) % 2 ^ 32 / 8 * 8

-- `mm->entry_size`, the number of entries, and the address of the i-th
abbrev pub entry_size : Memory → ℕ → ℕ
entry_size m tag = read32 m (tag + 8)

abbrev pub entry_count : Memory → ℕ → ℕ
entry_count m tag = (tag_size m tag + (2 ^ 32 - 16)) % 2 ^ 32 / entry_size m tag

abbrev pub entry_at : Memory → ℕ → ℕ → ℕ
entry_at m tag i = tag + 16 + i * entry_size m tag % 2 ^ 32

-- The loop over the entries of one map, with the entries left.
pub each_entry : ℕ → ℕ → Memory → ℕ → (ℕ → Pmm → Pmm) → Pmm → Pmm
each_entry zero i m tag body s = s
each_entry (suc n) i m tag body s = each_entry n (i + 1) m tag body (body (entry_at m tag i) s)

-- One round of the walk: the body is run on each entry of a map (type 6).
pub visit : Memory → ℕ → (ℕ → Pmm → Pmm) → Pmm → Option Pmm
visit m tag body s =
    if tag_type m tag == 6
    then if entry_size m tag == 0
      then none
      else some (each_entry (entry_count m tag) 0 m tag body s)
    else some s

-- `while ((u8*)tag < p + total && tag->type != 0)`, which both passes run.
pub each_tag : ℕ → Memory → ℕ → ℕ → (ℕ → Pmm → Pmm) → Pmm → Option Pmm
each_tag zero m limit tag body s = none
each_tag (suc fuel) m limit tag body s = elim (ltb tag limit && not (tag_type m tag == 0)) [
  | true ↦ elim (visit m tag body s) [
    | none ↦ none
    | some t ↦ each_tag fuel m limit (next_tag m tag) body t
  ]
  | false ↦ some s
]

-- First pass: the highest end of usable memory, in pages.
pub raise_total : Memory → ℕ → Pmm → Pmm
raise_total m e s =
    let top = (read64 m e + read64 m (e + 8)) % 2 ^ 64 / page_size in
    if read32 m (e + 16) == 1
    then if ltb s.total_pages top then record s { total_pages = top } else s
    else s

-- Second pass: what is not usable is marked.
pub mark_entry : Memory → ℕ → Pmm → Pmm
mark_entry m e s = if read32 m (e + 16) == 1 then s else mark_used (read64 m e) (read64 m (e + 8)) s

pub cap_total : Pmm → Pmm
cap_total s =
    if ltb (bitmap_size * 8) s.total_pages then record s { total_pages = bitmap_size * 8 } else s

-- `for (u64 i = 0; i < g_total_pages; i++) { bit_clear(i); g_free_pages++; }`
pub clear_loop : ℕ → ℕ → Pmm → Pmm
clear_loop zero i s = s
clear_loop (suc n) i s = clear_loop n (i + 1) (give_page s i)

-- `memset(g_bitmap, 0xFF, ...)` and the first values.
abbrev pub blank : Pmm
blank = record {
  bitmap = λ k. 255;
  total_pages = 128 * 1024 * 1024 / 4096;
  free_pages = 0;
  last_index = 1;
}

-- The ranges that are reserved after the map has been read.
pub reserve : ℕ → ℕ → ℕ → ℕ → Pmm → Pmm
reserve mb2_info total kernel_end bitmap_addr s =
    let s1 = mark_used 0 0x100000 s in
    let s2 = mark_used 0x100000 ((kernel_end + (2 ^ 64 - 0x100000)) % 2 ^ 64) s1 in
    let s3 = mark_used bitmap_addr bitmap_size s2 in
    let start = mb2_info / 4096 * 4096 in
    let end = (mb2_info + total + 0xFFF) % 2 ^ 64 / 4096 * 4096 in
    if not (mb2_info == 0) && (ltb 0 total && ltb total 0x100000)
    then mark_used start ((end + 2 ^ 64 - start) % 2 ^ 64) s3
    else s3

-- Fuel for a walk over `total` bytes of tags: each tag takes at least 8.
abbrev pub walk_fuel : ℕ → ℕ
walk_fuel total = suc (total / 8)

-- Everything after the first pass.
pub fill : Memory → ℕ → ℕ → ℕ → ℕ → Pmm → Option Pmm
fill m mb2_info total kernel_end bitmap_addr s =
    let t = cap_total s in
    let u = clear_loop t.total_pages 0 t in
    elim (each_tag (walk_fuel total) m (mb2_info + total) (mb2_info + 8) (mark_entry m) u) [
      | none ↦ none
      | some w ↦ some (reserve mb2_info total kernel_end bitmap_addr w)
    ]

pub pmm_init : Memory → ℕ → ℕ → ℕ → Option Pmm
pmm_init m mb2_info kernel_end bitmap_addr =
    let total = read32 m mb2_info in
    elim (each_tag (walk_fuel total) m (mb2_info + total) (mb2_info + 8) (raise_total m) blank) [
      | none ↦ none
      | some s ↦ fill m mb2_info total kernel_end bitmap_addr s
    ]
