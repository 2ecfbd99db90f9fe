-- ===== src/Vmm.antt =====
-- Paging, kernel/vmm.c: the four levels of tables in memory, over the page allocator.
use fobos_os.Base.{
  ℕ, zero, suc, ◌+◌, ◌*◌, ◌/◌, ◌%◌, ◌^◌, bit_or, Bool, true, false, not, Option, none, some, List,
  [], ◌∷◌, ◌==◌, ◌&&◌, leb, ltb, if◌then◌else◌, update,
}
use fobos_os.Pmm.{Pmm, pmm_alloc_frame}
pub mod Walk
pub mod Table
pub mod Step
pub mod Mapping
pub mod Unmapping
mod Tests

abbrev pub page_write : ℕ
page_write = 2

-- `g_pml4`, the 64-bit words of memory by their address, and the page allocator.
pub record Vmm : Type 0 where
  pub pml4 : ℕ
  pub memory : ℕ → ℕ
  pub frames : Pmm

-- `v & PAGE_PRESENT` and `v & 0x000FFFFFFFFFF000`
abbrev pub present : ℕ → Bool
present v = v % 2 == 1

abbrev pub address_of : ℕ → ℕ
address_of v = v % 2 ^ 52 / 4096 * 4096

-- The address of `tbl[idx]`.
abbrev pub slot : ℕ → ℕ → ℕ
slot tbl idx = tbl + 8 * idx

-- `memset((void*)p, 0, 4096)`
abbrev pub clear_page : ℕ → (ℕ → ℕ) → ℕ → ℕ
clear_page p m a = if leb p a && ltb a (p + 4096) then 0 else m a

-- `p | PAGE_PRESENT | PAGE_WRITE | (flags & PAGE_USER)`
abbrev pub table_entry : ℕ → ℕ → ℕ
table_entry p flags = bit_or (bit_or (bit_or p 1) page_write) (flags / 4 % 2 * 4)

-- A page of zeros for `tbl[idx]`, unless the allocator gave 0.
abbrev pub new_table : ℕ → ℕ → ℕ → Vmm → ℕ × Pmm → Option ℕ × Vmm
new_table tbl idx flags s (p, frames) =
    let memory = update (clear_page p s.memory) (slot tbl idx) (table_entry p flags) in
    if p == 0
    then (none, record s { frames = frames })
    else (some (address_of (memory (slot tbl idx))), record s { memory = memory; frames = frames })

unfoldable pub next_table : ℕ → ℕ → ℕ → Vmm → Option ℕ × Vmm
next_table tbl idx flags s =
    if present (s.memory (slot tbl idx))
    then (some (address_of (s.memory (slot tbl idx))), s)
    else new_table tbl idx flags s (pmm_alloc_frame s.frames)

-- `(va >> 39) & 0x1FF` and so on: the indices of the upper three tables, and that of the lowest.
abbrev pub upper_indices : ℕ → List ℕ
upper_indices va = va / 2 ^ 39 % 512 ∷ va / 2 ^ 30 % 512 ∷ va / 2 ^ 21 % 512 ∷ []

abbrev pub lowest_index : ℕ → ℕ
lowest_index va = va / 2 ^ 12 % 512

-- `if (!p) return NULL`
abbrev pub and_then : (ℕ → Vmm → Option ℕ × Vmm) → Option ℕ × Vmm → Option ℕ × Vmm
and_then next (none, s) = (none, s)
and_then next (some tbl, s) = next tbl s

-- The calls of `next_table` down the levels; the first without a page ends them.
unfoldable pub make_tables : List ℕ → ℕ → ℕ → Vmm → Option ℕ × Vmm
make_tables [] flags tbl s = (some tbl, s)
make_tables (idx ∷ is) flags tbl s = and_then (make_tables is flags) (next_table tbl idx flags s)

-- `(pa & 0x000FFFFFFFFFF000) | flags | PAGE_PRESENT`
abbrev pub page_entry : ℕ → ℕ → ℕ
page_entry pa flags = bit_or (bit_or (address_of pa) flags) 1

-- `p1[i1] = ...`, and whether the page was mapped.
abbrev pub set_page : ℕ → ℕ → ℕ → Option ℕ × Vmm → Bool × Vmm
set_page va pa flags (none, s) = (false, s)
set_page va pa flags (some p1, s) =
    (true, record s { memory = update s.memory (slot p1 (lowest_index va)) (page_entry pa flags) })

unfoldable pub vmm_map_page : ℕ → ℕ → ℕ → Vmm → Bool × Vmm
vmm_map_page va pa flags s = set_page va pa flags (make_tables (upper_indices va) flags s.pml4 s)

-- The checks that `vmm_unmap_page` and `vmm_get_phys` make level by level: the table, or for the
-- lowest index the page, at the end of the indices; `none` when one of the entries is not present.
unfoldable pub walk : (ℕ → ℕ) → List ℕ → ℕ → Option ℕ
walk m [] tbl = some tbl
walk m (idx ∷ is) tbl =
    let rest = walk m is (address_of (m (slot tbl idx))) in
    if present (m (slot tbl idx)) then rest else none

abbrev pub clear_entry : ℕ → Vmm → Option ℕ → Vmm
clear_entry va s none = s
clear_entry va s (some p1) = record s { memory = update s.memory (slot p1 (lowest_index va)) 0 }

unfoldable pub vmm_unmap_page : ℕ → Vmm → Vmm
vmm_unmap_page va s = clear_entry va s (walk s.memory (upper_indices va) s.pml4)

abbrev pub all_indices : ℕ → List ℕ
all_indices va = va / 2 ^ 39 % 512 ∷ va / 2 ^ 30 % 512 ∷ va / 2 ^ 21 % 512 ∷ va / 2 ^ 12 % 512 ∷ []

abbrev pub with_offset : ℕ → Option ℕ → ℕ
with_offset va none = 0
with_offset va (some page) = page + va % 4096

unfoldable pub vmm_get_phys : ℕ → Vmm → ℕ
vmm_get_phys va s = with_offset va (walk s.memory (all_indices va) s.pml4)

-- `vmm_map_range`, which does not look at whether a page was mapped; `i` pages are done.
unfoldable pub map_loop : ℕ → ℕ → ℕ → ℕ → ℕ → Vmm → Vmm
map_loop zero i va pa flags s = s
map_loop (suc n) i va pa flags s =
    map_loop n (i + 1) va pa flags
      (vmm_map_page ((va + i * 4096) % 2 ^ 64) ((pa + i * 4096) % 2 ^ 64) flags s).1

abbrev pub vmm_map_range : ℕ → ℕ → ℕ → ℕ → Vmm → Vmm
vmm_map_range va pa pages flags s = map_loop pages 0 va pa flags s
