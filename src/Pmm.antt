-- ===== src/Pmm.antt =====
-- The physical page allocator, kernel/pmm.c: a bitmap with one bit for each 4096-byte page
-- (1 = in use), the number of pages, the number of clear bits and a rotating search position.
-- `g_bitmap` is a function of the byte index; that every access stays inside its 65536 bytes is
-- part of the invariant.
pub mod Bits
pub mod Inv
pub mod Mark
pub mod Frame
pub mod Frames
pub mod Boot
mod Tests
use fobos_os.Base.{
  ℕ, zero, suc, ◌+◌, ◌-◌, ◌*◌, ◌/◌, ◌%◌, ◌^◌, bit_and, bit_or, Bool, true, false, not, ◌&&◌, Option,
  none, some, ltb, ◌==◌, if◌then◌else◌, update, inc64, dec64,
}

-- `PMM_BITMAP_SIZE`
abbrev pub bitmap_size : ℕ
bitmap_size = 2 ^ 16

-- `PAGE_SIZE`
abbrev pub page_size : ℕ
page_size = 4096

pub record Pmm : Type 0 where
  pub bitmap : ℕ → ℕ
  pub total_pages : ℕ
  pub free_pages : ℕ
  pub last_index : ℕ

unfoldable pub bit_set : (ℕ → ℕ) → ℕ → ℕ → ℕ
bit_set b i = update b (i / 8) (bit_or (b (i / 8)) (2 ^ (i % 8)))

-- `(u8)~(1u << k)` is `255 - 2 ^ k`.
pub bit_clear : (ℕ → ℕ) → ℕ → ℕ → ℕ
bit_clear b i = update b (i / 8) (bit_and (b (i / 8)) (255 - 2 ^ (i % 8)))

unfoldable pub bit_get : (ℕ → ℕ) → ℕ → Bool
bit_get b i = b (i / 8) / 2 ^ (i % 8) % 2 == 1

-- `bit_set(i); g_free_pages--;`
unfoldable pub take_page : Pmm → ℕ → Pmm
take_page s i = record s { bitmap = bit_set s.bitmap i; free_pages = dec64 s.free_pages }

-- `bit_clear(i); g_free_pages++;`
pub give_page : Pmm → ℕ → Pmm
give_page s i = record s { bitmap = bit_clear s.bitmap i; free_pages = inc64 s.free_pages }

-- The loop of `mark_used`, with the rounds left.
pub mark_pages : ℕ → ℕ → Pmm → Pmm
mark_pages zero i s = s
mark_pages (suc n) i s =
    mark_pages n (i + 1)
      (if ltb i s.total_pages && not (bit_get s.bitmap i) then take_page s i else s)

pub mark_used : ℕ → ℕ → Pmm → Pmm
mark_used base len s =
    let start = base / 4096 in
    let end = (base + len + page_size - 1) % 2 ^ 64 / 4096 in mark_pages (end - start) start s

-- A search loop of `pmm_alloc_frame`: the first clear bit among the `n` from `i` on.
unfoldable pub find_clear : ℕ → ℕ → (ℕ → ℕ) → Option ℕ
find_clear zero i b = none
find_clear (suc n) i b =
    let rest = find_clear n (i + 1) b in if not (bit_get b i) then some i else rest

-- `bit_set(i); g_free_pages--; g_last_index = i + 1; return i * PAGE_SIZE;`
unfoldable pub grant : ℕ → Pmm → ℕ × Pmm
grant i s = (i * page_size, record (take_page s i) { last_index = i + 1 })

unfoldable pub pmm_alloc_frame : Pmm → ℕ × Pmm
pmm_alloc_frame s = elim (find_clear (s.total_pages - s.last_index) s.last_index s.bitmap) [
  | some i ↦ grant i s
  | none ↦ elim (find_clear (s.last_index - 1) 1 s.bitmap) [ some i ↦ grant i s | none ↦ (0, s) ]
]

-- `while (k < n && !bit_get(i + k)) k++;`, with the rounds left: is the whole run clear?
pub run_clear : ℕ → ℕ → (ℕ → ℕ) → Bool
run_clear zero i b = true
run_clear (suc n) i b = let rest = run_clear n (i + 1) b in if bit_get b i then false else rest

pub take_pages : ℕ → ℕ → Pmm → Pmm
take_pages zero i s = s
take_pages (suc n) i s = take_pages n (i + 1) (take_page s i)

-- The outer loop of `pmm_alloc_frames`, with the rounds left.
pub find_run : ℕ → ℕ → ℕ → Pmm → ℕ × Pmm
find_run zero n i s = (0, s)
find_run (suc k) n i s =
    let rest = find_run k n (i + 1) s in
    if run_clear n i s.bitmap then (i * page_size, take_pages n i s) else rest

-- `i` runs from 1 while `i + n < g_total_pages`. (The sum does not wrap for any `n` up to
-- `2 ^ 64 - g_total_pages`.)
pub pmm_alloc_frames : ℕ → Pmm → ℕ × Pmm
pmm_alloc_frames n s = find_run (s.total_pages - n - 1) n 1 s

-- The body that `pmm_free_frame` and `pmm_free_frames` share.
pub release : ℕ → Pmm → Pmm
release i s = if ltb i s.total_pages && bit_get s.bitmap i then give_page s i else s

pub pmm_free_frame : ℕ → Pmm → Pmm
pmm_free_frame p s = release (p / 4096) s

pub free_loop : ℕ → ℕ → Pmm → Pmm
free_loop zero i s = s
free_loop (suc n) i s = free_loop n (i + 1) (release i s)

pub pmm_free_frames : ℕ → ℕ → Pmm → Pmm
pmm_free_frames p n s = free_loop n (p / 4096) s

pub pmm_total_bytes : Pmm → ℕ
pmm_total_bytes s = s.total_pages * page_size % 2 ^ 64

pub pmm_free_bytes : Pmm → ℕ
pmm_free_bytes s = s.free_pages * page_size % 2 ^ 64
