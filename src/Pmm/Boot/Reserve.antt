-- ===== src/Pmm/Boot/Reserve.antt =====
-- What `pmm_init` leaves behind: a valid allocator that never hands out reserved memory.
use native.Mathlib.Decide.{dec_lt}
use fobos_os.Base.{
  ℕ, ◌+◌, ◌-◌, ◌*◌, ◌/◌, ◌%◌, ◌^◌, ◌≤◌, ◌<◌, ◌≡◌, refl, ◌≢◌, true, false, ◌&&◌, inl, inr,
  Bool-cases, some, arith, ltb, ◌==◌, ◌∙◌,
}
use fobos_os.Pmm.{Pmm, bitmap_size, mark_used}
use fobos_os.Pmm.Inv.{IsValid, used}
use fobos_os.Pmm.Mark.{mark_used-IsValid, mark_used-keeps, total_pages-mark_used, mark_used-covers}
use fobos_os.Pmm.Boot.{
  Memory, read32, raise_total, mark_entry, cap_total, clear_loop, blank, reserve, walk_fuel, fill,
  pmm_init,
}
use fobos_os.Pmm.Boot.Walk.{GoodTags, each_tag_keeps}
use fobos_os.Pmm.Boot.Init.{
  Raised, raise_total-Raised, cap_total-Raised, clear_loop-IsValid, Kept, mark_entry-Kept,
}

-- What the allocator must never hand out again: page 0 and the first megabyte, the kernel's image,
-- the bitmap itself, and the boot loader's information.
pub record Booted (m : Memory) (mb2_info kernel_end bitmap_addr : ℕ) (s : Pmm) : Type 0 where
  pub valid : IsValid s
  pub enough : 32768 ≤ s.total_pages
  pub image_kept : (a : ℕ) → a < kernel_end → a / 4096 < s.total_pages → used s (a / 4096) ≡ true
  pub bitmap_kept :
      (a : ℕ)
      → bitmap_addr ≤ a
      → a < bitmap_addr + bitmap_size
      → a / 4096 < s.total_pages
      → used s (a / 4096) ≡ true
  pub info_kept :
      (a : ℕ)
      → read32 m mb2_info < 0x100000
      → mb2_info ≤ a
      → a < mb2_info + read32 m mb2_info
      → a / 4096 < s.total_pages
      → used s (a / 4096) ≡ true

-- Where the linker and the boot loader put things: above the first megabyte, and clear of the end
-- of the address space.
pub record Placed (mb2_info total kernel_end bitmap_addr : ℕ) : Type 0 where
  pub above : 0x100000 ≤ kernel_end
  pub kernel_fits : kernel_end < 2 ^ 48
  pub bitmap_fits : bitmap_addr < 2 ^ 48
  pub info_fits : mb2_info < 2 ^ 48
  pub info_there : mb2_info ≢ 0
  pub total_fits : total < 2 ^ 32

module _ {s : Pmm} (mb2_info total kernel_end bitmap_addr : ℕ) (v : IsValid s) where
  -- The three ranges that are always reserved.
  core : Pmm
  core =
      mark_used bitmap_addr bitmap_size
        (mark_used 0x100000 ((kernel_end + (2 ^ 64 - 0x100000)) % 2 ^ 64) (mark_used 0 0x100000 s))

  core-IsValid : IsValid core
  unfolding core
  core-IsValid = mark_used-IsValid _ _ (mark_used-IsValid _ _ (mark_used-IsValid _ _ v))

  total_pages-core : core.total_pages ≡ s.total_pages
  unfolding core
  total_pages-core =
      total_pages-mark_used _ _ (mark_used-IsValid _ _ (mark_used-IsValid _ _ v))
      ∙ total_pages-mark_used _ _ (mark_used-IsValid _ _ v)
      ∙ total_pages-mark_used _ _ v

  module _ (placed : Placed mb2_info total kernel_end bitmap_addr) where
    core-image : (a : ℕ) → a < kernel_end → a / 4096 < s.total_pages → used core (a / 4096) ≡ true
    unfolding core
    core-image a h below =
        let v1 = mark_used-IsValid 0 0x100000 v in
        let len = (kernel_end + (2 ^ 64 - 0x100000)) % 2 ^ 64 in
        let v2 = mark_used-IsValid 0x100000 len v1 in
        let t1 = total_pages-mark_used 0 0x100000 v in
        mark_used-keeps bitmap_addr bitmap_size (a / 4096) v2 (elim (dec_lt a 0x100000) [
          | yes p ↦
              mark_used-keeps 0x100000 len (a / 4096) v1
                (mark_used-covers 0 0x100000 a v (omega arith) (omega arith) (omega arith) below)
          | no p ↦
              mark_used-covers 0x100000 len a v1 (omega (arith, placed.kernel_fits)) (omega arith)
                (omega (arith, placed.kernel_fits, placed.above)) (omega (arith, t1))
        ])

    core-bitmap :
        (a : ℕ)
        → bitmap_addr ≤ a
        → a < bitmap_addr + bitmap_size
        → a / 4096 < s.total_pages
        → used core (a / 4096) ≡ true
    unfolding core
    core-bitmap a lo hi below =
        let v1 = mark_used-IsValid 0 0x100000 v in
        let len = (kernel_end + (2 ^ 64 - 0x100000)) % 2 ^ 64 in
        let v2 = mark_used-IsValid 0x100000 len v1 in
        mark_used-covers bitmap_addr bitmap_size a v2 (omega (arith, placed.bitmap_fits)) lo hi
          (omega (arith, total_pages-mark_used 0 0x100000 v, total_pages-mark_used 0x100000 len v1))

    reserve-Booted :
        (m : Memory)
        → total ≡ read32 m mb2_info
        → 32768 ≤ s.total_pages
        → Booted m mb2_info kernel_end bitmap_addr (reserve mb2_info total kernel_end bitmap_addr s)
    unfolding reserve core
    reserve-Booted m te enough =
        let there : (mb2_info == 0) ≡ false = ground (arith, placed.info_there) in
        let start = mb2_info / 4096 * 4096 in
        let len = ((mb2_info + total + 0xFFF) % 2 ^ 64 / 4096 * 4096 + 2 ^ 64 - start) % 2 ^ 64 in
        let same : (mark_used start len core).total_pages ≡ s.total_pages =
          total_pages-mark_used start len core-IsValid ∙ total_pages-core in
        rw there (elim (Bool-cases (ltb 0 total && ltb total 0x100000)) [
          | inl p ↦ rw p (record {
            valid = mark_used-IsValid start len core-IsValid;
            enough = omega (arith, total_pages-mark_used start len core-IsValid, total_pages-core);
            image_kept = λ a h below.
                mark_used-keeps start len (a / 4096) core-IsValid
                  (core-image a h (omega (arith, same)));
            bitmap_kept = λ a lo hi below.
                mark_used-keeps start len (a / 4096) core-IsValid
                  (core-bitmap a lo hi (omega (arith, same)));
            info_kept = λ a small lo hi below.
                mark_used-covers start len a core-IsValid
                  (omega (arith, placed.info_fits, placed.total_fits)) (omega arith)
                  (omega (arith, placed.info_fits, placed.total_fits))
                  (omega (arith, total_pages-mark_used start len core-IsValid));
          })
          | inr p ↦ rw p (record {
            valid = core-IsValid;
            enough = omega (arith, total_pages-core);
            image_kept = λ a h below. core-image a h (omega (arith, total_pages-core));
            bitmap_kept = λ a lo hi below. core-bitmap a lo hi (omega (arith, total_pages-core));
            info_kept = λ a small lo hi below. ground (arith, te);
          })
        ])

-- When the boot loader's tags are well formed and everything lies where it should, `pmm_init`
-- returns: the allocator is valid (its count of free pages is the number of clear bits, its total
-- between 32768 and 524288), and the pages of the kernel's image with all below it, of the bitmap
-- and, if smaller than a megabyte, of the boot loader's information are in use.
pub pmm_init-Booted :
    (m : Memory) (mb2_info kernel_end bitmap_addr : ℕ)
    → GoodTags (walk_fuel (read32 m mb2_info)) m (mb2_info + read32 m mb2_info) (mb2_info + 8)
    → Placed mb2_info (read32 m mb2_info) kernel_end bitmap_addr
    → (s : Pmm) × (pmm_init m mb2_info kernel_end bitmap_addr ≡ some s)
      × Booted m mb2_info kernel_end bitmap_addr s
unfolding pmm_init fill
pmm_init-Booted m mb2_info kernel_end bitmap_addr good placed =
    let total = read32 m mb2_info in
    let room : mb2_info + total ≤ mb2_info + 8 + 8 * (total / 8) = omega arith in
    let start : Raised blank = record {
      full = λ k. refl;
      none_free = refl;
      first = refl;
      enough = omega arith;
    } in
    let (a, ea, ra) =
      each_tag_keeps Raised (raise_total m) (raise_total-Raised m) (total / 8) m (mb2_info + total)
        (mb2_info + 8) blank good room start in
    let (rb, small) = cap_total-Raised a ra in
    let b = cap_total a in
    let kb : Kept (clear_loop b.total_pages 0 b) = clear_loop-IsValid b rb small in
    let (c, ec, kc) =
      each_tag_keeps Kept (mark_entry m) (mark_entry-Kept m) (total / 8) m (mb2_info + total)
        (mb2_info + 8) (clear_loop b.total_pages 0 b) good room kb in
    (
      reserve mb2_info total kernel_end bitmap_addr c,
      rw (ea, pmm_init, ec, fill) refl,
      reserve-Booted mb2_info total kernel_end bitmap_addr kc.0 placed m refl kc.1,
    )
