-- ===== src/Pmm/Boot/Init.antt =====
-- The passes of `pmm_init` up to the bitmap that the memory map gives: all pages free but those of
-- entries that are not usable memory.
use native.Mathlib.Nat.{add-zero}
use fobos_os.Base.{
  ℕ, zero, suc, ◌+◌, ◌*◌, ◌/◌, ◌%◌, ◌^◌, ◌≤◌, ◌<◌, ◌≡◌, refl, true, false, inl, inr, Bool-cases,
  arith, ◌==◌, table, table_row, sym, ◌∙◌,
}
use fobos_os.Pmm.{Pmm, bitmap_size, bit_get, give_page}
use fobos_os.Pmm.Bits.{bit_clear-AllBytes}
use fobos_os.Pmm.Inv.{IsValid, used, count_clear-all}
use fobos_os.Pmm.Bits.{AllBytes, bit_get-bit_clear}
use fobos_os.Pmm.Mark.{mark_used-IsValid, total_pages-mark_used}
use fobos_os.Pmm.Boot.{Memory, read32, read64, raise_total, mark_entry, cap_total, clear_loop}

-- All pages in use, as after the `memset`.
pub record Raised (s : Pmm) : Type 0 where
  pub full : (k : ℕ) → s.bitmap k ≡ 255
  pub none_free : s.free_pages ≡ 0
  pub first : s.last_index ≡ 1
  pub enough : 32768 ≤ s.total_pages

pub raise_total-Raised : (m : Memory) (e : ℕ) (s : Pmm) → Raised s → Raised (raise_total m e s)
unfolding raise_total
raise_total-Raised m e s r = record {
  full = λ k. ground (arith, r.full k);
  none_free = ground (arith, r.none_free);
  first = ground (arith, r.first);
  enough = ground (arith, r.enough);
}

pub cap_total-Raised :
    (s : Pmm) → Raised s → Raised (cap_total s) × ((cap_total s).total_pages ≤ bitmap_size * 8)
unfolding cap_total
cap_total-Raised s r = (
  record {
    full = λ k. ground (arith, r.full k);
    none_free = ground (arith, r.none_free);
    first = ground (arith, r.first);
    enough = ground (arith, r.enough);
  },
  ground arith,
)

ones_table : table (λ k. 255 / 2 ^ k % 2 == 1) 8 ≡ true
unfolding table
ones_table = refl

bit_get-ones : (b : ℕ → ℕ) (i : ℕ) → b (i / 8) ≡ 255 → bit_get b i ≡ true
unfolding bit_get
bit_get-ones b i e = rw e (table_row (λ k. 255 / 2 ^ k % 2 == 1) 8 ones_table (i % 8) (omega arith))

-- Half way through the clearing loop: the pages below `i` are clear and counted.
record Cleared (i : ℕ) (s : Pmm) : Type 0 where
  bytes : AllBytes s.bitmap
  clear : (j : ℕ) → j < i → used s j ≡ false
  count : s.free_pages ≡ i
  first : s.last_index ≡ 1

give_page-Cleared : (i : ℕ) (s : Pmm) → i < 2 ^ 32 → Cleared i s → Cleared (suc i) (give_page s i)
unfolding give_page
give_page-Cleared i s small c = record {
  bytes = bit_clear-AllBytes s.bitmap i c.bytes;
  clear = λ j h. ground (arith, bit_get-bit_clear s.bitmap i c.bytes j, c.clear j);
  count = omega (arith, c.count);
  first = c.first;
}

clear_loop-Cleared :
    (n i : ℕ) (s : Pmm)
    → i + n < 2 ^ 32
    → Cleared i s
    → Cleared (i + n) (clear_loop n i s) × ((clear_loop n i s).total_pages ≡ s.total_pages)
unfolding clear_loop
clear_loop-Cleared zero i s small c = rw add-zero (c, refl)
clear_loop-Cleared (suc n) i s small c =
    let one : suc i ≡ i + 1 = omega arith in
    let next : Cleared (i + 1) (give_page s i) =
      rw one at (give_page-Cleared i s (omega arith) c) in
    let e : i + suc n ≡ i + 1 + n = omega arith in
    let (a, b) = clear_loop-Cleared n (i + 1) (give_page s i) (omega arith) next in
    (rw e a, b ∙ unfold give_page in refl)

-- After the clearing loop every page is free, and the state is valid.
pub clear_loop-IsValid :
    (s : Pmm)
    → Raised s
    → s.total_pages ≤ bitmap_size * 8
    → let t = clear_loop s.total_pages 0 s in IsValid t × (32768 ≤ t.total_pages)
clear_loop-IsValid s r small =
    let start : Cleared 0 s = record {
      bytes = λ k. omega (arith, r.full k);
      clear = λ j h. elim h [ ];
      count = r.none_free;
      first = r.first;
    } in
    let (c, same) = clear_loop-Cleared s.total_pages 0 s (omega arith) start in
    let e : 0 + s.total_pages ≡ s.total_pages = omega arith in
    (
      record {
        bytes = c.bytes;
        small = omega (arith, same);
        counted =
            rw same
              (c.count ∙ e ∙ sym (count_clear-all s.total_pages _ λ j h. c.clear j (omega arith)));
        from_one = omega (arith, c.first);
        to_end = omega (arith, c.first, same, r.enough);
      },
      omega (arith, same, r.enough),
    )

abbrev pub Kept : Pmm → Type 0
Kept s = IsValid s × (32768 ≤ s.total_pages)

pub mark_entry-Kept : (m : Memory) (e : ℕ) (s : Pmm) → Kept s → Kept (mark_entry m e s)
unfolding mark_entry
mark_entry-Kept m e s (v, h) = elim (Bool-cases (read32 m (e + 16) == 1)) [
  | inl p ↦ rw p (v, h)
  | inr p ↦
      let base = read64 m e in
      let len = read64 m (e + 8) in
      rw p (mark_used-IsValid base len v, omega (arith, total_pages-mark_used base len v))
]
