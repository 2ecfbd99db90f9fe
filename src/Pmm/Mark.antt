-- ===== src/Pmm/Mark.antt =====
-- `mark_used` of kernel/pmm.c: which pages a reserved range takes out of use.
use fobos_os.Base.{
  ℕ, zero, suc, ◌+◌, ◌-◌, ◌/◌, ◌%◌, ◌^◌, ◌≤◌, ◌<◌, ◌≡◌, refl, true, false, arith, inl, inr,
  Bool-cases, ltb, ◌&&◌, if◌then◌else◌, ◌∙◌,
}
use fobos_os.Pmm.{Pmm, bit_get, take_page, mark_pages, mark_used}
use fobos_os.Pmm.Inv.{IsValid, used, take_page-IsValid, used-take_page}
use fobos_os.Pmm.Frames.{in_run}

-- The pages of the run that lie below the total are used afterwards, and nothing else changes.
pub record Marked (s : Pmm) (n i : ℕ) (t : Pmm) : Type 0 where
  pub only : (j : ℕ) → used t j ≡ (if in_run i n j && ltb j s.total_pages then true else used s j)
  pub same_total : t.total_pages ≡ s.total_pages
  pub valid : IsValid t

Marked-suc : (n i : ℕ) {s t u : Pmm} → Marked s 1 i t → Marked t n (i + 1) u → Marked s (suc n) i u
Marked-suc n i a b = record {
  only = λ j. ground (arith, b.only j, a.only j, a.same_total);
  same_total = b.same_total ∙ a.same_total;
  valid = b.valid;
}

take_page-Marked :
    {s : Pmm} (i : ℕ)
    → IsValid s
    → i < s.total_pages
    → used s i ≡ false
    → Marked s 1 i (take_page s i)
take_page-Marked i v h e = record {
  only = λ j. ground (arith, used-take_page i v j);
  same_total = unfold take_page in refl;
  valid = take_page-IsValid i v h e;
}

mark_pages-Marked : (n i : ℕ) {s : Pmm} → IsValid s → Marked s n i (mark_pages n i s)
unfolding mark_pages
mark_pages-Marked zero i v = record { only = λ j. ground arith; same_total = refl; valid = v }
mark_pages-Marked (suc n) i {s} v = elim (Bool-cases (ltb i s.total_pages)) [
  | inr p ↦ rw p (
      Marked-suc n i (record { only = λ j. ground arith; same_total = refl; valid = v })
        (mark_pages-Marked n (i + 1) v))
  | inl p ↦ elim (Bool-cases (bit_get s.bitmap i)) [
    | inl e ↦
        rw (p, e)
          (Marked-suc n i (record { only = λ j. ground arith; same_total = refl; valid = v })
            (mark_pages-Marked n (i + 1) v))
    | inr e ↦
        let m : Marked s 1 i (take_page s i) = take_page-Marked i v (ground arith) e in
        rw (p, e) (Marked-suc n i m (mark_pages-Marked n (i + 1) m.valid))
  ]
]

-- `mark_used(base, len)`, for a range that ends below `2 ^ 64 - 4095`, takes exactly the pages that
-- the bytes from `base` to `base + len` touch and that lie below the total out of use, changes no
-- other page, and keeps the invariant.
pub mark_used_lem :
    {s : Pmm} (base len : ℕ)
    → IsValid s
    → base + len + 4095 < 2 ^ 64
    → Marked s ((base + len + 4095) / 4096 - base / 4096) (base / 4096) (mark_used base len s)
unfolding mark_used
mark_used_lem {s} base len v h =
    let e : (base + len + 4096 - 1) % 2 ^ 64 / 4096 ≡ (base + len + 4095) / 4096 = omega arith in
    rw e (mark_pages-Marked ((base + len + 4095) / 4096 - base / 4096) (base / 4096) v)

pub mark_used-IsValid : {s : Pmm} (base len : ℕ) → IsValid s → IsValid (mark_used base len s)
unfolding mark_used
mark_used-IsValid base len v =
    let n = (base + len + 4096 - 1) % 2 ^ 64 / 4096 - base / 4096 in
    (mark_pages-Marked n (base / 4096) v).valid

-- Marking never frees a page, whatever the range.
pub mark_used-keeps :
    {s : Pmm} (base len j : ℕ) → IsValid s → used s j ≡ true → used (mark_used base len s) j ≡ true
unfolding mark_used
mark_used-keeps base len j v e =
    let n = (base + len + 4096 - 1) % 2 ^ 64 / 4096 - base / 4096 in
    let m = mark_pages-Marked n (base / 4096) v in ground (arith, m.only j)

pub total_pages-mark_used :
    {s : Pmm} (base len : ℕ) → IsValid s → (mark_used base len s).total_pages ≡ s.total_pages
unfolding mark_used
total_pages-mark_used base len v =
    let n = (base + len + 4096 - 1) % 2 ^ 64 / 4096 - base / 4096 in
    (mark_pages-Marked n (base / 4096) v).same_total

-- Any byte of a marked range stands in a page that is in use afterwards, if the allocator has it.
pub mark_used-covers :
    {s : Pmm} (base len a : ℕ)
    → IsValid s
    → base + len + 4095 < 2 ^ 64
    → base ≤ a
    → a < base + len
    → a / 4096 < s.total_pages
    → used (mark_used base len s) (a / 4096) ≡ true
mark_used-covers {s} base len a v h lo hi below =
    let m = mark_used_lem base len v h in ground (arith, m.only (a / 4096))
