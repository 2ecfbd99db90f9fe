-- ===== src/Pmm/Inv.antt =====
-- The invariant of kernel/pmm.c, and that the two page steps (set and count down, clear and count
-- up) keep it.
use fobos_os.Base.{
  ℕ, zero, suc, ◌+◌, ◌*◌, ◌/◌, ◌≤◌, ◌<◌, ◌≡◌, refl, Bool, true, false, arith, ◌==◌, if◌then◌else◌,
}
use native.Mathlib.Decide.{ℕ_discrete}
use fobos_os.Pmm.{Pmm, bitmap_size, bit_set, bit_clear, bit_get, take_page, give_page}
use fobos_os.Pmm.Bits.{
  AllBytes, bit_set-AllBytes, bit_clear-AllBytes, bit_get-bit_set, bit_get-bit_clear,
}

-- The clear bits among the first `n` pages.
unfoldable pub count_clear : ℕ → (ℕ → ℕ) → ℕ
count_clear zero b = 0
count_clear (suc n) b = (if bit_get b n then 0 else 1) + count_clear n b

-- Whether page `i` is in use.
abbrev pub used : Pmm → ℕ → Bool
used s i = bit_get s.bitmap i

pub record IsValid (s : Pmm) : Type 0 where
  pub bytes : AllBytes s.bitmap
  pub small : s.total_pages ≤ bitmap_size * 8
  pub counted : s.free_pages ≡ count_clear s.total_pages s.bitmap
  pub from_one : 1 ≤ s.last_index
  pub to_end : s.last_index ≤ s.total_pages

-- Every page below the total has its bit inside the bitmap.
pub in_bounds : {s : Pmm} (i : ℕ) → IsValid s → i < s.total_pages → i / 8 < bitmap_size
in_bounds i v h = omega arith

pub count_clear-le : (n : ℕ) (b : ℕ → ℕ) → count_clear n b ≤ n
unfolding count_clear
count_clear-le zero b = omega arith
count_clear-le (suc n) b = ground (arith, count_clear-le n b)

-- With a clear bit below it the count is positive.
pub count_clear-pos :
    (n : ℕ) (b : ℕ → ℕ) (i : ℕ) → i < n → bit_get b i ≡ false → 1 ≤ count_clear n b
unfolding count_clear
count_clear-pos zero b i h e = absurd (omega arith)
count_clear-pos (suc n) b i h e = elim (ℕ_discrete i n) [
  | yes p ↦ rw (← p, e) (omega arith)
  | no p ↦ omega (arith, count_clear-pos n b i (omega arith) e)
]

pub count_clear-all :
    (n : ℕ) (b : ℕ → ℕ) → ((j : ℕ) → j < n → bit_get b j ≡ false) → count_clear n b ≡ n
unfolding count_clear
count_clear-all zero b h = refl
count_clear-all (suc n) b h =
    rw (h n (omega arith)) (omega (arith, count_clear-all n b λ j lt. h j (omega arith)))

module _ (b : ℕ → ℕ) (i : ℕ) (bytes : AllBytes b) where
  count_clear-bit_set_above : (n : ℕ) → n ≤ i → count_clear n (bit_set b i) ≡ count_clear n b
  unfolding count_clear
  count_clear-bit_set_above zero h = refl
  count_clear-bit_set_above (suc n) h =
      ground (arith, count_clear-bit_set_above n, bit_get-bit_set b i bytes n)

  count_clear-bit_clear_above : (n : ℕ) → n ≤ i → count_clear n (bit_clear b i) ≡ count_clear n b
  unfolding count_clear
  count_clear-bit_clear_above zero h = refl
  count_clear-bit_clear_above (suc n) h =
      ground (arith, count_clear-bit_clear_above n, bit_get-bit_clear b i bytes n)

  pub count_clear-bit_set :
      (n : ℕ) → i < n → bit_get b i ≡ false → count_clear n (bit_set b i) + 1 ≡ count_clear n b
  unfolding count_clear
  count_clear-bit_set zero h e = absurd (omega arith)
  count_clear-bit_set (suc n) h e =
      ground
        (arith, count_clear-bit_set n, count_clear-bit_set_above n, bit_get-bit_set b i bytes n)

  pub count_clear-bit_clear :
      (n : ℕ) → i < n → bit_get b i ≡ true → count_clear n (bit_clear b i) ≡ count_clear n b + 1
  unfolding count_clear
  count_clear-bit_clear zero h e = absurd (omega arith)
  count_clear-bit_clear (suc n) h e =
      ground (
        arith,
        count_clear-bit_clear n,
        count_clear-bit_clear_above n,
        bit_get-bit_clear b i bytes n,
      )

module _ {s : Pmm} (i : ℕ) (v : IsValid s) (below : i < s.total_pages) where
  -- Taking a clear page.
  pub take_page-IsValid : used s i ≡ false → IsValid (take_page s i)
  unfolding take_page
  take_page-IsValid e = record {
    bytes = bit_set-AllBytes s.bitmap i v.bytes;
    small = v.small;
    counted = omega (
      arith,
      v.counted,
      v.small,
      count_clear-le s.total_pages s.bitmap,
      count_clear-bit_set s.bitmap i v.bytes s.total_pages below e,
    );
    from_one = v.from_one;
    to_end = v.to_end;
  }

  pub free_pages-take_page : used s i ≡ false → (take_page s i).free_pages + 1 ≡ s.free_pages
  unfolding take_page
  free_pages-take_page e = omega (
    arith,
    v.counted,
    v.small,
    count_clear-le s.total_pages s.bitmap,
    count_clear-pos s.total_pages s.bitmap i below e,
  )

  -- Giving back a page in use.
  pub give_page-IsValid : used s i ≡ true → IsValid (give_page s i)
  unfolding give_page
  give_page-IsValid e = record {
    bytes = bit_clear-AllBytes s.bitmap i v.bytes;
    small = v.small;
    counted = omega (
      arith,
      v.counted,
      v.small,
      count_clear-le s.total_pages s.bitmap,
      count_clear-bit_clear s.bitmap i v.bytes s.total_pages below e,
    );
    from_one = v.from_one;
    to_end = v.to_end;
  }

  pub free_pages-give_page : (give_page s i).free_pages ≡ s.free_pages + 1
  unfolding give_page
  free_pages-give_page = omega (arith, v.counted, v.small, count_clear-le s.total_pages s.bitmap)

pub used-take_page :
    {s : Pmm} (i : ℕ)
    → IsValid s
    → (j : ℕ) → used (take_page s i) j ≡ (if j == i then true else used s j)
unfolding take_page
used-take_page {s} i v j = bit_get-bit_set s.bitmap i v.bytes j

pub used-give_page :
    {s : Pmm} (i : ℕ)
    → IsValid s
    → (j : ℕ) → used (give_page s i) j ≡ (if j == i then false else used s j)
unfolding give_page
used-give_page {s} i v j = bit_get-bit_clear s.bitmap i v.bytes j
