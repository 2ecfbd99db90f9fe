-- ===== src/Pmm/Frame.antt =====
-- `pmm_alloc_frame` and `pmm_free_frame` of kernel/pmm.c.
use fobos_os.Base.{
  ℕ, zero, suc, ◌+◌, ◌-◌, ◌*◌, ◌/◌, ◌≤◌, ◌<◌, ◌≡◌, refl, ◌⊎◌, inl, inr, true, false, arith, none,
  some, Option-cases, Bool-cases, ltb, ◌==◌, if◌then◌else◌,
}
use fobos_os.Pmm.{
  Pmm, page_size, bit_get, take_page, give_page, find_clear, grant, pmm_alloc_frame, release,
  pmm_free_frame,
}
use fobos_os.Pmm.Inv.{
  IsValid, used, take_page-IsValid, give_page-IsValid, used-take_page, used-give_page,
  free_pages-take_page, free_pages-give_page,
}

find_clear-some :
    (n i : ℕ) (b : ℕ → ℕ) (k : ℕ)
    → find_clear n i b ≡ some k
    → (i ≤ k) × (k < i + n) × (bit_get b k ≡ false)
unfolding find_clear
find_clear-some zero i b k h = ground arith
find_clear-some (suc n) i b k h = elim (Bool-cases (bit_get b i)) [
  | inl e ↦ ground (arith, find_clear-some n (i + 1) b k)
  | inr e ↦ ground arith
]

find_clear-none :
    (n i : ℕ) (b : ℕ → ℕ) (j : ℕ) → find_clear n i b ≡ none → i ≤ j → j < i + n → bit_get b j ≡ true
unfolding find_clear
find_clear-none zero i b j h lo hi = absurd (omega arith)
find_clear-none (suc n) i b j h lo hi = ground (arith, find_clear-none n (i + 1) b j)

-- What a granted page means: its address is returned, it was clear, and it alone is now in use.
pub record Granted (s : Pmm) (i : ℕ) (r : ℕ × Pmm) : Type 0 where
  pub address : r.0 ≡ i * page_size
  pub above_zero : 1 ≤ i
  pub below_total : i < s.total_pages
  pub was_clear : used s i ≡ false
  pub only : (j : ℕ) → used r.1 j ≡ (if j == i then true else used s j)
  pub one_less : r.1.free_pages + 1 ≡ s.free_pages
  pub same_total : r.1.total_pages ≡ s.total_pages
  pub valid : IsValid r.1

pub record Exhausted (s : Pmm) (r : ℕ × Pmm) : Type 0 where
  pub zero_returned : r.0 ≡ 0
  pub unchanged : r.1 ≡ s
  pub all_used : (j : ℕ) → 1 ≤ j → j < s.total_pages → used s j ≡ true

grant-Granted :
    {s : Pmm} (i : ℕ)
    → IsValid s
    → 1 ≤ i
    → i < s.total_pages
    → used s i ≡ false
    → Granted s i (grant i s)
unfolding grant take_page
grant-Granted {s} i v lo hi e =
    let t : IsValid (take_page s i) = take_page-IsValid i v hi e in
    record {
      address = refl;
      above_zero = lo;
      below_total = hi;
      was_clear = e;
      only = used-take_page i v;
      one_less = free_pages-take_page i v hi e;
      same_total = refl;
      valid = record {
        bytes = t.bytes;
        small = t.small;
        counted = t.counted;
        from_one = omega arith;
        to_end = omega arith;
      };
    }

-- In a valid state `pmm_alloc_frame` either hands out one page that was free, with a number from 1
-- up to the total, marking it and no other and counting it, or every page but page 0 is in use, and
-- it returns 0 and changes nothing. The state stays valid either way.
pub pmm_alloc_frame_lem :
    {s : Pmm}
    → IsValid s
    → ((i : ℕ) × Granted s i (pmm_alloc_frame s)) ⊎ Exhausted s (pmm_alloc_frame s)
unfolding pmm_alloc_frame
pmm_alloc_frame_lem {s} v =
    elim (Option-cases (find_clear (s.total_pages - s.last_index) s.last_index s.bitmap)) [
      | inr (k, e) ↦
          let f : (s.last_index ≤ k)
              × (k < s.last_index + (s.total_pages - s.last_index))
              × (bit_get s.bitmap k ≡ false) =
            find_clear-some _ _ _ _ e in
          rw (e, pmm_alloc_frame)
            (inl (k, grant-Granted k v (omega (arith, v.from_one)) (omega (arith, v.to_end)) f.2))
      | inl e ↦ elim (Option-cases (find_clear (s.last_index - 1) 1 s.bitmap)) [
        | inr (k, e') ↦
            let f : (1 ≤ k) × (k < 1 + (s.last_index - 1)) × (bit_get s.bitmap k ≡ false) =
              find_clear-some _ _ _ _ e' in
            rw (e, pmm_alloc_frame, e')
              (inl (k, grant-Granted k v f.0 (omega (arith, v.to_end, v.from_one)) f.2))
        | inl e' ↦
            rw (e, pmm_alloc_frame, e')
              (inr (record {
                zero_returned = refl;
                unchanged = refl;
                all_used = λ j lo hi. elim (Bool-cases (ltb j s.last_index)) [
                  | inl p ↦ find_clear-none _ _ _ j e' lo (ground arith)
                  | inr p ↦ find_clear-none _ _ _ j e (ground arith) (ground (arith, v.to_end))
                ];
              }))
      ]
    ]

-- What `release` does to a page: it is clear afterwards if it lies below the total, and the count
-- moves exactly when it was in use.
pub record Released (s : Pmm) (i : ℕ) (t : Pmm) : Type 0 where
  pub only :
      (j : ℕ)
      → used t j ≡ (if j == i then (if ltb i s.total_pages then false else used s i) else used s j)
  pub count :
      t.free_pages ≡ s.free_pages + (if ltb i s.total_pages then (if used s i then 1 else 0) else 0)
  pub same_total : t.total_pages ≡ s.total_pages
  pub valid : IsValid t

pub release-Released : {s : Pmm} (i : ℕ) → IsValid s → Released s i (release i s)
unfolding release
release-Released {s} i v = elim (Bool-cases (ltb i s.total_pages)) [
  | inl p ↦ elim (Bool-cases (bit_get s.bitmap i)) [
    | inl e ↦
        rw (p, e)
          (record {
            only = λ j. ground (arith, used-give_page i v j);
            count = ground (arith, free_pages-give_page i v);
            same_total = unfold give_page in refl;
            valid = give_page-IsValid i v (ground arith) e;
          })
    | inr e ↦
        rw (p, e)
          (record { only = λ j. ground arith; count = ground arith; same_total = refl; valid = v })
  ]
  | inr p ↦
      rw p (record { only = λ j. ground arith; count = ground arith; same_total = refl; valid = v })
]

-- `pmm_free_frame` in a valid state clears the page of its address when that lies below the total,
-- changes no other page, adds one to the count exactly when the page was in use (so a double free
-- is harmless), and keeps the invariant.
pub pmm_free_frame_lem : {s : Pmm} (p : ℕ) → IsValid s → Released s (p / 4096) (pmm_free_frame p s)
unfolding pmm_free_frame
pmm_free_frame_lem p v = release-Released (p / 4096) v

-- While some page from 1 on is free, `pmm_alloc_frame` succeeds.
Granted-of_free :
    {s : Pmm} (i : ℕ)
    → IsValid s
    → 1 ≤ i
    → i < s.total_pages
    → used s i ≡ false
    → (k : ℕ) × Granted s k (pmm_alloc_frame s)
Granted-of_free i v lo hi e = elim (pmm_alloc_frame_lem v) [
  | inl g ↦ g
  | inr x ↦ ground (arith, x.all_used i lo hi)
]

-- If some page from 1 on is free, `pmm_alloc_frame` returns a page, and freeing that page puts
-- every bit and the count back as they were and keeps the invariant.
pub free-alloc_frame :
    {s : Pmm} (i : ℕ)
    → IsValid s
    → 1 ≤ i
    → i < s.total_pages
    → used s i ≡ false
    → let (a, t) = pmm_alloc_frame s in
      let u = pmm_free_frame a t in
      (0 < a) × ((j : ℕ) → used u j ≡ used s j) × (u.free_pages ≡ s.free_pages) × IsValid u
free-alloc_frame {s} i v lo hi e =
    let (k, g) = Granted-of_free i v lo hi e in
    let (a, t) = pmm_alloc_frame s in
    let r : Released t (a / 4096) (pmm_free_frame a t) = pmm_free_frame_lem a g.valid in
    let ke : a / 4096 ≡ k = omega (arith, g.address) in
    (
      omega (arith, g.address, g.above_zero),
      λ j. ground (arith, r.only j, g.only j, ke, g.same_total, g.below_total, g.was_clear),
      ground (arith, r.count, g.only k, ke, g.same_total, g.below_total, g.one_less),
      r.valid,
    )
