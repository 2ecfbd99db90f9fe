-- ===== src/Pmm/Frames.antt =====
-- `pmm_alloc_frames` and `pmm_free_frames` of kernel/pmm.c: runs of pages.
use fobos_os.Base.{
  ℕ, zero, suc, ◌+◌, ◌-◌, ◌*◌, ◌/◌, ◌≤◌, ◌<◌, ◌≡◌, refl, ◌⊎◌, inl, inr, Bool, true, false, arith,
  Bool-cases, ltb, leb, ◌&&◌, if◌then◌else◌, ◌∙◌,
}
use native.Mathlib.Decide.{ℕ_discrete}
use fobos_os.Pmm.{
  Pmm, page_size, bit_get, take_page, run_clear, take_pages, find_run, pmm_alloc_frames, release,
  free_loop, pmm_free_frames,
}
use fobos_os.Pmm.Inv.{IsValid, used, take_page-IsValid, used-take_page, free_pages-take_page}
use fobos_os.Pmm.Frame.{Released, release-Released}

-- Whether page `j` is one of the `n` from `i` on.
abbrev pub in_run : ℕ → ℕ → ℕ → Bool
in_run i n j = leb i j && ltb j (i + n)

run_clear-all :
    (n i : ℕ) (b : ℕ → ℕ)
    → run_clear n i b ≡ true
    → (j : ℕ) → i ≤ j
    → j < i + n
    → bit_get b j ≡ false
unfolding run_clear
run_clear-all zero i b h j lo hi = absurd (omega arith)
run_clear-all (suc n) i b h j lo hi =
    ground
      (arith, λ (r : run_clear n (i + 1) b ≡ true) (p : i + 1 ≤ j). run_clear-all n (i + 1) b r j p)

run_clear_of_all :
    (n i : ℕ) (b : ℕ → ℕ)
    → ((j : ℕ) → i ≤ j → j < i + n → bit_get b j ≡ false)
    → run_clear n i b ≡ true
unfolding run_clear
run_clear_of_all zero i b h = refl
run_clear_of_all (suc n) i b h =
    rw (h i (omega arith) (omega arith))
      (run_clear_of_all n (i + 1) b λ j lo hi. h j (omega arith) (omega arith))

-- The run from `i` on goes from clear to used, and nothing else changes.
pub record RunTaken (s : Pmm) (n i : ℕ) (t : Pmm) : Type 0 where
  pub only : (j : ℕ) → used t j ≡ (if in_run i n j then true else used s j)
  pub fewer : t.free_pages + n ≡ s.free_pages
  pub same_total : t.total_pages ≡ s.total_pages
  pub valid : IsValid t

take_pages-RunTaken :
    (n i : ℕ) {s : Pmm}
    → IsValid s
    → i + n ≤ s.total_pages
    → ((j : ℕ) → i ≤ j → j < i + n → used s j ≡ false)
    → RunTaken s n i (take_pages n i s)
unfolding take_pages
take_pages-RunTaken zero i v hi clear = record {
  only = λ j. ground arith;
  fewer = omega arith;
  same_total = refl;
  valid = v;
}
take_pages-RunTaken (suc n) i {s} v hi clear =
    let e : used s i ≡ false = clear i (omega arith) (omega arith) in
    let same : (take_page s i).total_pages ≡ s.total_pages = unfold take_page in refl in
    let r : RunTaken (take_page s i) n (i + 1) (take_pages n (i + 1) (take_page s i)) =
      take_pages-RunTaken n (i + 1) (take_page-IsValid i v (omega arith) e) (omega (arith, same))
        (λ j lo h. ground (arith, used-take_page i v j, clear j)) in
    record {
      only = λ j. ground (arith, r.only j, used-take_page i v j);
      fewer = omega (arith, r.fewer, free_pages-take_page i v (omega arith) e);
      same_total = r.same_total ∙ same;
      valid = r.valid;
    }

pub record GrantedRun (s : Pmm) (n i : ℕ) (r : ℕ × Pmm) : Type 0 where
  pub address : r.0 ≡ i * page_size
  pub above_zero : 1 ≤ i
  pub below_total : i + n < s.total_pages
  pub was_clear : (j : ℕ) → i ≤ j → j < i + n → used s j ≡ false
  pub taken : RunTaken s n i r.1

pub record NoRun (s : Pmm) (n from : ℕ) (r : ℕ × Pmm) : Type 0 where
  pub zero_returned : r.0 ≡ 0
  pub unchanged : r.1 ≡ s
  pub none_clear :
      (i : ℕ)
      → from ≤ i
      → i + n < s.total_pages
      → ((j : ℕ) → i ≤ j → j < i + n → used s j ≡ false)
      → ⊥

find_run_lem :
    (k n i : ℕ) {s : Pmm}
    → IsValid s
    → 1 ≤ i
    → i + n + k ≡ s.total_pages
    → ((m : ℕ) × GrantedRun s n m (find_run k n i s)) ⊎ NoRun s n i (find_run k n i s)
unfolding find_run
find_run_lem zero n i v lo e = inr (record {
  zero_returned = refl;
  unchanged = refl;
  none_clear = λ m a b c. absurd (omega arith);
})
find_run_lem (suc k) n i {s} v lo e = elim (Bool-cases (run_clear n i s.bitmap)) [
  | inl h ↦ rw h (
      inl (
        i,
        record {
          address = refl;
          above_zero = lo;
          below_total = omega arith;
          was_clear = run_clear-all n i s.bitmap h;
          taken = take_pages-RunTaken n i v (omega arith) (run_clear-all n i s.bitmap h);
        },
      ))
  | inr h ↦ rw h (elim (find_run_lem k n (i + 1) v (omega arith) (omega arith)) [
    | inl g ↦ inl g
    | inr x ↦ inr (record {
      zero_returned = x.zero_returned;
      unchanged = x.unchanged;
      none_clear = λ m a b c. elim (ℕ_discrete i m) [
        | yes p ↦ cc (run_clear_of_all n m s.bitmap c, h)
        | no p ↦ x.none_clear m (omega arith) b c
      ];
    })
  ])
]

-- In a valid state with at least `n + 2` pages `pmm_alloc_frames` either hands out `n` pages in a
-- row that were all free, marking exactly those and counting them, or no run of `n` free pages
-- that ends before the last page exists, and it returns 0 and changes nothing.
pub pmm_alloc_frames_lem :
    {s : Pmm} (n : ℕ)
    → IsValid s
    → n + 2 ≤ s.total_pages
    → ((i : ℕ) × GrantedRun s n i (pmm_alloc_frames n s)) ⊎ NoRun s n 1 (pmm_alloc_frames n s)
unfolding pmm_alloc_frames
pmm_alloc_frames_lem {s} n v h =
    find_run_lem (s.total_pages - n - 1) n 1 v (omega arith) (omega arith)

-- The used pages among the `n` from `i` on that lie below the total.
pub used_in : ℕ → ℕ → Pmm → ℕ
used_in zero i s = 0
used_in (suc n) i s =
    (if ltb i s.total_pages then (if used s i then 1 else 0) else 0) + used_in n (i + 1) s

pub record RunFreed (s : Pmm) (n i : ℕ) (t : Pmm) : Type 0 where
  pub only : (j : ℕ) → used t j ≡ (if in_run i n j && ltb j s.total_pages then false else used s j)
  pub count : t.free_pages ≡ s.free_pages + used_in n i s
  pub same_total : t.total_pages ≡ s.total_pages
  pub valid : IsValid t

used_in-above :
    (n i : ℕ) (s t : Pmm)
    → t.total_pages ≡ s.total_pages
    → ((j : ℕ) → i ≤ j → used t j ≡ used s j)
    → used_in n i t ≡ used_in n i s
unfolding used_in
used_in-above zero i s t e h = refl
used_in-above (suc n) i s t e h =
    ground (arith, h i, used_in-above n (i + 1) s t e (λ j lo. h j (omega arith)))

free_loop-RunFreed : (n i : ℕ) {s : Pmm} → IsValid s → RunFreed s n i (free_loop n i s)
unfolding free_loop used_in
free_loop-RunFreed zero i v = record {
  only = λ j. ground arith;
  count = omega arith;
  same_total = refl;
  valid = v;
}
free_loop-RunFreed (suc n) i {s} v =
    let d : Released s i (release i s) = release-Released i v in
    let r : RunFreed (release i s) n (i + 1) (free_loop n (i + 1) (release i s)) =
      free_loop-RunFreed n (i + 1) d.valid in
    record {
      only = λ j. ground (arith, r.only j, d.only j, d.same_total);
      count = omega (
        arith,
        r.count,
        d.count,
        used_in-above n (i + 1) s (release i s) d.same_total λ j lo. ground (arith, d.only j),
      );
      same_total = r.same_total ∙ d.same_total;
      valid = r.valid;
    }

-- `pmm_free_frames` clears exactly the pages of its range that lie below the total, raises the
-- count by the number of those that were in use, changes no other page, and keeps the invariant.
pub pmm_free_frames_lem :
    {s : Pmm} (p n : ℕ) → IsValid s → RunFreed s n (p / 4096) (pmm_free_frames p n s)
unfolding pmm_free_frames
pmm_free_frames_lem p n v = free_loop-RunFreed n (p / 4096) v
