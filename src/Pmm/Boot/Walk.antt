-- ===== src/Pmm/Boot/Walk.antt =====
-- The walk over the boot loader's tags ends, and keeps what its body keeps.
use fobos_os.Base.{
  ℕ, zero, suc, ◌+◌, ◌*◌, ◌^◌, ◌≤◌, ◌<◌, ◌≡◌, refl, ◌≢◌, false, not, ◌&&◌, inl, inr, Bool-cases,
  some, arith, ltb, ◌==◌,
}
use fobos_os.Pmm.{Pmm}
use fobos_os.Pmm.Boot.{
  Memory, tag_type, tag_size, next_tag, entry_size, each_entry, each_tag, visit, entry_count,
}

-- A tag that the walk can pass: its size is not 0 and does not wrap, and a map has an entry size.
abbrev pub GoodTag : Memory → ℕ → Type 0
GoodTag m tag =
    (1 ≤ tag_size m tag)
    × (tag_size m tag + 7 < 2 ^ 32)
    × (tag_type m tag ≡ 6 → entry_size m tag ≢ 0)

-- The first `n` tags from `tag` on are good, as far as the walk reaches.
abbrev pub GoodTags : ℕ → Memory → ℕ → ℕ → Type 0
GoodTags zero m limit tag = Unit
GoodTags (suc n) m limit tag =
    tag < limit → tag_type m tag ≢ 0 → GoodTag m tag × GoodTags n m limit (next_tag m tag)

module _ {κ} (P : Pmm → Type κ) (body : ℕ → Pmm → Pmm)
    (keep : (e : ℕ) (s : Pmm) → P s → P (body e s)) where
  each_entry_keeps :
      (n i : ℕ) (m : Memory) (tag : ℕ) (s : Pmm) → P s → P (each_entry n i m tag body s)
  unfolding each_entry
  each_entry_keeps zero i m tag s h = h
  each_entry_keeps (suc n) i m tag s h = each_entry_keeps n (i + 1) m tag _ (keep _ s h)

  visit_keeps :
      (m : Memory) (tag : ℕ) (s : Pmm)
      → GoodTag m tag
      → P s
      → (t : Pmm) × (visit m tag body s ≡ some t) × P t
  unfolding visit
  visit_keeps m tag s good h = elim (Bool-cases (tag_type m tag == 6)) [
    | inr e ↦ (s, rw e refl, h)
    | inl e ↦
        let ne : (entry_size m tag == 0) ≡ false = ground (arith, good.2) in
        (
          each_entry (entry_count m tag) 0 m tag body s,
          rw (e, ne) refl,
          each_entry_keeps (entry_count m tag) 0 m tag s h,
        )
  ]

  -- With fuel for one tag in each 8 bytes the walk ends, and what the body keeps is kept.
  pub each_tag_keeps :
      (fuel : ℕ) (m : Memory) (limit tag : ℕ) (s : Pmm)
      → GoodTags (suc fuel) m limit tag
      → limit ≤ tag + 8 * fuel
      → P s
      → (t : Pmm) × (each_tag (suc fuel) m limit tag body s ≡ some t) × P t
  unfolding each_tag
  each_tag_keeps zero m limit tag s good enough h =
      let stop : (ltb tag limit && not (tag_type m tag == 0)) ≡ false = ground arith in
      (s, rw (stop, each_tag) refl, h)
  each_tag_keeps (suc fuel) m limit tag s good enough h =
      elim (Bool-cases (ltb tag limit && not (tag_type m tag == 0))) [
        | inr e ↦ (s, rw (e, each_tag) refl, h)
        | inl e ↦
            let (here, further) = good (ground arith) (ground arith) in
            let (t, et, ht) = visit_keeps m tag s here h in
            rw (e, each_tag, et)
              (each_tag_keeps fuel m limit (next_tag m tag) t further
                (omega (arith, here.0, here.1)) ht)
      ]
