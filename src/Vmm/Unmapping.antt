-- ===== src/Vmm/Unmapping.antt =====
-- `vmm_unmap_page` of kernel/vmm.c seen through `vmm_get_phys`.
use fobos_os.Base.{
  ℕ, ◌+◌, ◌≤◌, ◌≡◌, refl, sym, ap, ◌∙◌, inl, inr, Option, none, some, List, [], ◌∷◌, ◌++◌, length,
  ◌==◌, arith, if◌then◌else◌, Bool-cases, ◌*◌, ◌/◌,
}
use fobos_os.Vmm.{
  Vmm, present, address_of, slot, walk, upper_indices, lowest_index, with_offset, clear_entry,
  vmm_unmap_page, vmm_get_phys,
}
use fobos_os.Vmm.Walk.{From, From-below, Owner, IsTree, AllIndices, onto, value_of}
use fobos_os.Vmm.Mapping.{
  High, memory-written, page_of, same_indices, AllIndices-upper, IsTree-written,
  vmm_get_phys-written,
}

-- The table that a lookup comes to has the path of its indices.
walk-owner :
    (s : Vmm) (owner : Owner)
    → IsTree s owner
    → (is : List ℕ) (tbl t : ℕ) (p : List ℕ) → owner tbl ≡ some p
    → From is p
    → length p + length is ≤ 3
    → AllIndices is
    → walk s.memory is tbl ≡ some t
    → owner t ≡ some (onto is p)
unfolding walk
walk-owner s owner h [] tbl t p o from l all e = ap (λ x. owner (value_of x)) (sym e) ∙ o
walk-owner s owner h (i ∷ is) tbl t p o from l all e =
    elim (Bool-cases (present (s.memory (slot tbl i)))) [
      | inl k ↦
          walk-owner s owner h is (address_of (s.memory (slot tbl i))) t (i ∷ p)
            (h.child tbl i p o (omega (arith, l)) all.0 from k) (From-below i is p)
            (omega (arith, l)) all.1 (rw k at e)
      | inr k ↦ let e' = rw k at e in ground (arith, e')
    ]

walk-append_none :
    (m : ℕ → ℕ) (is js : List ℕ) (t : ℕ) → walk m is t ≡ none → walk m (is ++ js) t ≡ none
unfolding walk
walk-append_none m [] js t e = ground (arith, e)
walk-append_none m (i ∷ is) js t e = elim (Bool-cases (present (m (slot t i)))) [
  | inl k ↦ rw k (walk-append_none m is js (address_of (m (slot t i))) (rw k at e))
  | inr k ↦ rw k refl
]

-- No address of the page of `va` is mapped, and every other gives what it gave.
pub record Unmapped (va : ℕ) (s s' : Vmm) (owner : Owner) : Type 0 where
  pub tree : IsTree s' owner
  pub same_root : s'.pml4 ≡ s.pml4
  pub same_frames : s'.frames ≡ s.frames
  -- what is no table stays as it is
  pub untouched : (a : ℕ) → owner (a / 4096 * 4096) ≡ none → s'.memory a ≡ s.memory a
  pub lookups :
      (va' : ℕ)
      → High va'
      → vmm_get_phys va' s' ≡ (if page_of va' == page_of va then 0 else vmm_get_phys va' s)

clear_entry-Unmapped :
    (va : ℕ) (s : Vmm) (owner : Owner) (x : Option ℕ)
    → IsTree s owner
    → High va
    → walk s.memory (upper_indices va) s.pml4 ≡ x
    → Unmapped va s (clear_entry va s x) owner
unfolding vmm_get_phys
clear_entry-Unmapped va s owner none h high e = record {
  tree = h;
  same_root = refl;
  same_frames = refl;
  untouched = λ a n. refl;
  lookups = λ va' high'. elim (Bool-cases (page_of va' == page_of va)) [
    | inl k ↦ rw k (
        ap (λ is. with_offset va' (walk s.memory is s.pml4))
          (same_indices va' va (ground (arith, k)))
        ∙ ap (with_offset va')
            (walk-append_none s.memory (upper_indices va) (lowest_index va ∷ []) s.pml4 e))
    | inr k ↦ rw k refl
  ];
}
clear_entry-Unmapped va s owner (some t) h high e =
    let o =
      walk-owner s owner h (upper_indices va) s.pml4 t [] h.root high (omega arith)
        (AllIndices-upper va) e in
    record {
      tree = IsTree-written s owner h va t 0 o e high;
      untouched = memory-written s owner h va t 0 o e high;
      same_root = refl;
      same_frames = refl;
      lookups = vmm_get_phys-written s owner h va t 0 o e high;
    }

-- Under every entry of the root but the first, where the boot code has its 2 MB pages, let the
-- tables form a tree whose pages the page allocator holds in use. Then vmm_unmap_page, for an
-- address under such an entry, keeps the tree, its root and the page allocator, and does not write
-- to a page that is no table of it; after it vmm_get_phys gives 0 for the addresses of that page
-- and what it gave before for every other under these entries, whether or not the page was mapped.
pub vmm_unmap_page-Unmapped :
    (va : ℕ) (s : Vmm) (owner : Owner)
    → IsTree s owner
    → High va
    → Unmapped va s (vmm_unmap_page va s) owner
unfolding vmm_unmap_page
vmm_unmap_page-Unmapped va s owner h high =
    clear_entry-Unmapped va s owner (walk s.memory (upper_indices va) s.pml4) h high refl
