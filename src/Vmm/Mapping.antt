-- ===== src/Vmm/Mapping.antt =====
-- `vmm_map_page` and `vmm_unmap_page` of kernel/vmm.c seen through `vmm_get_phys`.
use fobos_os.Base.{
  ℕ, ◌+◌, ◌/◌, ◌%◌, ◌^◌, ◌<◌, ◌≡◌, ◌≢◌, refl, ap, ◌∙◌, ◌⊎◌, inl, inr, bit_or, bit_or_below_8,
  bit_or_one, Bool, true, false, Option, none, some, [], ◌∷◌, length, ◌==◌, get_or, arith,
  if◌then◌else◌, update, Bool-cases, ◌≤◌, ◌*◌, sym,
}
use fobos_os.Vmm.{
  Vmm, present, address_of, slot, walk, make_tables, upper_indices, lowest_index, all_indices,
  page_entry, with_offset, set_page, vmm_map_page, vmm_get_phys,
}
use fobos_os.Vmm.Walk.{Owner, IsTree, AllIndices, onto, walk-update, IsTree-update, walk-append}
use fobos_os.Pmm.Inv.{used}
use fobos_os.Vmm.Step.{Extends, AllUsed, MadeTables, make_tables_lem}

-- The number of the page of an address, on the 36 bits that the tables go by.
abbrev pub page_of : ℕ → ℕ
page_of va = va / 4096 % 2 ^ 36

indices_of_page :
    (va : ℕ)
    → (va / 2 ^ 39 % 512 ≡ page_of va / 2 ^ 27)
      × (va / 2 ^ 30 % 512 ≡ page_of va / 2 ^ 18 % 512)
      × (va / 2 ^ 21 % 512 ≡ page_of va / 2 ^ 9 % 512)
      × (va / 2 ^ 12 % 512 ≡ page_of va % 512)
indices_of_page va = (omega arith, omega arith, omega arith, omega arith)

pub same_indices : (a b : ℕ) → page_of a ≡ page_of b → all_indices a ≡ all_indices b
same_indices a b e =
    let (a4, a3, a2, a1) = indices_of_page a in
    let (b4, b3, b2, b1) = indices_of_page b in rw (a4, a3, a2, a1, b4, b3, b2, b1, e) refl

page_of_indices :
    (a b : ℕ)
    → a / 2 ^ 39 % 512 ≡ b / 2 ^ 39 % 512
    → a / 2 ^ 30 % 512 ≡ b / 2 ^ 30 % 512
    → a / 2 ^ 21 % 512 ≡ b / 2 ^ 21 % 512
    → a / 2 ^ 12 % 512 ≡ b / 2 ^ 12 % 512
    → page_of a ≡ page_of b
page_of_indices a b e4 e3 e2 e1 =
    let (a4, a3, a2, a1) = indices_of_page a in
    let (b4, b3, b2, b1) = indices_of_page b in
    omega (arith, a4, a3, a2, a1, b4, b3, b2, b1, e4, e3, e2, e1)

-- Different pages are at the ends of different paths.
paths_differ :
    (a b : ℕ)
    → (page_of a == page_of b) ≡ false
    → onto (all_indices a) [] ≢ lowest_index b ∷ onto (upper_indices b) []
paths_differ a b k e =
    let same : page_of a ≡ page_of b =
      page_of_indices a b (ap (λ l. get_or l 3 0) e) (ap (λ l. get_or l 2 0) e)
        (ap (λ l. get_or l 1 0) e) (ap (λ l. get_or l 0 0) e) in
    ground (arith, k, same)

pub AllIndices-all : (va : ℕ) → AllIndices (all_indices va)
AllIndices-all va = (omega arith, (omega arith, (omega arith, (omega arith, refl))))

pub AllIndices-upper : (va : ℕ) → AllIndices (upper_indices va)
AllIndices-upper va = (omega arith, (omega arith, (omega arith, refl)))

abbrev pub entry_page : ℕ → Option ℕ
entry_page v = if present v then some (address_of v) else none

-- The addresses that the tree of tables is about: all but the lowest 512 GB.
abbrev pub High : ℕ → Type 0
High va = 1 ≤ va / 2 ^ 39 % 512

-- A new value `v` of the lowest entry of `va`, in table `t`.
module _ (s : Vmm) (owner : Owner) (h : IsTree s owner) (va t v : ℕ)
    (o : owner t ≡ some (onto (upper_indices va) []))
    (there : walk s.memory (upper_indices va) s.pml4 ≡ some t) (high : High va) where
  abbrev pub written : Vmm
  written = record s { memory = update s.memory (slot t (lowest_index va)) v }

  pub IsTree-written : IsTree written owner
  IsTree-written =
      IsTree-update s owner h t (lowest_index va) v (onto (upper_indices va) []) o refl
        (omega arith)

  walk_here : walk written.memory (all_indices va) s.pml4 ≡ entry_page v
  unfolding walk
  walk_here =
      let upper : walk written.memory (upper_indices va) s.pml4 ≡ some t =
        walk-update s owner h t (lowest_index va) v (onto (upper_indices va) []) o refl
          (omega arith) (upper_indices va) s.pml4 [] (AllIndices-upper va)
          (h.root, omega arith, high) shorter
        ∙ there in
      let self : (slot t (lowest_index va) == slot t (lowest_index va)) ≡ true = ground arith in
      walk-append written.memory (upper_indices va) (lowest_index va ∷ []) s.pml4 t upper
      ∙ rw self refl
    where
      shorter : onto (upper_indices va) [] ≢ lowest_index va ∷ onto (upper_indices va) []
      shorter e = let l : 3 ≡ 4 = ap length e in omega (arith, l)

  -- Pages without a table are as they were.
  pub memory-written : (a : ℕ) → owner (a / 4096 * 4096) ≡ none → written.memory a ≡ s.memory a
  memory-written a n = elim (Bool-cases (a == slot t (lowest_index va))) [
    | inl e ↦
        let same : a ≡ slot t (lowest_index va) = ground (arith, e) in
        let page : a / 4096 * 4096 ≡ t =
          omega (arith, same, h.aligned t (onto (upper_indices va) []) o) in
        let clash : none ≡ some (onto (upper_indices va) []) = sym n ∙ ap owner page ∙ o in
        ground (arith, clash)
    | inr e ↦ rw e refl
  ]

  pub vmm_get_phys-written :
      (va' : ℕ)
      → High va'
      → vmm_get_phys va' written
        ≡ (if page_of va' == page_of va then with_offset va' (entry_page v) else vmm_get_phys va' s)
  unfolding vmm_get_phys
  vmm_get_phys-written va' high' = elim (Bool-cases (page_of va' == page_of va)) [
    | inl k ↦
        let same = same_indices va' va (ground (arith, k)) in
        rw k (ap (with_offset va') (ap (λ is. walk written.memory is s.pml4) same ∙ walk_here))
    | inr k ↦ rw k (
        ap (with_offset va') (
          walk-update s owner h t (lowest_index va) v (onto (upper_indices va) []) o refl
            (omega arith) (all_indices va') s.pml4 [] (AllIndices-all va')
            (h.root, omega arith, high') (paths_differ va' va k)))
  ]

address_of-page_entry :
    (pa flags : ℕ) → flags < 8 → address_of (page_entry pa flags) ≡ address_of pa
address_of-page_entry pa flags b =
    let first = bit_or_below_8 (address_of pa) flags b in
    let one = bit_or_below_8 (bit_or (address_of pa) flags) 1 (omega arith) in
    omega (arith, first, one)

entry_page-page_entry :
    (pa flags : ℕ) → flags < 8 → entry_page (page_entry pa flags) ≡ some (address_of pa)
entry_page-page_entry pa flags b =
    let odd = bit_or_one (bit_or (address_of pa) flags) in
    let k : present (page_entry pa flags) ≡ true = ground (arith, odd) in
    rw k (ap some (address_of-page_entry pa flags b))

-- Every address gives what it gave; or those of the page of `va` give the page `pa`.
abbrev pub Unmoved : Vmm → Vmm → Type 0
Unmoved s s' = (va' : ℕ) → High va' → vmm_get_phys va' s' ≡ vmm_get_phys va' s

abbrev pub MappedTo : ℕ → ℕ → Vmm → Vmm → Type 0
MappedTo va pa s s' =
    (va' : ℕ)
    → High va'
    → vmm_get_phys va' s'
      ≡ (if page_of va' == page_of va then address_of pa + va' % 4096 else vmm_get_phys va' s)

-- What mapping a page leaves: the tree of tables, the root, and one of the two lookups.
pub record MapOutcome (va pa : ℕ) (s : Vmm) (before : Owner) (r : Bool × Vmm) : Type 0 where
  pub owner : Owner
  pub tree : IsTree r.1 owner
  pub same_root : r.1.pml4 ≡ s.pml4
  -- what is in use and no table stays as it is
  pub untouched :
      (a : ℕ)
      → used s.frames (a / 4096) ≡ true
      → before (a / 4096 * 4096) ≡ none
      → r.1.memory a ≡ s.memory a
  pub lookups :
      ((r.0 ≡ true) × MappedTo va pa s r.1) ⊎ ((r.0 ≡ false) × Unmoved s r.1 × AllUsed r.1)

Unmoved-Extends :
    (s s' : Vmm) (owner owner' : Owner) → IsTree s owner → Extends s s' owner owner' → Unmoved s s'
unfolding vmm_get_phys
Unmoved-Extends s s' owner owner' h e va' high' =
    ap (λ t. with_offset va' (walk s'.memory (all_indices va') t)) e.same_root
    ∙ ap (with_offset va')
        (e.walks (all_indices va') s.pml4 [] refl (AllIndices-all va') (h.root, omega arith, high'))

MapOutcome-set_page :
    (va pa flags : ℕ) (s : Vmm) (owner : Owner)
    → IsTree s owner
    → flags < 8
    → High va
    → (r : Option ℕ × Vmm) → MadeTables s owner (upper_indices va) s.pml4 [] r
    → MapOutcome va pa s owner (set_page va pa flags r)
MapOutcome-set_page va pa flags s owner h b high (none, s') (owner', e, full) = record {
  owner = owner';
  tree = e.tree;
  same_root = e.same_root;
  lookups = inr (refl, Unmoved-Extends s s' owner owner' h e, full);
  untouched = λ a u n. (e.untouched a u n).1;
}
MapOutcome-set_page va pa flags s owner h b high (some t, s') (owner', e, (o, there)) =
    let v = page_entry pa flags in
    let root : walk s'.memory (upper_indices va) s'.pml4 ≡ some t =
      ap (walk s'.memory (upper_indices va)) e.same_root ∙ there in
    record {
      owner = owner';
      tree = IsTree-written s' owner' e.tree va t v o root high;
      same_root = e.same_root;
      lookups = inl (
        refl,
        λ va' high'.
            vmm_get_phys-written s' owner' e.tree va t v o root high va' high'
            ∙ ap (λ x. if page_of va' == page_of va then x else vmm_get_phys va' s')
                (ap (with_offset va') (entry_page-page_entry pa flags b))
            ∙ ap (λ x. if page_of va' == page_of va then address_of pa + va' % 4096 else x)
                (Unmoved-Extends s s' owner owner' h e va' high'),
      );
      untouched = λ a u n.
          let (n', same) = e.untouched a u n in
          memory-written s' owner' e.tree va t v o root high a n' ∙ same;
    }

-- Under every entry of the root but the first, where the boot code has its 2 MB pages, let the
-- tables form a tree whose pages the page allocator holds in use. Then vmm_map_page, for an address
-- under such an entry and flags below 8, leaves such a tree with the same root, and does not write
-- to a page in use that is no table of it. When it succeeds, vmm_get_phys gives the new page for
-- the addresses of the page that it maps and what it gave before for every other under these
-- entries; when it fails, no page is free and each of these lookups gives what it gave.
pub vmm_map_page-MapOutcome :
    (va pa flags : ℕ) (s : Vmm) (owner : Owner)
    → IsTree s owner
    → flags < 8
    → High va
    → MapOutcome va pa s owner (vmm_map_page va pa flags s)
unfolding vmm_map_page
vmm_map_page-MapOutcome va pa flags s owner h b high =
    MapOutcome-set_page va pa flags s owner h b high (make_tables (upper_indices va) flags s.pml4 s)
      (make_tables_lem (upper_indices va) flags s.pml4 [] s owner h h.root (omega arith)
        (AllIndices-upper va) high)
