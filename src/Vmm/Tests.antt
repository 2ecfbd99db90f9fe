-- ===== src/Vmm/Tests.antt =====
-- The tables that the boot code leaves, in 16 pages: a page of the heap is mapped and unmapped.
use fobos_os.Base.{
  ℕ, ◌≡◌, refl, none, some, List, [], ◌==◌, arith, if◌then◌else◌, Bool-cases, inl, inr, leb, ltb,
  ◌&&◌, ◌+◌, ◌-◌, ◌*◌, ◌/◌, ◌^◌, ◌<◌, ◌≤◌, ap, sym, ◌∙◌, false,
}
use fobos_os.Pmm.{Pmm, bit_get, pmm_alloc_frame, find_clear, grant, take_page, bit_set}
use fobos_os.Pmm.Inv.{IsValid, count_clear}
use fobos_os.Vmm.{
  present, slot, Vmm, vmm_map_page, vmm_unmap_page, vmm_get_phys, make_tables, next_table, walk,
}
use fobos_os.Vmm.Walk.{first, path_of, Owner, IsTree}
use fobos_os.Vmm.Mapping.{MapOutcome, vmm_map_page-MapOutcome}
use fobos_os.Vmm.Unmapping.{Unmapped, vmm_unmap_page-Unmapped}

-- Pages 0 to 6 are in use.
abbrev pages : Pmm
pages = record {
  bitmap = λ k. if k == 0 then 127 else 0;
  total_pages = 16;
  free_pages = 9;
  last_index = 7;
}

-- The tables of the boot code, here from page 1 on: the root, whose entry 0 leads to a table with
-- four entries, and the four tables of 2 MB pages that those lead to.
abbrev boot_tables : ℕ → ℕ
boot_tables a =
    if a == 0x1000
    then 0x2003
    else if leb 0x2000 a && ltb a 0x2020
    then 0x3000 + (a - 0x2000) / 8 * 0x1000 + 3
    else if leb 0x3000 a && ltb a 0x7000
    then (a - 0x3000) / 8 * 2 ^ 21 + 0x83
    else 0

abbrev start : Vmm
start = record { pml4 = 0x1000; memory = boot_tables; frames = pages }

pages-IsValid : IsValid pages
unfolding count_clear bit_get
pages-IsValid = record {
  bytes = λ k. ground arith;
  small = omega arith;
  counted = refl;
  from_one = omega arith;
  to_end = omega arith;
}

abbrev owner : Owner
owner t = if t == 4096 then some [] else none

root_path : (t : ℕ) (p : List ℕ) → owner t ≡ some p → first p ≡ 1
root_path t p o = elim (Bool-cases (t == 4096)) [
  | inl k ↦ let o' : some [] ≡ some p = rw k at o in ap (λ x. first (path_of x)) (sym o')
  | inr k ↦ let o' = rw k at o in ground (arith, o')
]

-- Behind its first entry the root is empty.
rest_of_root : (i : ℕ) → 1 ≤ i → i < 512 → present (boot_tables (slot 4096 i)) ≡ false
rest_of_root i lo hi =
    let not_first : (slot 4096 i == 0x1000) ≡ false = ground (arith, lo) in
    let below : leb 0x2000 (slot 4096 i) ≡ false = ground (arith, hi) in
    let below' : leb 0x3000 (slot 4096 i) ≡ false = ground (arith, hi) in
    rw (not_first, below, below') refl

owned : (t : ℕ) (p : List ℕ) → owner t ≡ some p → t ≡ 4096
owned t p o = elim (Bool-cases (t == 4096)) [
  | inl k ↦ ground (arith, k)
  | inr k ↦ let o' = rw k at o in ground (arith, o')
]

start-IsTree : IsTree start owner
unfolding bit_get
start-IsTree = record {
  frames_valid = pages-IsValid;
  root = refl;
  aligned = λ t p o. let e = owned t p o in omega (arith, e);
  in_use = λ t p o. rw (owned t p o) refl;
  child = λ t i p o l b f k.
      let e = owned t p o in
      let off : present (boot_tables (slot t i)) ≡ false =
        ap (λ x. present (boot_tables (slot x i))) e
        ∙ rest_of_root i (omega (arith, f, root_path t p o)) b in
      ground (arith, off, k);
}

mapped : vmm_get_phys 0xFFFF900000001234 (vmm_map_page 0xFFFF900000001000 0x9000 3 start).1 ≡ 0x9234
unfolding vmm_get_phys vmm_map_page make_tables next_table walk pmm_alloc_frame find_clear grant
    bit_get take_page bit_set
mapped = refl

vmm_map_page-MapOutcome_example :
    MapOutcome 0xFFFF900000001000 0x9000 start owner
      (vmm_map_page 0xFFFF900000001000 0x9000 3 start)
vmm_map_page-MapOutcome_example =
    vmm_map_page-MapOutcome 0xFFFF900000001000 0x9000 3 start owner start-IsTree (omega arith)
      (omega arith)

outcome :
    MapOutcome 0xFFFF900000001000 0x9000 start owner
      (vmm_map_page 0xFFFF900000001000 0x9000 3 start)
outcome =
    vmm_map_page-MapOutcome 0xFFFF900000001000 0x9000 3 start owner start-IsTree (omega arith)
      (omega arith)

abbrev with_page : Vmm
with_page = (vmm_map_page 0xFFFF900000001000 0x9000 3 start).1

vmm_unmap_page-Unmapped_example :
    Unmapped 0xFFFF900000001000 with_page
      (vmm_unmap_page 0xFFFF900000001000 with_page)
      outcome.owner
vmm_unmap_page-Unmapped_example =
    vmm_unmap_page-Unmapped 0xFFFF900000001000 with_page outcome.owner outcome.tree (omega arith)
