-- ===== src/Vmm/Walk.antt =====
-- The tree of tables of kernel/vmm.c: which page is the table of which indices, and what a lookup
-- makes of a change of memory.
use fobos_os.Base.{
  ℕ, suc, ◌+◌, ◌/◌, ◌%◌, ◌<◌, ◌≤◌, ◌≡◌, ◌≢◌, refl, sym, ap, ◌∙◌, inl, inr, true, false, Option,
  none, some, List, [], ◌∷◌, ◌++◌, length, ◌==◌, arith, update, Bool-cases,
}
use fobos_os.Pmm.Inv.{IsValid, used}
use fobos_os.Vmm.{Vmm, present, address_of, slot, walk}

-- The path of a table: the indices that lead to it, the last one first.
abbrev pub Owner : Type 0
Owner = ℕ → Option (List ℕ)

-- The first index below a path that the tree goes by. The root's entry 0 is left out: under it the
-- boot code has mapped the low addresses, in entries that are 2 MB pages and not tables.
abbrev pub first : List ℕ → ℕ
first [] = 1
first (i ∷ p) = 0

-- Each present entry of an upper table leads to the page that has the path of the table and the
-- index; so no two entries lead to one table. The pages of tables are in use.
pub record IsTree (s : Vmm) (owner : Owner) : Type 0 where
  pub frames_valid : IsValid s.frames
  pub root : owner s.pml4 ≡ some []
  pub aligned : (t : ℕ) (p : List ℕ) → owner t ≡ some p → t % 4096 ≡ 0
  pub in_use : (t : ℕ) (p : List ℕ) → owner t ≡ some p → used s.frames (t / 4096) ≡ true
  pub child :
      (t i : ℕ) (p : List ℕ)
      → owner t ≡ some p
      → length p ≤ 2
      → i < 512
      → first p ≤ i
      → present (s.memory (slot t i)) ≡ true
      → owner (address_of (s.memory (slot t i))) ≡ some (i ∷ p)

-- The indices below `p`, one after the other.
abbrev pub onto : List ℕ → List ℕ → List ℕ
onto [] p = p
onto (i ∷ is) p = onto is (i ∷ p)

abbrev pub AllIndices : List ℕ → Type 0
AllIndices [] = true ≡ true
AllIndices (i ∷ is) = (i < 512) × AllIndices is

-- Where a lookup stands: at a page, or at the table of a path that is no longer than the levels
-- above.
abbrev pub Stands : Owner → List ℕ → ℕ → List ℕ → Type 0
Stands owner [] tbl p = true ≡ true
Stands owner (i ∷ is) tbl p =
    (owner tbl ≡ some p) × (length p + suc (length is) ≤ 4) × (first p ≤ i)

abbrev pub value_of : Option ℕ → ℕ
value_of none = 0
value_of (some x) = x

abbrev pub path_of : Option (List ℕ) → List ℕ
path_of none = []
path_of (some p) = p

pub same_slot :
    (t t' i i' : ℕ)
    → t % 4096 ≡ 0
    → t' % 4096 ≡ 0
    → i < 512
    → i' < 512
    → slot t i ≡ slot t' i'
    → (t ≡ t') × (i ≡ i')
same_slot t t' i i' a a' b b' e = (omega (arith, a, a', b, b', e), omega (arith, a, a', b, b', e))

-- A write at an entry that the lookup does not come to leaves it as it was.
module _ (s : Vmm) (owner : Owner) (h : IsTree s owner) where
  pub Stands-below :
      (i : ℕ) (is : List ℕ) (tbl : ℕ) (p : List ℕ)
      → i < 512
      → Stands owner (i ∷ is) tbl p
      → present (s.memory (slot tbl i)) ≡ true
      → Stands owner is (address_of (s.memory (slot tbl i))) (i ∷ p)
  Stands-below i [] tbl p b st k = refl
  Stands-below i (j ∷ is) tbl p b st k =
      (h.child tbl i p st.0 (omega (arith, st.1)) b st.2 k, omega (arith, st.1), omega arith)

  clash :
      (t i : ℕ) (path : List ℕ)
      → owner t ≡ some path
      → length path ≡ 3
      → i < 512
      → (j : ℕ) (is : List ℕ) (tbl : ℕ) (p : List ℕ) → j < 512
      → Stands owner (j ∷ is) tbl p
      → slot tbl j ≡ slot t i
      → onto is (j ∷ p) ≡ i ∷ path
  clash t i path o l b j is tbl p c st e =
      let (et, ei) = same_slot tbl t j i (h.aligned tbl p st.0) (h.aligned t path o) c b e in
      let paths : p ≡ path = ap path_of (sym st.0 ∙ ap owner et ∙ o) in
      let none_left : length is ≡ 0 = omega (arith, st.1, ap length paths, l) in
      last is none_left ei paths
    where
      last : (is : List ℕ) → length is ≡ 0 → j ≡ i → p ≡ path → onto is (j ∷ p) ≡ i ∷ path
      last [] z ei paths = rw (ei, paths) refl
      last (x ∷ is) z ei paths = absurd (omega (arith, z))

  pub walk-update :
      (t i v : ℕ) (path : List ℕ)
      → owner t ≡ some path
      → length path ≡ 3
      → i < 512
      → (is : List ℕ) (tbl : ℕ) (p : List ℕ) → AllIndices is
      → Stands owner is tbl p
      → onto is p ≢ i ∷ path
      → walk (update s.memory (slot t i) v) is tbl ≡ walk s.memory is tbl
  unfolding walk
  walk-update t i v path o l b [] tbl p all st ne = refl
  walk-update t i v path o l b (j ∷ is) tbl p all st ne =
      elim (Bool-cases (slot tbl j == slot t i)) [
        | inl k ↦ absurd (ne (clash t i path o l b j is tbl p all.0 st (ground (arith, k))))
        | inr k ↦ elim (Bool-cases (present (s.memory (slot tbl j)))) [
          | inl f ↦
              let later =
                walk-update t i v path o l b is (address_of (s.memory (slot tbl j))) (j ∷ p) all.1
                  (Stands-below j is tbl p all.0 st f) ne in
              rw (k, f) later
          | inr f ↦ rw (k, f) refl
        ]
      ]

  -- The tables above the lowest stay as they are under such a write.
  pub IsTree-update :
      (t i v : ℕ) (path : List ℕ)
      → owner t ≡ some path
      → length path ≡ 3
      → i < 512
      → IsTree (record s { memory = update s.memory (slot t i) v }) owner
  IsTree-update t i v path o l b = record {
    frames_valid = h.frames_valid;
    root = h.root;
    aligned = h.aligned;
    in_use = h.in_use;
    child = λ t' j p o' l' b' f k.
        let same : (slot t' j == slot t i) ≡ false = elsewhere t' j p o' l' b' in
        let old : update s.memory (slot t i) v (slot t' j) ≡ s.memory (slot t' j) = rw same refl in
        ap (λ w. owner (address_of w)) old ∙ h.child t' j p o' l' b' f (ap present (sym old) ∙ k);
  }
    where
      elsewhere :
          (t' j : ℕ) (p : List ℕ)
          → owner t' ≡ some p
          → length p ≤ 2
          → j < 512
          → (slot t' j == slot t i) ≡ false
      elsewhere t' j p o' l' b' = elim (Bool-cases (slot t' j == slot t i)) [
        | inl k ↦
            let same =
              same_slot t' t j i (h.aligned t' p o') (h.aligned t path o) b' b
                (ground (arith, k)) in
            let paths : p ≡ path = ap path_of (sym o' ∙ ap owner same.0 ∙ o) in
            absurd (omega (arith, ap length paths, l, l'))
        | inr k ↦ k
      ]

-- The indices to go on with, below a path.
abbrev pub From : List ℕ → List ℕ → Type 0
From [] p = true ≡ true
From (i ∷ is) p = first p ≤ i

pub From-below : (i : ℕ) (is p : List ℕ) → From is (i ∷ p)
From-below i [] p = refl
From-below i (j ∷ is) p = omega arith

-- A lookup goes on where the first part of it ends.
pub walk-append :
    (m : ℕ → ℕ) (is js : List ℕ) (t t' : ℕ)
    → walk m is t ≡ some t'
    → walk m (is ++ js) t ≡ walk m js t'
unfolding walk
walk-append m [] js t t' e = ap (λ o. walk m js (value_of o)) e
walk-append m (i ∷ is) js t t' e = elim (Bool-cases (present (m (slot t i)))) [
  | inl k ↦ rw k (walk-append m is js (address_of (m (slot t i))) t' (rw k at e))
  | inr k ↦ let e' = rw k at e in ground (arith, e')
]
