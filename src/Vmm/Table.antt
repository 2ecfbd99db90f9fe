-- ===== src/Vmm/Table.antt =====
-- `next_table` of kernel/vmm.c: a table added to the tree is seen by no lookup.
use fobos_os.Base.{
  ℕ, ◌+◌, ◌*◌, ◌/◌, ◌%◌, ◌^◌, ◌<◌, ◌≤◌, ◌≡◌, ◌≢◌, refl, sym, ap, ◌∙◌, ◌⊎◌, inl, inr, bit_or,
  bit_or_below_8, bit_or_odd_left, bit_or_one, Bool, true, false, Option, none, some, List, [], ◌∷◌,
  length, ◌==◌, ◌&&◌, leb, ltb, arith, if◌then◌else◌, update, Bool-cases,
}
use fobos_os.Pmm.{Pmm}
use fobos_os.Pmm.Inv.{IsValid, used}
use fobos_os.Vmm.{Vmm, present, address_of, slot, clear_page, table_entry, walk, page_write}
use fobos_os.Vmm.Walk.{first, Owner, IsTree, AllIndices, Stands, Stands-below, same_slot, path_of}

-- An entry holds the page it was made of.
address_of-or : (a b : ℕ) → a / 8 ≡ b / 8 → address_of a ≡ address_of b
address_of-or a b e = omega (arith, e)

pub address_of-table_entry :
    (p flags : ℕ) → p % 4096 ≡ 0 → p < 2 ^ 52 → address_of (table_entry p flags) ≡ p
address_of-table_entry p flags a b =
    let one = bit_or_below_8 p 1 (omega arith) in
    let two = bit_or_below_8 (bit_or p 1) page_write (omega arith) in
    let user = bit_or_below_8 (bit_or (bit_or p 1) page_write) (flags / 4 % 2 * 4) (omega arith) in
    address_of-or (table_entry p flags) p (omega (arith, one, two, user)) ∙ omega (arith, a, b)

pub present-table_entry : (p flags : ℕ) → present (table_entry p flags) ≡ true
present-table_entry p flags =
    let one = bit_or_one p in
    let two = bit_or_odd_left (bit_or p 1) page_write one in
    let user = bit_or_odd_left (bit_or (bit_or p 1) page_write) (flags / 4 % 2 * 4) two in
    ground (arith, user)

-- A page `fresh` that no table has becomes the table at entry `i` of `t`.
module _ (s : Vmm) (owner : Owner) (h : IsTree s owner) (t i fresh v : ℕ) (path : List ℕ)
    (o : owner t ≡ some path) (upper : length path ≤ 2) (bound : i < 512)
    (absent : present (s.memory (slot t i)) ≡ false) (unowned : owner fresh ≡ none)
    (aligned : fresh % 4096 ≡ 0) (holds : address_of v ≡ fresh) where
  abbrev pub grown : ℕ → ℕ
  grown = update (clear_page fresh s.memory) (slot t i) v

  not_fresh : (t' : ℕ) (p : List ℕ) → owner t' ≡ some p → t' ≢ fresh
  not_fresh t' p o' e =
      let clash : none ≡ some p = sym unowned ∙ ap owner (sym e) ∙ o' in ground (arith, clash)

  grown-fresh : (j : ℕ) → j < 512 → grown (slot fresh j) ≡ 0
  grown-fresh j b =
      let ne = not_fresh t path o in
      let other : (slot fresh j == slot t i) ≡ false =
        ground (arith, ne, aligned, h.aligned t path o, b, bound) in
      let lo : leb fresh (slot fresh j) ≡ true = ground arith in
      let hi : ltb (slot fresh j) (fresh + 4096) ≡ true = ground (arith, b) in
      rw (other, lo, hi) refl

  pub grown_other :
      (t' j : ℕ) (p : List ℕ)
      → owner t' ≡ some p
      → j < 512
      → (slot t' j == slot t i) ≡ false
      → grown (slot t' j) ≡ s.memory (slot t' j)
  grown_other t' j p o' b k =
      let ne = not_fresh t' p o' in
      let outside : (leb fresh (slot t' j) && ltb (slot t' j) (fresh + 4096)) ≡ false =
        outside_page t' j (h.aligned t' p o') ne b in
      rw (k, outside) refl
    where
      outside_page :
          (t' j : ℕ)
          → t' % 4096 ≡ 0
          → t' ≢ fresh
          → j < 512
          → (leb fresh (slot t' j) && ltb (slot t' j) (fresh + 4096)) ≡ false
      outside_page t' j a ne b = ground (arith, a, ne, b, aligned)

  -- Entry `i` of `t` again.
  at_slot :
      (t' j : ℕ) (p : List ℕ)
      → owner t' ≡ some p
      → j < 512
      → (slot t' j == slot t i) ≡ true
      → (t' ≡ t) × (j ≡ i) × (p ≡ path)
  at_slot t' j p o' b k =
      let same : slot t' j ≡ slot t i = ground (arith, k) in
      let (et, ei) = same_slot t' t j i (h.aligned t' p o') (h.aligned t path o) b bound same in
      (et, ei, ap path_of (sym o' ∙ ap owner et ∙ o))

  -- Nothing is found through the new table, as nothing was found before.
  empty_walk : (is : List ℕ) → AllIndices is → 1 ≤ length is → walk grown is fresh ≡ none
  unfolding walk
  empty_walk [] all b = absurd (omega (arith, b))
  empty_walk (j ∷ is) all b =
      let zero_entry = grown-fresh j all.0 in
      let off : present (grown (slot fresh j)) ≡ false = ground (arith, zero_entry) in
      ap (λ c. if c then walk grown is (address_of (grown (slot fresh j))) else none) off

  pub walk-grown :
      (is : List ℕ) (tbl : ℕ) (p : List ℕ)
      → length p + length is ≡ 4
      → AllIndices is
      → Stands owner is tbl p
      → walk grown is tbl ≡ walk s.memory is tbl
  unfolding walk
  walk-grown [] tbl p full all st = refl
  walk-grown (j ∷ is) tbl p full all st = elim (Bool-cases (slot tbl j == slot t i)) [
    | inl k ↦
        let (et, ej, ep) = at_slot tbl j p st.0 all.0 k in
        let before : present (s.memory (slot tbl j)) ≡ false =
          ap (λ a. present (s.memory a)) (ground (arith, k)) ∙ absent in
        let nothing : walk grown is (address_of v) ≡ none =
          ap (walk grown is) holds
          ∙ empty_walk is all.1 (omega (arith, full, ap length ep, upper)) in
        rw (k, before) (either (present v) nothing)
    | inr k ↦
        let same = grown_other tbl j p st.0 all.0 k in
        ap (λ w. if present w then walk grown is (address_of w) else none) same
        ∙ elim (Bool-cases (present (s.memory (slot tbl j)))) [
          | inl f ↦
              let later =
                walk-grown is (address_of (s.memory (slot tbl j))) (j ∷ p) (omega (arith, full))
                  all.1 (Stands-below s owner h j is tbl p all.0 st f) in
              rw f later
          | inr f ↦ rw f refl
        ]
  ]
    where
      either : (c : Bool) → {x : Option ℕ} → x ≡ none → (if c then x else none) ≡ none
      either true e = e
      either false e = refl

  abbrev pub grown_owner : Owner
  grown_owner t' = if t' == fresh then some (i ∷ path) else owner t'

  pub grown_owner_old : (t' : ℕ) (p : List ℕ) → owner t' ≡ some p → grown_owner t' ≡ some p
  grown_owner_old t' p o' =
      let ne = not_fresh t' p o' in let k : (t' == fresh) ≡ false = ground (arith, ne) in rw k o'

  grown_owner_cases :
      (t' : ℕ) (p : List ℕ)
      → grown_owner t' ≡ some p
      → ((t' ≡ fresh) × (p ≡ i ∷ path)) ⊎ (owner t' ≡ some p)
  grown_owner_cases t' p o' = elim (Bool-cases (t' == fresh)) [
    | inl k ↦
        let o'' : some (i ∷ path) ≡ some p = rw k at o' in
        inl (ground (arith, k), ap path_of (sym o''))
    | inr k ↦ let o'' : owner t' ≡ some p = rw k at o' in inr o''
  ]

  pub IsTree-grown :
      (frames : Pmm)
      → IsValid frames
      → used frames (fresh / 4096) ≡ true
      → ((j : ℕ) → used s.frames j ≡ true → used frames j ≡ true)
      → IsTree (record s { memory = grown; frames = frames }) grown_owner
  IsTree-grown frames valid taken kept = record {
    frames_valid = valid;
    root = grown_owner_old s.pml4 [] h.root;
    aligned = λ t' p o'. elim (grown_owner_cases t' p o') [
      | inl (e, ep) ↦ omega (arith, e, aligned)
      | inr old ↦ h.aligned t' p old
    ];
    in_use = λ t' p o'. elim (grown_owner_cases t' p o') [
      | inl (e, ep) ↦ rw e taken
      | inr old ↦ kept (t' / 4096) (h.in_use t' p old)
    ];
    child = λ t' j p o' l b f k. elim (grown_owner_cases t' p o') [
      | inl (e, ep) ↦
          let zero_entry : grown (slot t' j) ≡ 0 = ap (λ x. grown (slot x j)) e ∙ grown-fresh j b in
          let off : present (grown (slot t' j)) ≡ false = ground (arith, zero_entry) in
          ground (arith, off, k)
      | inr old ↦ child_of t' j p old l b f k
    ];
  }
    where
      child_of :
          (t' j : ℕ) (p : List ℕ)
          → owner t' ≡ some p
          → length p ≤ 2
          → j < 512
          → first p ≤ j
          → present (grown (slot t' j)) ≡ true
          → grown_owner (address_of (grown (slot t' j))) ≡ some (j ∷ p)
      child_of t' j p old l b f k = elim (Bool-cases (slot t' j == slot t i)) [
        | inl m ↦
            let (et, ej, ep) = at_slot t' j p old b m in
            let page : address_of (grown (slot t' j)) ≡ fresh = rw m holds in
            let self : (fresh == fresh) ≡ true = ground arith in
            ap grown_owner page ∙ rw (self, ej, ep) refl
        | inr m ↦
            let same = grown_other t' j p old b m in
            let k' : present (s.memory (slot t' j)) ≡ true = ap present (sym same) ∙ k in
            ap (λ w. grown_owner (address_of w)) same
            ∙ grown_owner_old (address_of (s.memory (slot t' j))) (j ∷ p)
                (h.child t' j p old l b f k')
      ]
