-- ===== src/Vmm/Step.antt =====
-- The calls of `next_table` of kernel/vmm.c down the levels.
use fobos_os.Base.{
  ℕ, ◌+◌, ◌*◌, ◌/◌, ◌%◌, ◌^◌, ◌<◌, ◌≤◌, ◌≡◌, refl, ap, ◌∙◌, ◌⊎◌, inl, inr, Bool, true, false,
  Option, none, some, List, [], ◌∷◌, length, ◌==◌, arith, if◌then◌else◌, Bool-cases, Option-cases,
  leb, ltb, update, ◌&&◌, sym,
}
use fobos_os.Pmm.{Pmm, pmm_alloc_frame}
use fobos_os.Pmm.Inv.{used}
use fobos_os.Pmm.Frame.{Granted, Exhausted, pmm_alloc_frame_lem}
use fobos_os.Vmm.{
  clear_page, Vmm, present, address_of, slot, table_entry, new_table, next_table, walk, make_tables,
  and_then,
}
use fobos_os.Vmm.Walk.{Owner, IsTree, AllIndices, Stands, From, From-below, first, onto}
use fobos_os.Vmm.Table.{
  address_of-table_entry, present-table_entry, walk-grown, IsTree-grown, grown_owner,
  grown_owner_old, grown_other,
}

-- Tables were added to the tree, and every lookup gives what it gave.
pub record Extends (s s' : Vmm) (owner owner' : Owner) : Type 0 where
  pub tree : IsTree s' owner'
  pub same_root : s'.pml4 ≡ s.pml4
  pub old : (t : ℕ) (p : List ℕ) → owner t ≡ some p → owner' t ≡ some p
  pub walks :
      (is : List ℕ) (tbl : ℕ) (p : List ℕ)
      → length p + length is ≡ 4
      → AllIndices is
      → Stands owner is tbl p
      → walk s'.memory is tbl ≡ walk s.memory is tbl
  pub entries :
      (t i : ℕ) (p : List ℕ)
      → owner t ≡ some p
      → i < 512
      → present (s.memory (slot t i)) ≡ true
      → s'.memory (slot t i) ≡ s.memory (slot t i)
  -- pages in use stay in use and without a table, and what they hold stays
  pub kept : (j : ℕ) → used s.frames j ≡ true → used s'.frames j ≡ true
  pub untouched :
      (a : ℕ)
      → used s.frames (a / 4096) ≡ true
      → owner (a / 4096 * 4096) ≡ none
      → (owner' (a / 4096 * 4096) ≡ none) × (s'.memory a ≡ s.memory a)

Extends-same : (s : Vmm) (owner : Owner) → IsTree s owner → Extends s s owner owner
Extends-same s owner h = record {
  tree = h;
  same_root = refl;
  old = λ t p o. o;
  walks = λ is tbl p l all st. refl;
  entries = λ t i p o b k. refl;
  kept = λ j u. u;
  untouched = λ a u n. (n, refl);
}

Stands-old :
    (owner owner' : Owner)
    → ((t : ℕ) (p : List ℕ) → owner t ≡ some p → owner' t ≡ some p)
    → (is : List ℕ) (tbl : ℕ) (p : List ℕ) → Stands owner is tbl p
    → Stands owner' is tbl p
Stands-old owner owner' old [] tbl p st = st
Stands-old owner owner' old (i ∷ is) tbl p st = (old tbl p st.0, st.1, st.2)

Extends-trans :
    (s0 s1 s2 : Vmm) (o0 o1 o2 : Owner)
    → Extends s0 s1 o0 o1
    → Extends s1 s2 o1 o2
    → Extends s0 s2 o0 o2
Extends-trans s0 s1 s2 o0 o1 o2 a b = record {
  tree = b.tree;
  same_root = b.same_root ∙ a.same_root;
  old = λ t p o. b.old t p (a.old t p o);
  walks = λ is tbl p l all st.
      b.walks is tbl p l all (Stands-old o0 o1 a.old is tbl p st) ∙ a.walks is tbl p l all st;
  entries = λ t i p o c k.
      let first = a.entries t i p o c k in
      b.entries t i p (a.old t p o) c (ap present first ∙ k) ∙ first;
  kept = λ j u. b.kept j (a.kept j u);
  untouched = λ x u n.
      let (n', e) = a.untouched x u n in
      let (n2, e') = b.untouched x (a.kept (x / 4096) u) n' in (n2, e' ∙ e);
}

-- Every page is in use.
abbrev pub AllUsed : Vmm → Type 0
AllUsed s = (j : ℕ) → 1 ≤ j → j < s.frames.total_pages → used s.frames j ≡ true

-- The table that `next_table` gives for entry `i` of `tbl`, or none since every page is in use.
abbrev Next : ℕ → ℕ → List ℕ → Owner → Option ℕ → Vmm → Type 0
Next tbl i p owner' none s' = AllUsed s'
Next tbl i p owner' (some t) s' =
    (owner' t ≡ some (i ∷ p))
    × (present (s'.memory (slot tbl i)) ≡ true)
    × (address_of (s'.memory (slot tbl i)) ≡ t)

module _ (s : Vmm) (owner : Owner) (h : IsTree s owner) (tbl i flags : ℕ) (p : List ℕ)
    (o : owner tbl ≡ some p) (upper : length p ≤ 2) (bound : i < 512) (from : first p ≤ i) where
  abbrev NextTable : Option ℕ × Vmm → Type 0
  NextTable r = (owner' : Owner) × Extends s r.1 owner owner' × Next tbl i p owner' r.0 r.1

  new_table_lem :
      (r : ℕ × Pmm)
      → present (s.memory (slot tbl i)) ≡ false
      → ((k : ℕ) × Granted s.frames k r) ⊎ Exhausted s.frames r
      → NextTable (new_table tbl i flags s r)
  new_table_lem r absent (inr x) =
      let z : (r.0 == 0) ≡ true = ground (arith, x.zero_returned) in
      rw (z, x.unchanged) (owner, Extends-same s owner h, x.all_used)
  new_table_lem r absent (inl (k, g)) =
      let f = r.0 in
      let page : f ≡ k * 4096 = g.address in
      let not_zero : (f == 0) ≡ false = ground (arith, page, g.above_zero) in
      let aligned : f % 4096 ≡ 0 = omega (arith, page) in
      let number : f / 4096 ≡ k = omega (arith, page) in
      let small : f < 2 ^ 52 = omega (arith, page, g.below_total, h.frames_valid.small) in
      let v = table_entry f flags in
      let holds = address_of-table_entry f flags aligned small in
      let unowned = no_owner f (ap (used s.frames) number ∙ g.was_clear) in
      let self : (slot tbl i == slot tbl i) ≡ true = ground arith in
      let taken : used r.1 (f / 4096) ≡ true =
        ap (used r.1) number ∙ g.only k ∙ now_used k k (used s.frames k) in
      let kept : (j : ℕ) → used s.frames j ≡ true → used r.1 j ≡ true =
        λ j u. g.only j ∙ still_used (j == k) (used s.frames j) u in
      let self_owned : (f == f) ≡ true = ground arith in
      rw (not_zero, self)
        (
          grown_owner s owner h tbl i f v p o upper bound absent unowned aligned holds,
          record {
            tree =
                IsTree-grown s owner h tbl i f v p o upper bound absent unowned aligned holds r.1
                  g.valid taken kept;
            same_root = refl;
            old = grown_owner_old s owner h tbl i f v p o upper bound absent unowned aligned holds;
            walks = walk-grown s owner h tbl i f v p o upper bound absent unowned aligned holds;
            entries = λ t' j p' o' b k'.
                grown_other s owner h tbl i f v p o upper bound absent unowned aligned holds t' j p'
                  o' b (differs t' j k');
            kept = kept;
            untouched = λ a u n.
                let other_page : (a / 4096 == k) ≡ false = unlike (a / 4096) u k g.was_clear in
                (
                  rw (not_page f k (a / 4096) number other_page) n,
                  not_written a f k page other_page n v,
                );
          },
          (rw (holds, self_owned) refl, present-table_entry f flags, refl),
        )
    where
      no_owner : (f : ℕ) → used s.frames (f / 4096) ≡ false → owner f ≡ none
      no_owner f u = elim (Option-cases (owner f)) [
        | inl e ↦ e
        | inr (q, e) ↦ let t = h.in_use f q e in ground (arith, t, u)
      ]

      now_used : (j k : ℕ) (b : Bool) → (if k == k then true else b) ≡ true
      now_used j k b = let e : (k == k) ≡ true = ground arith in rw e refl

      still_used : (c b : Bool) → b ≡ true → (if c then true else b) ≡ true
      still_used true b e = refl
      still_used false b e = e

      unlike :
          (j : ℕ) → used s.frames j ≡ true → (k : ℕ) → used s.frames k ≡ false → (j == k) ≡ false
      unlike j u k c = elim (Bool-cases (j == k)) [
        | inl e ↦
            let same : j ≡ k = ground (arith, e) in
            let off : used s.frames j ≡ false = ap (used s.frames) same ∙ c in
            ground (arith, u, off)
        | inr e ↦ e
      ]

      not_page : (f k j : ℕ) → f / 4096 ≡ k → (j == k) ≡ false → (j * 4096 == f) ≡ false
      not_page f k j number e = ground (arith, number, e)

      not_slot : (a : ℕ) → owner (a / 4096 * 4096) ≡ none → (a == slot tbl i) ≡ false
      not_slot a n = elim (Bool-cases (a == slot tbl i)) [
        | inl e ↦
            let same : a ≡ slot tbl i = ground (arith, e) in
            let page : a / 4096 * 4096 ≡ tbl = omega (arith, same, h.aligned tbl p o, bound) in
            let clash : none ≡ some p = sym n ∙ ap owner page ∙ o in ground (arith, clash)
        | inr e ↦ e
      ]

      not_written :
          (a f k : ℕ)
          → f ≡ k * 4096
          → (a / 4096 == k) ≡ false
          → owner (a / 4096 * 4096) ≡ none
          → (v : ℕ) → update (clear_page f s.memory) (slot tbl i) v a ≡ s.memory a
      not_written a f k page e n v =
          let in_table : (a == slot tbl i) ≡ false = not_slot a n in
          let outside : (leb f a && ltb a (f + 4096)) ≡ false = ground (arith, page, e) in
          rw (in_table, outside) refl

      differs :
          (t' j : ℕ) → present (s.memory (slot t' j)) ≡ true → (slot t' j == slot tbl i) ≡ false
      differs t' j k = elim (Bool-cases (slot t' j == slot tbl i)) [
        | inl e ↦
            let same : slot t' j ≡ slot tbl i = ground (arith, e) in
            let off : present (s.memory (slot t' j)) ≡ false =
              ap (λ a. present (s.memory a)) same ∙ absent in
            ground (arith, off, k)
        | inr e ↦ e
      ]

  next_table_lem : NextTable (next_table tbl i flags s)
  unfolding next_table
  next_table_lem = elim (Bool-cases (present (s.memory (slot tbl i)))) [
    | inl k ↦ rw k (owner, Extends-same s owner h, (h.child tbl i p o upper bound from k, k, refl))
    | inr k ↦ rw k (new_table_lem (pmm_alloc_frame s.frames) k (pmm_alloc_frame_lem h.frames_valid))
  ]

-- The tables down the levels: the lookup of the indices leads to the table given.
abbrev pub Made : List ℕ → ℕ → List ℕ → Owner → Option ℕ → Vmm → Type 0
Made is tbl p owner' none s' = AllUsed s'
Made is tbl p owner' (some t) s' = (owner' t ≡ some (onto is p)) × (walk s'.memory is tbl ≡ some t)

abbrev pub MadeTables : Vmm → Owner → List ℕ → ℕ → List ℕ → Option ℕ × Vmm → Type 0
MadeTables s owner is tbl p r =
    (owner' : Owner) × Extends s r.1 owner owner' × Made is tbl p owner' r.0 r.1

-- A lookup through an entry goes on at the page that the entry holds.
Made-through :
    (i : ℕ) (is : List ℕ) (tbl t : ℕ) (p : List ℕ) (owner' : Owner) (x : Option ℕ) (s' : Vmm)
    → present (s'.memory (slot tbl i)) ≡ true
    → address_of (s'.memory (slot tbl i)) ≡ t
    → Made is t (i ∷ p) owner' x s'
    → Made (i ∷ is) tbl p owner' x s'
unfolding walk
Made-through i is tbl t p owner' none s' k a m = m
Made-through i is tbl t p owner' (some t') s' k a m = (m.0, rw k (ap (walk s'.memory is) a ∙ m.1))

Made-Next :
    (i : ℕ) (is : List ℕ) (flags tbl : ℕ) (p : List ℕ) (s : Vmm) (owner : Owner)
    → owner tbl ≡ some p
    → i < 512
    → (r : Option ℕ × Vmm) → (owner' : Owner) → Extends s r.1 owner owner'
    → Next tbl i p owner' r.0 r.1
    → ((t : ℕ)
        → owner' t ≡ some (i ∷ p)
        → MadeTables r.1 owner' is t (i ∷ p) (make_tables is flags t r.1))
    → MadeTables s owner (i ∷ is) tbl p (and_then (make_tables is flags) r)
Made-Next i is flags tbl p s owner o b (none, s') owner' e n later = (owner', e, n)
Made-Next i is flags tbl p s owner o b (some t, s') owner' e (o', k, a) later =
    let (owner2, e2, made) = later t o' in
    let s2 = (make_tables is flags t s').1 in
    let entry = e2.entries tbl i p (e.old tbl p o) b k in
    (
      owner2,
      Extends-trans s s' s2 owner owner' owner2 e e2,
      Made-through i is tbl t p owner2 (make_tables is flags t s').0 s2 (ap present entry ∙ k)
          (ap address_of entry ∙ a) made,
    )

pub make_tables_lem :
    (is : List ℕ) (flags tbl : ℕ) (p : List ℕ) (s : Vmm) (owner : Owner)
    → IsTree s owner
    → owner tbl ≡ some p
    → length p + length is ≤ 3
    → AllIndices is
    → From is p
    → MadeTables s owner is tbl p (make_tables is flags tbl s)
unfolding make_tables walk
make_tables_lem [] flags tbl p s owner h o l all from = (owner, Extends-same s owner h, (o, refl))
make_tables_lem (i ∷ is) flags tbl p s owner h o l all from =
    let (owner', e, n) = next_table_lem s owner h tbl i flags p o (omega (arith, l)) all.0 from in
    Made-Next i is flags tbl p s owner o all.0 (next_table tbl i flags s) owner' e n (λ t o'.
      make_tables_lem is flags t (i ∷ p) (next_table tbl i flags s).1 owner' e.tree o'
        (omega (arith, l)) all.1 (From-below i is p))
