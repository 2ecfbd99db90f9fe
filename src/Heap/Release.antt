-- ===== src/Heap/Release.antt =====
-- What kernel/heap.c's `kfree` does to a heap.
use fobos_os.Base.{
  ℕ, ◌+◌, ◌<◌, ◌≡◌, refl, Bool, true, false, not, List, [], ◌∷◌, if◌then◌else◌, arith, ◌==◌,
  Bool-cases, ◌⊎◌, ◌≢◌, none, inl, inr, subst, ap, sym, ◌∙◌,
}
use fobos_os.Heap.{
  Block, header, payload, absorb_next, absorb_into, free_at, free_after, kfree, merge, size_at,
  heap_base, heap_size,
}
use fobos_os.Heap.Blocks.{Tiles, merged, allocations, IsHeap}
use fobos_os.Heap.Alloc.{merged-tail}

-- The allocations without the one at `p`.
pub without : ℕ → List (ℕ × ℕ) → List (ℕ × ℕ)
without p [] = []
without p ((q, size) ∷ l) = let rest = without p l in if q == p then rest else (q, size) ∷ rest

without_below :
    (p a e : ℕ) (bs : List Block)
    → Tiles a e bs
    → p < a + header
    → without p (allocations bs) ≡ allocations bs
unfolding without allocations
without_below p a e [] t h = refl
without_below p a e (b ∷ bs) t h =
    let later = without_below p (a + header + b.size) e bs t.1 (omega (arith, h)) in
    let other : (payload b == p) ≡ false = ground (arith, t.0) in
    elim (Bool-cases b.used) [ inl k ↦ rw (k, other, later) refl | inr k ↦ rw (k, later) refl ]

abbrev Good : ℕ → ℕ → Bool → List (ℕ × ℕ) → List Block → Type 0
Good a e free l bs = Tiles a e bs × (merged free bs ≡ true) × (allocations bs ≡ l)

-- The block and its allocation, if it is one, in front of others.
abbrev with_block : Block → List (ℕ × ℕ) → List (ℕ × ℕ)
with_block b l = if b.used then (payload b, b.size) ∷ l else l

absorb_next_used :
    (b n : Block) (bs : List Block) → n.used ≡ true → absorb_next b (n ∷ bs) ≡ b ∷ n ∷ bs
unfolding absorb_next
absorb_next_used b n bs e = rw e refl

absorb_next_free :
    (b n : Block) (bs : List Block) → n.used ≡ false → absorb_next b (n ∷ bs) ≡ merge b n ∷ bs
unfolding absorb_next
absorb_next_free b n bs e = rw e refl

absorb_into_used :
    (b c : Block) (bs : List Block) → b.used ≡ true → absorb_into b (c ∷ bs) ≡ b ∷ c ∷ bs
unfolding absorb_into
absorb_into_used b c bs e = rw e refl

absorb_into_free :
    (b c : Block) (bs : List Block) → b.used ≡ false → absorb_into b (c ∷ bs) ≡ merge b c ∷ bs
unfolding absorb_into
absorb_into_free b c bs e = rw e refl

allocations_block :
    (b : Block) (bs : List Block) → allocations (b ∷ bs) ≡ with_block b (allocations bs)
unfolding allocations
allocations_block b bs = refl

with_block_free : (b : Block) (l : List (ℕ × ℕ)) → b.used ≡ false → with_block b l ≡ l
with_block_free b l e = rw e refl

-- Merging a freed block with the one behind it leaves a free block in front.
record Opened (a e : ℕ) (l : List (ℕ × ℕ)) (bs : List Block) : Type 0 where
  first : Block
  rest : List Block
  shape : bs ≡ first ∷ rest
  unused : first.used ≡ false
  tiles : Tiles a e (first ∷ rest)
  apart : merged true rest ≡ true
  same : allocations rest ≡ l

Opened-absorb_next :
    (a e : ℕ) (free : Bool) (b : Block) (bs : List Block)
    → b.used ≡ false
    → Tiles a e (b ∷ bs)
    → merged free bs ≡ true
    → Opened a e (allocations bs) (absorb_next b bs)
unfolding absorb_next merged allocations
Opened-absorb_next a e free b [] unused t h = record {
  first = b;
  rest = [];
  shape = refl;
  unused = unused;
  tiles = t;
  apart = refl;
  same = refl;
}
Opened-absorb_next a e free b (n ∷ bs) unused t h = elim (Bool-cases n.used) [
  | inl k ↦ rw (absorb_next_used b n bs k) (record {
    first = b;
    rest = n ∷ bs;
    shape = refl;
    unused = unused;
    tiles = t;
    apart = ground arith;
    same = refl;
  })
  | inr k ↦ rw (absorb_next_free b n bs k) (record {
    first = merge b n;
    rest = bs;
    shape = refl;
    unused = unused;
    tiles = (t.0, subst (λ x. Tiles x e bs) (omega arith) t.1.1);
    apart = ground arith;
    same = sym (allocations_block n bs ∙ with_block_free n (allocations bs) k);
  })
]

merged_weaken : (bs : List Block) → merged true bs ≡ true → merged false bs ≡ true
unfolding merged
merged_weaken [] h = refl
merged_weaken (b ∷ bs) h = ground arith

merged_head :
    (free : Bool) (b : Block) (bs : List Block)
    → merged free (b ∷ bs) ≡ true
    → merged free (b ∷ []) ≡ true
unfolding merged
merged_head free b bs h = ground arith

merged_cons :
    (free : Bool) (b : Block) (bs bs' : List Block)
    → merged free (b ∷ bs) ≡ true
    → merged (not b.used) bs' ≡ true
    → merged free (b ∷ bs') ≡ true
unfolding merged
merged_cons free b bs bs' h h' = ground arith

Good-absorb_into :
    (a e : ℕ) (free : Bool) (before c : Block) (rest : List Block)
    → c.used ≡ false
    → Tiles a e (before ∷ c ∷ rest)
    → merged free (before ∷ []) ≡ true
    → merged true rest ≡ true
    → Good a e free (with_block before (allocations rest)) (absorb_into before (c ∷ rest))
unfolding merged
Good-absorb_into a e free before c rest unused t h apart =
    let alloc = allocations_block c rest ∙ with_block_free c (allocations rest) unused in
    let weak = merged_weaken rest apart in
    elim (Bool-cases before.used) [
      | inl k ↦
          rw (absorb_into_used before c rest k)
            (t, ground arith, allocations_block before (c ∷ rest) ∙ ap (with_block before) alloc)
      | inr k ↦ rw (absorb_into_free before c rest k) (
        (t.0, subst (λ x. Tiles x e rest) (omega arith) t.1.1),
        ground arith,
        allocations_block (merge before c) rest
            ∙ with_block_free (merge before c) (allocations rest) k
            ∙ sym (with_block_free before (allocations rest) k),
      )
    ]

without_block :
    (p : ℕ) (b : Block) (l : List (ℕ × ℕ))
    → (payload b == p) ≡ false
    → without p (with_block b l) ≡ with_block b (without p l)
unfolding without
without_block p b l e = elim (Bool-cases b.used) [ inl k ↦ rw (k, e) refl | inr k ↦ rw k refl ]

without_hit :
    (p : ℕ) (b : Block) (l : List (ℕ × ℕ))
    → (payload b == p) ≡ true
    → without p (with_block b l) ≡ without p l
unfolding without
without_hit p b l e = elim (Bool-cases b.used) [ inl k ↦ rw (k, e) refl | inr k ↦ rw k refl ]

without_none : (p : ℕ) → without p (allocations []) ≡ allocations []
unfolding without allocations
without_none p = refl

Good-free_after :
    (p a e : ℕ) (free : Bool) (before : Block) (bs : List Block)
    → Tiles a e (before ∷ bs)
    → merged free (before ∷ bs) ≡ true
    → Good a e free (with_block before (without p (allocations bs))) (free_after p before bs)
unfolding free_after
Good-free_after p a e free before [] t h =
    (t, h, allocations_block before [] ∙ ap (with_block before) (sym (without_none p)))
Good-free_after p a e free before (b ∷ bs) t h =
    let tail = merged-tail free before (b ∷ bs) h in
    let tail' = merged-tail (not before.used) b bs tail in
    let later = Good-free_after p (a + header + before.size) e (not before.used) b bs t.1 tail in
    elim (Bool-cases (payload b == p)) [
      | inl k ↦
          let opened =
            Opened-absorb_next (a + header + before.size) e (not b.used) (record b { used = false })
              bs refl t.1 tail' in
          let done =
            Good-absorb_into a e free before opened.first opened.rest opened.unused
              (t.0, opened.tiles) (merged_head free before (b ∷ bs) h) opened.apart in
          let gone : without p (allocations (b ∷ bs)) ≡ allocations bs =
            ap (without p) (allocations_block b bs)
            ∙ without_hit p b (allocations bs) k
            ∙ without_below p (a + header + before.size + header + b.size) e bs t.1.1
                (ground (arith, t.1.0)) in
          rw (k, opened.shape, gone) (rw opened.same at done)
      | inr k ↦
          let gone : without p (allocations (b ∷ bs)) ≡ with_block b (without p (allocations bs)) =
            ap (without p) (allocations_block b bs) ∙ without_block p b (allocations bs) k in
          rw (k, gone)
            (
              (t.0, later.0),
              merged_cons free before (b ∷ bs) (free_after p b bs) h later.1,
              allocations_block before (free_after p b bs) ∙ ap (with_block before) later.2,
            )
    ]

merged_front : (b : Block) (bs : List Block) → merged true bs ≡ true → merged false (b ∷ bs) ≡ true
unfolding merged
merged_front b bs h = let w = merged_weaken bs in ground arith

Good-free_at :
    (p a e : ℕ) (bs : List Block)
    → Tiles a e bs
    → merged false bs ≡ true
    → Good a e false (without p (allocations bs)) (free_at p bs)
unfolding free_at
Good-free_at p a e [] t h = (t, h, sym (without_none p))
Good-free_at p a e (b ∷ bs) t h =
    let tail = merged-tail false b bs h in
    let later = Good-free_after p a e false b bs t h in
    elim (Bool-cases (payload b == p)) [
      | inl k ↦
          let opened =
            Opened-absorb_next a e (not b.used) (record b { used = false }) bs refl t tail in
          let gone : without p (allocations (b ∷ bs)) ≡ allocations bs =
            ap (without p) (allocations_block b bs)
            ∙ without_hit p b (allocations bs) k
            ∙ without_below p (a + header + b.size) e bs t.1 (ground (arith, t.0)) in
          rw (k, opened.shape, gone)
            (
              opened.tiles,
              merged_front opened.first opened.rest opened.apart,
              allocations_block opened.first opened.rest
                  ∙ with_block_free opened.first (allocations opened.rest) opened.unused
                  ∙ opened.same,
            )
      | inr k ↦
          let gone : without p (allocations (b ∷ bs)) ≡ with_block b (without p (allocations bs)) =
            ap (without p) (allocations_block b bs) ∙ without_block p b (allocations bs) k in
          rw (k, gone) later
    ]

-- A null pointer, or the payload of a block of the list.
abbrev pub IsPointer : ℕ → List Block → Type 0
IsPointer p bs = (p ≡ 0) ⊎ (size_at p bs ≢ none)

-- `kfree` of a null pointer, or of the payload of any block of the list, in use or free, keeps the
-- heap's range filled and its free blocks merged, and takes out of the allocations the one at that
-- pointer, if there is one, and no other.
pub kfree-without :
    (p : ℕ) (bs : List Block)
    → IsHeap bs
    → IsPointer p bs
    → IsHeap (kfree p bs) × (allocations (kfree p bs) ≡ without p (allocations bs))
kfree-without p bs h listed =
    let freed = Good-free_at p heap_base (heap_base + heap_size) bs h.0 h.1 in
    elim (Bool-cases (p == 0)) [
      | inl k ↦
          rw k (h, sym (without_below p heap_base (heap_base + heap_size) bs h.0 (ground arith)))
      | inr k ↦ rw k ((freed.0, freed.1), freed.2)
    ]
