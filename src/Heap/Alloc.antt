-- ===== src/Heap/Alloc.antt =====
-- Allocation in kernel/heap.c.
use fobos_os.Base.{
  ℕ, ◌+◌, ◌-◌, ◌%◌, ◌^◌, ◌<◌, ◌≤◌, ◌≡◌, refl, Bool, true, false, not, ◌&&◌, ◌||◌, List, [], ◌∷◌,
  arith, Option, none, some, ◌++◌, leb, ltb, Bool-cases, inl, inr, ap, subst,
}
use fobos_os.Heap.{
  Block, heap_base, heap_size, header, payload, keep, first_fit, split, round_up, kmalloc,
}
use fobos_os.Heap.Blocks.{Tiles, merged, allocations, IsHeap}

-- One more allocation, of at least `n` bytes at `p`, among those there were.
pub record Inserted (n p : ℕ) (old new : List (ℕ × ℕ)) : Type 0 where
  pub size : ℕ
  pub front : List (ℕ × ℕ)
  pub back : List (ℕ × ℕ)
  pub size_from : n ≤ size
  pub size_to : size < n + 56
  pub old_eq : old ≡ front ++ back
  pub new_eq : new ≡ front ++ (p, size) ∷ back

-- Some free block holds `n` bytes.
pub some_fits : ℕ → List Block → Bool
some_fits n [] = false
some_fits n (b ∷ bs) = not b.used && leb n b.size || some_fits n bs

-- What `first_fit` promises of the blocks from `a` to `e`, with a block in front that is free or not.
abbrev pub Placed : ℕ → ℕ → ℕ → Bool → List Block → Option (ℕ × List Block) → Type 0
Placed n a e free bs none = some_fits n bs ≡ false
Placed n a e free bs (some (p, bs')) =
    Tiles a e bs'
    × (merged free bs' ≡ true)
    × (a + header ≤ p)
    × Inserted n p (allocations bs) (allocations bs')

pub Tiles-bound : (a e : ℕ) (bs : List Block) → Tiles a e bs → a ≤ e
Tiles-bound a e [] t = omega (arith, t)
Tiles-bound a e (b ∷ bs) t = omega (arith, Tiles-bound (a + header + b.size) e bs t.1)

-- A split leaves 16 bytes or more behind the new header.
pub room :
    (n size : ℕ)
    → n ≤ size
    → size < 2 ^ 64 - 64
    → ltb size ((n + header + 16) % 2 ^ 64) ≡ false
    → n + 56 ≤ size
room n size fits small h = ground arith

no_room :
    (n size : ℕ)
    → n ≤ size
    → size < 2 ^ 64 - 64
    → ltb size ((n + header + 16) % 2 ^ 64) ≡ true
    → size < n + 56
no_room n size fits small h = ground arith

Tiles-split :
    (n a e : ℕ) (b : Block) (bs : List Block)
    → n ≤ b.size
    → e < 2 ^ 64 - 64
    → Tiles a e (b ∷ bs)
    → Tiles a e (split n b bs)
unfolding split
Tiles-split n a e b bs fits small t =
    let bound = Tiles-bound (a + header + b.size) e bs t.1 in
    elim (Bool-cases (ltb b.size ((n + header + 16) % 2 ^ 64))) [
      | inl h ↦ rw h t
      | inr h ↦ rw h (
        t.0,
        (
          omega (arith, t.0),
          subst (λ x. Tiles x e bs) (omega (arith, room n b.size fits (omega (arith, bound)) h))
              t.1,
        ),
      )
    ]

merged_weaken : (bs : List Block) → merged true bs ≡ true → merged false bs ≡ true
unfolding merged
merged_weaken [] h = refl
merged_weaken (b ∷ bs) h = ground arith

merged-split :
    (n : ℕ) (free : Bool) (b : Block) (bs : List Block)
    → b.used ≡ false
    → merged free (b ∷ bs) ≡ true
    → merged free (split n b bs) ≡ true
unfolding split merged
merged-split n free b bs unused h = let w = merged_weaken bs in ground (arith, w)

Inserted-split :
    (n : ℕ) (b : Block) (bs : List Block)
    → b.used ≡ false
    → n ≤ b.size
    → b.size < 2 ^ 64 - 64
    → Inserted n (payload b) (allocations (b ∷ bs)) (allocations (split n b bs))
unfolding split allocations
Inserted-split n b bs unused fits small =
    elim (Bool-cases (ltb b.size ((n + header + 16) % 2 ^ 64))) [
      | inl h ↦
          rw (h, unused)
            (record {
              size = b.size;
              front = [];
              back = allocations bs;
              size_from = fits;
              size_to = no_room n b.size fits small h;
              old_eq = refl;
              new_eq = refl;
            })
      | inr h ↦
          rw (h, unused)
            (record {
              size = n;
              front = [];
              back = allocations bs;
              size_from = omega arith;
              size_to = omega arith;
              old_eq = refl;
              new_eq = refl;
            })
    ]

Inserted-later :
    (n p : ℕ) (b : Block) (bs bs' : List Block)
    → Inserted n p (allocations bs) (allocations bs')
    → Inserted n p (allocations (b ∷ bs)) (allocations (b ∷ bs'))
unfolding allocations
Inserted-later n p b bs bs' i = elim (Bool-cases b.used) [
  | inl h ↦ rw h (record {
    size = i.size;
    size_from = i.size_from;
    size_to = i.size_to;
    back = i.back;
    front = (payload b, b.size) ∷ i.front;
    old_eq = ap (λ l. (payload b, b.size) ∷ l) i.old_eq;
    new_eq = ap (λ l. (payload b, b.size) ∷ l) i.new_eq;
  })
  | inr h ↦ rw h i
]

pub merged-tail :
    (free : Bool) (b : Block) (bs : List Block)
    → merged free (b ∷ bs) ≡ true
    → merged (not b.used) bs ≡ true
unfolding merged
merged-tail free b bs h = ground arith

Placed-later :
    (n a e : ℕ) (free : Bool) (b : Block) (bs : List Block) (o : Option (ℕ × List Block))
    → (not b.used && leb n b.size) ≡ false
    → b.addr ≡ a
    → merged free (b ∷ bs) ≡ true
    → Placed n (a + header + b.size) e (not b.used) bs o
    → Placed n a e free (b ∷ bs) (keep b o)
unfolding some_fits merged
Placed-later n a e free b bs none skip at h r = ground (arith, r)
Placed-later n a e free b bs (some (p, bs')) skip at h r =
    ((at, r.0), ground arith, omega (arith, r.2), Inserted-later n p b bs bs' r.3)

pub first_fit-Placed :
    (n a e : ℕ) (free : Bool) (bs : List Block)
    → e < 2 ^ 64 - 64
    → Tiles a e bs
    → merged free bs ≡ true
    → Placed n a e free bs (first_fit n bs)
unfolding first_fit some_fits
first_fit-Placed n a e free [] small t h = refl
first_fit-Placed n a e free (b ∷ bs) small t h =
    let bound = Tiles-bound (a + header + b.size) e bs t.1 in
    let later =
      first_fit-Placed n (a + header + b.size) e (not b.used) bs small t.1
        (merged-tail free b bs h) in
    elim (Bool-cases (not b.used && leb n b.size)) [
      | inl k ↦
          let unused : b.used ≡ false = ground arith in
          let fits : n ≤ b.size = ground arith in
          rw k (
            Tiles-split n a e b bs fits small t,
            merged-split n free b bs unused h,
            omega (arith, t.0),
            Inserted-split n b bs unused fits (omega (arith, bound)),
          )
      | inr k ↦ rw k (Placed-later n a e free b bs (first_fit n bs) k t.0 h later)
    ]

-- What `kmalloc` of `n` bytes looks for: the least multiple of 16 that is not below `n`.
pub record Rounded (n m : ℕ) : Type 0 where
  pub enough : n ≤ m
  pub least : m < n + 16
  pub aligned : m % 16 ≡ 0

round_up-Rounded : (n : ℕ) → n + 15 < 2 ^ 64 → Rounded n (round_up n)
unfolding round_up
round_up-Rounded n h = record {
  enough = omega (arith, h);
  least = omega (arith, h);
  aligned = omega (arith, h);
}

-- In a heap with its range filled and its free blocks merged, `kmalloc` of n bytes, for n + 15
-- below 2^64, either finds a block: then the range is still filled and merged, and the allocations
-- are those there were and one more, of at least m bytes, where m is the least multiple of 16 that
-- is not below n; or no free block holds m bytes, and it fails.
pub kmalloc-Placed :
    (n : ℕ) (bs : List Block)
    → IsHeap bs
    → n + 15 < 2 ^ 64
    → (m : ℕ) × Rounded n m × Placed m heap_base (heap_base + heap_size) false bs (kmalloc n bs)
unfolding kmalloc
kmalloc-Placed n bs h small = (
  round_up n,
  round_up-Rounded n small,
  first_fit-Placed (round_up n) heap_base (heap_base + heap_size) false bs (omega arith) h.0 h.1,
)
