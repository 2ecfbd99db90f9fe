-- ===== src/Heap/Free.antt =====
-- Freeing in kernel/heap.c.
use fobos_os.Base.{
  ℕ, ◌+◌, ◌-◌, ◌%◌, ◌^◌, ◌<◌, ◌≤◌, ◌≡◌, refl, Bool, true, false, not, ◌&&◌, List, [], ◌∷◌, arith,
  Option, none, some, leb, ltb, ◌==◌, Bool-cases, inl, inr, ap, ◌∙◌,
}
use fobos_os.Heap.{
  Block, header, payload, keep, first_fit, split, rest_of, round_up, kmalloc, absorb_next,
  absorb_into, free_at, free_after, kfree, heap_base, heap_size,
}
use fobos_os.Heap.Blocks.{Tiles, merged, IsHeap}
use fobos_os.Heap.Alloc.{Tiles-bound, merged-tail, room, first_fit-Placed, Placed}

Block_eq :
    (b : Block) (size : ℕ) (used : Bool)
    → b.size ≡ size
    → b.used ≡ used
    → record b { size = size; used = used } ≡ b
Block_eq b size used e f = rw (e, f) refl

-- Freeing what a split put in use restores the block.
absorb_next-split :
    (n : ℕ) (b : Block) (bs : List Block)
    → b.used ≡ false
    → merged true bs ≡ true
    → n ≤ b.size
    → b.size < 2 ^ 64 - 64
    → ltb b.size ((n + header + 16) % 2 ^ 64) ≡ false
    → absorb_next (record b { size = n; used = false }) (rest_of n b ∷ bs) ≡ b ∷ bs
unfolding absorb_next
absorb_next-split n b bs unused h fits small k =
    ap (λ c. c ∷ bs)
      (Block_eq b (n + header + (b.size - n - header)) false
        (omega (arith, room n b.size fits small k)) (unused))

absorb_next-used : (b : Block) (bs : List Block) → merged true bs ≡ true → absorb_next b bs ≡ b ∷ bs
unfolding absorb_next merged
absorb_next-used b [] h = refl
absorb_next-used b (c ∷ bs) h = ground arith

-- The freed block of a split takes back what the split cut off.
refreed :
    (n : ℕ) (b : Block) (bs : List Block)
    → b.used ≡ false
    → merged true bs ≡ true
    → n ≤ b.size
    → b.size < 2 ^ 64 - 64
    → (free_at (payload b) (split n b bs) ≡ b ∷ bs)
      × ((before : Block)
          → free_after (payload b) before (split n b bs) ≡ absorb_into before (b ∷ bs))
unfolding split free_at free_after
refreed n b bs unused h fits small =
    let same : record b { used = false } ≡ b = Block_eq b b.size false refl unused in
    let found : (payload b == payload b) ≡ true = ground arith in
    elim (Bool-cases (ltb b.size ((n + header + 16) % 2 ^ 64))) [
      | inl k ↦
          rw (k, found)
            (
              rw (same, absorb_next-used b bs h) refl,
              λ before. rw (same, absorb_next-used b bs h) refl,
            )
      | inr k ↦
          let back = absorb_next-split n b bs unused h fits small k in
          rw (k, found) (rw back refl, λ before. rw back refl)
    ]

abbrev Returns : Block → List Block → Option (ℕ × List Block) → Type 0
Returns before bs none = true ≡ true
Returns before bs (some (p, bs')) = free_after p before bs' ≡ before ∷ bs

Returns-keep :
    (before b : Block) (n e : ℕ) (bs : List Block) (o : Option (ℕ × List Block))
    → Placed n (b.addr + header + b.size) e (not b.used) bs o
    → Returns b bs o
    → Returns before (b ∷ bs) (keep b o)
unfolding free_after
Returns-keep before b n e bs none placed r = refl
Returns-keep before b n e bs (some (p, bs')) placed r =
    let other : (payload b == p) ≡ false = ground (arith, placed.2) in rw (other, r) refl

absorb_into-used :
    (before b : Block) (bs : List Block)
    → before.used ≡ true
    → absorb_into before (b ∷ bs) ≡ before ∷ b ∷ bs
unfolding absorb_into
absorb_into-used before b bs h = rw h refl

merged_busy :
    (before b : Block) (bs : List Block)
    → b.used ≡ false
    → merged (not before.used) (b ∷ bs) ≡ true
    → before.used ≡ true
unfolding merged
merged_busy before b bs unused h = ground arith

first_fit-Returns :
    (n a e : ℕ) (before : Block) (bs : List Block)
    → e < 2 ^ 64 - 64
    → Tiles a e bs
    → merged (not before.used) bs ≡ true
    → Returns before bs (first_fit n bs)
unfolding first_fit
first_fit-Returns n a e before [] small t h = refl
first_fit-Returns n a e before (b ∷ bs) small t h =
    let bound = Tiles-bound (a + header + b.size) e bs t.1 in
    let tail = merged-tail (not before.used) b bs h in
    let tiles : Tiles (b.addr + header + b.size) e bs = rw t.0 t.1 in
    let later = first_fit-Returns n (a + header + b.size) e b bs small t.1 tail in
    let placed = first_fit-Placed n (b.addr + header + b.size) e (not b.used) bs small tiles tail in
    elim (Bool-cases (not b.used && leb n b.size)) [
      | inl k ↦
          let unused : b.used ≡ false = ground arith in
          let fits : n ≤ b.size = ground arith in
          let busy : before.used ≡ true = merged_busy before b bs unused h in
          let free = refreed n b bs unused (rw unused at tail) fits (omega (arith, bound)) in
          rw k (free.1 before ∙ absorb_into-used before b bs busy)
      | inr k ↦ rw k (Returns-keep before b n e bs (first_fit n bs) placed later)
    ]

abbrev TakenBack : List Block → Option (ℕ × List Block) → Type 0
TakenBack bs none = true ≡ true
TakenBack bs (some (p, bs')) = kfree p bs' ≡ bs

TakenBack-keep :
    (b : Block) (n e : ℕ) (bs : List Block) (o : Option (ℕ × List Block))
    → Placed n (b.addr + header + b.size) e (not b.used) bs o
    → Returns b bs o
    → TakenBack (b ∷ bs) (keep b o)
unfolding free_at
TakenBack-keep b n e bs none placed r = refl
TakenBack-keep b n e bs (some (p, bs')) placed r =
    let some_p : (p == 0) ≡ false = ground (arith, placed.2) in
    let other : (payload b == p) ≡ false = ground (arith, placed.2) in rw (some_p, other, r) refl

first_fit-TakenBack :
    (n a e : ℕ) (bs : List Block)
    → e < 2 ^ 64 - 64
    → Tiles a e bs
    → merged false bs ≡ true
    → TakenBack bs (first_fit n bs)
unfolding first_fit
first_fit-TakenBack n a e [] small t h = refl
first_fit-TakenBack n a e (b ∷ bs) small t h =
    let bound = Tiles-bound (a + header + b.size) e bs t.1 in
    let tail = merged-tail false b bs h in
    let tiles : Tiles (b.addr + header + b.size) e bs = rw t.0 t.1 in
    let later = first_fit-Returns n (a + header + b.size) e b bs small t.1 tail in
    let placed = first_fit-Placed n (b.addr + header + b.size) e (not b.used) bs small tiles tail in
    elim (Bool-cases (not b.used && leb n b.size)) [
      | inl k ↦
          let unused : b.used ≡ false = ground arith in
          let fits : n ≤ b.size = ground arith in
          let free = refreed n b bs unused (rw unused at tail) fits (omega (arith, bound)) in
          let some_p : (payload b == 0) ≡ false = ground arith in rw (k, some_p) free.0
      | inr k ↦ rw k (TakenBack-keep b n e bs (first_fit n bs) placed later)
    ]

-- Freeing what `kmalloc` has just handed out gives back the very heap there was before: the same
-- blocks at the same addresses, with the same sizes.
pub kfree-kmalloc :
    (n p : ℕ) (bs bs' : List Block) → IsHeap bs → kmalloc n bs ≡ some (p, bs') → kfree p bs' ≡ bs
unfolding kmalloc
kfree-kmalloc n p bs bs' h e =
    let back =
      first_fit-TakenBack (round_up n) heap_base (heap_base + heap_size) bs (omega arith) h.0 h.1 in
    rw e at back
