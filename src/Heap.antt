-- ===== src/Heap.antt =====
-- The kernel heap, kernel/heap.c. The blocks form a doubly linked list in the order of their
-- addresses; the model is that list, each block with its address, and `next` and `prev` are the
-- neighbours in it. The magic number that `kfree` tests is found at the header of every block of the
-- list; calls with other pointers than a block's payload or null are outside the model.
pub mod Blocks
pub mod Alloc
pub mod Free
pub mod Release
mod Tests
use fobos_os.Base.{
  ℕ, suc, ◌+◌, ◌-◌, ◌*◌, ◌/◌, ◌%◌, ◌^◌, Bool, true, false, not, ◌&&◌, Option, none, some, List, [],
  ◌∷◌, ltb, leb, ◌==◌, if◌then◌else◌,
}

-- `struct block`
pub record Block : Type 0 where
  pub addr : ℕ
  pub size : ℕ
  pub used : Bool

-- `sizeof(struct block)`: five fields of eight bytes, one of them padded.
abbrev pub header : ℕ
header = 40

abbrev pub heap_base : ℕ
heap_base = 0xFFFF900000000000

abbrev pub heap_size : ℕ
heap_size = 8 * 1024 * 1024

-- The list that `heap_init` leaves.
abbrev pub heap_init : List Block
heap_init = record { addr = heap_base; size = heap_size - header; used = false } ∷ []

-- `(n + 15) & ~15` on 64 bits.
pub round_up : ℕ → ℕ
round_up n = (n + 15) % 2 ^ 64 / 16 * 16

-- The payload of a block.
abbrev pub payload : Block → ℕ
payload b = b.addr + header

-- `split`, then `b->used = 1`: the blocks that stand in place of `b`.
abbrev pub rest_of : ℕ → Block → Block
rest_of n b = record { addr = b.addr + header + n; size = b.size - n - header; used = false }

pub split : ℕ → Block → List Block → List Block
split n b next =
    if ltb b.size ((n + header + 16) % 2 ^ 64)
    then record b { used = true } ∷ next
    else record b { size = n; used = true } ∷ rest_of n b ∷ next

-- The list with the block that the loop passed over put back in front.
abbrev pub keep : Block → Option (ℕ × List Block) → Option (ℕ × List Block)
keep b none = none
keep b (some (p, bs)) = some (p, b ∷ bs)

-- The loop of `kmalloc`, with `n` rounded.
pub first_fit : ℕ → List Block → Option (ℕ × List Block)
first_fit n [] = none
first_fit n (b ∷ bs) =
    let later = first_fit n bs in
    if not b.used && leb n b.size then some (payload b, split n b bs) else keep b later

pub kmalloc : ℕ → List Block → Option (ℕ × List Block)
kmalloc n bs = first_fit (round_up n) bs

-- `b->size += sizeof(struct block) + n->size`
abbrev pub merge : Block → Block → Block
merge b n = record b { size = b.size + header + n.size }

-- The first half of `coalesce`, on the block and what follows it.
pub absorb_next : Block → List Block → List Block
absorb_next b [] = b ∷ []
absorb_next b (n ∷ bs) = if n.used then b ∷ n ∷ bs else merge b n ∷ bs

-- The second half, on the block before and what the first half left.
pub absorb_into : Block → List Block → List Block
absorb_into p [] = p ∷ []
absorb_into p (b ∷ bs) = if p.used then p ∷ b ∷ bs else merge p b ∷ bs

-- The walk of `kfree` below the block `before`: the header that the pointer arithmetic finds is the
-- block whose payload is at `p`.
pub free_after : ℕ → Block → List Block → List Block
free_after p before [] = before ∷ []
free_after p before (b ∷ bs) =
    let later = free_after p b bs in
    if payload b == p
    then absorb_into before (absorb_next (record b { used = false }) bs)
    else before ∷ later

-- `kfree` of the payload at `p`; the first block has none before it.
pub free_at : ℕ → List Block → List Block
free_at p [] = []
free_at p (b ∷ bs) =
    let later = free_after p b bs in
    if payload b == p then absorb_next (record b { used = false }) bs else later

abbrev pub kfree : ℕ → List Block → List Block
kfree p bs = if p == 0 then bs else free_at p bs

-- The size of the block whose payload is at `p`.
pub size_at : ℕ → List Block → Option ℕ
size_at p [] = none
size_at p (b ∷ bs) = let later = size_at p bs in if payload b == p then some b.size else later

-- The new payload, how many bytes are copied to it from the old one, and the list.
abbrev pub Moved : Type 0
Moved = ℕ × ℕ × List Block

-- The end of `krealloc`, from the result of its `kmalloc`; on failure the old block stays.
abbrev pub moved_to : ℕ → ℕ → Option (ℕ × List Block) → Option Moved
moved_to p old none = none
moved_to p old (some (np, bs)) = some (np, old, kfree p bs)

abbrev pub enlarge : ℕ → ℕ → List Block → Option ℕ → Option Moved
enlarge p n bs none = none
enlarge p n bs (some old) = if leb n old then some (p, 0, bs) else moved_to p old (kmalloc n bs)

-- `krealloc`; no copy is made for a null `p` or when the old block is large enough.
pub krealloc : ℕ → ℕ → List Block → Option Moved
krealloc p n bs = if p == 0 then moved_to 0 0 (kmalloc n bs) else enlarge p n bs (size_at p bs)

pub heap_used : List Block → ℕ
heap_used [] = 0
heap_used (b ∷ bs) = (if b.used then b.size else 0) + heap_used bs
