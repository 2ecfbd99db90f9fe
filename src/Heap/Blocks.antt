-- ===== src/Heap/Blocks.antt =====
-- What kernel/heap.c keeps true of its block list.
use fobos_os.Base.{ℕ, ◌+◌, ◌≡◌, Bool, true, false, not, ◌&&◌, List, [], ◌∷◌, if◌then◌else◌}
use fobos_os.Heap.{Block, header, heap_base, heap_size, payload}

-- The blocks lie one behind the other and fill the addresses from `a` to `e`.
abbrev pub Tiles : ℕ → ℕ → List Block → Type 0
Tiles a e [] = a ≡ e
Tiles a e (b ∷ bs) = (b.addr ≡ a) × Tiles (a + header + b.size) e bs

-- No free block follows a free block. The first argument says whether one stands in front.
unfoldable pub merged : Bool → List Block → Bool
merged before [] = true
merged before (b ∷ bs) = not (before && not b.used) && merged (not b.used) bs

-- The heap's range is filled, and neighbouring free blocks have been merged.
abbrev pub IsHeap : List Block → Type 0
IsHeap bs = Tiles heap_base (heap_base + heap_size) bs × (merged false bs ≡ true)

-- Address and size of each payload in use, in the order of their addresses.
unfoldable pub allocations : List Block → List (ℕ × ℕ)
allocations [] = []
allocations (b ∷ bs) =
    let later = allocations bs in if b.used then (payload b, b.size) ∷ later else later
