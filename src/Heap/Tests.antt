-- ===== src/Heap/Tests.antt =====
-- Runs of kernel/heap.c on the fresh heap, and its theorems at them.
use fobos_os.Base.{ℕ, ◌+◌, ◌-◌, ◌≡◌, refl, true, false, List, [], ◌∷◌, some, inr, arith}
use fobos_os.Heap.{
  Block, heap_init, heap_base, heap_size, kmalloc, kfree, krealloc, first_fit, split, round_up,
  free_at, free_after, absorb_next, absorb_into, size_at,
}
use fobos_os.Heap.Blocks.{merged, allocations, IsHeap}
use fobos_os.Heap.Alloc.{Placed, Rounded, kmalloc-Placed}
use fobos_os.Heap.Free.{kfree-kmalloc}
use fobos_os.Heap.Release.{without, IsPointer, kfree-without}

-- One block of 112 bytes in use, in front of the rest.
abbrev one_block : List Block
one_block =
    record { addr = heap_base; size = 112; used = true }
    ∷ record { addr = heap_base + 152; size = heap_size - 192; used = false }
    ∷ []

first_payload : kmalloc 100 heap_init ≡ some (heap_base + 40, one_block)
unfolding kmalloc first_fit split round_up
first_payload = refl

grown :
    krealloc (heap_base + 40) 200 one_block
    ≡ some (
      heap_base + 192,
      112,
      record { addr = heap_base; size = 112; used = false }
          ∷ record { addr = heap_base + 152; size = 208; used = true }
          ∷ record { addr = heap_base + 400; size = heap_size - 440; used = false }
          ∷ [],
    )
unfolding krealloc kmalloc first_fit split round_up size_at free_at free_after absorb_next
    absorb_into
grown = refl

one_block-IsHeap : IsHeap one_block
unfolding merged
one_block-IsHeap = ((refl, (refl, refl)), refl)

fresh-IsHeap : IsHeap heap_init
unfolding merged
fresh-IsHeap = ((refl, refl), refl)

kmalloc-Placed_example :
    (m : ℕ) × Rounded 500 m
    × Placed m heap_base (heap_base + heap_size) false one_block (kmalloc 500 one_block)
kmalloc-Placed_example = kmalloc-Placed 500 one_block one_block-IsHeap (omega arith)

kfree-kmalloc_example : kfree (heap_base + 40) one_block ≡ heap_init
kfree-kmalloc_example =
    kfree-kmalloc 100 (heap_base + 40) heap_init one_block fresh-IsHeap first_payload

first_IsPointer : IsPointer (heap_base + 40) one_block
unfolding size_at
first_IsPointer = inr (λ e. ground (arith, e))

kfree-without_example :
    IsHeap (kfree (heap_base + 40) one_block)
    × (allocations (kfree (heap_base + 40) one_block)
        ≡ without (heap_base + 40) (allocations one_block))
kfree-without_example = kfree-without (heap_base + 40) one_block one_block-IsHeap first_IsPointer
