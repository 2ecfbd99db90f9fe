-- ===== src/Mem/Tests.antt =====
-- Runs of lib/mem.c on overlapping ranges, and its theorems at them.
use fobos_os.Base.{ℕ, ◌+◌, ◌%◌, ◌&&◌, ◌≡◌, refl, leb, ltb, if◌then◌else◌, inl, arith}
use fobos_os.Base.Int.{pos}
use fobos_os.Mem.{memset, memcpy, memmove, memcmp, copy_up, copy_down}
use fobos_os.Mem.Move.{copied, memmove_lem, memcpy-memmove, memset_lem}
use fobos_os.Mem.Compare.{SameRange, memcmp-SameRange}

-- Each address holds its own number.
abbrev numbered : ℕ → ℕ
numbered x = x

moved_up : memmove 102 100 5 numbered 106 ≡ 104
unfolding memmove copy_up copy_down
moved_up = refl

memmove_lem_example : memmove 102 100 5 numbered 106 ≡ copied 102 100 5 numbered 106
memmove_lem_example = memmove_lem 102 100 5 numbered 106

memcpy-memmove_example : memcpy 100 102 5 numbered 103 ≡ memmove 100 102 5 numbered 103
memcpy-memmove_example = memcpy-memmove 100 102 5 numbered 103 (inl (omega arith))

memset_filled :
    memset 100 300 5 numbered 103
    ≡ (if leb 100 103 && ltb 103 (100 + 5) then 300 % 256 else numbered 103)
memset_filled = memset_lem 100 300 5 numbered 103

memcmp_itself :
    (memcmp 100 100 5 numbered ≡ pos 0 → SameRange 100 100 5 numbered)
    × (SameRange 100 100 5 numbered → memcmp 100 100 5 numbered ≡ pos 0)
memcmp_itself = memcmp-SameRange 100 100 5 numbered
