-- ===== src/Pmm/Tests.antt =====
-- Runs of kernel/pmm.c on small inputs, and its theorems at them.
use fobos_os.Base.{
  ℕ, suc, ◌*◌, ◌<◌, ◌≡◌, refl, ◌⊎◌, false, some, arith, update, ◌==◌, if◌then◌else◌,
}
use fobos_os.Pmm.{
  Pmm, pmm_alloc_frame, pmm_alloc_frames, pmm_free_frame, pmm_free_frames, mark_used, bit_get,
  find_clear, grant, find_run, run_clear,
}
use fobos_os.Pmm.Inv.{IsValid, used, count_clear}
use fobos_os.Pmm.Frame.{
  Granted, Exhausted, Released, pmm_alloc_frame_lem, pmm_free_frame_lem, free-alloc_frame,
}
use fobos_os.Pmm.Frames.{GrantedRun, NoRun, RunFreed, pmm_alloc_frames_lem, pmm_free_frames_lem}
use fobos_os.Pmm.Mark.{Marked, mark_used_lem}
use fobos_os.Pmm.Boot.{Memory, pmm_init}
use fobos_os.Pmm.Boot.Walk.{GoodTags}
use fobos_os.Pmm.Boot.Reserve.{Booted, pmm_init-Booted}

-- 16 pages: 0, 1, 2 and 9 in use, the search to start at page 9.
abbrev small : Pmm
small = record {
  bitmap = λ k. if k == 0 then 7 else if k == 1 then 2 else 0;
  total_pages = 16;
  free_pages = 12;
  last_index = 9;
}

small-IsValid : IsValid small
unfolding count_clear bit_get
small-IsValid = record {
  bytes = λ k. ground arith;
  small = omega arith;
  counted = refl;
  from_one = omega arith;
  to_end = omega arith;
}

next_after_position : (pmm_alloc_frame small).0 ≡ 10 * 4096
unfolding pmm_alloc_frame find_clear grant bit_get
next_after_position = refl

run_of_six : (pmm_alloc_frames 6 small).0 ≡ 3 * 4096
unfolding pmm_alloc_frames find_run run_clear bit_get
run_of_six = refl

pmm_alloc_frame_lem_example :
    ((i : ℕ) × Granted small i (pmm_alloc_frame small)) ⊎ Exhausted small (pmm_alloc_frame small)
pmm_alloc_frame_lem_example = pmm_alloc_frame_lem small-IsValid

pmm_free_frame_lem_example : Released small 9 (pmm_free_frame 36864 small)
pmm_free_frame_lem_example = pmm_free_frame_lem 36864 small-IsValid

free-alloc_frame_example :
    let (a, t) = pmm_alloc_frame small in
    let u = pmm_free_frame a t in
    (0 < a) × ((j : ℕ) → used u j ≡ used small j) × (u.free_pages ≡ 12) × IsValid u
free-alloc_frame_example = free-alloc_frame 4 small-IsValid (omega arith) (omega arith) free_4
  where
    free_4 : used small 4 ≡ false
    free_4 = unfold bit_get in refl

pmm_alloc_frames_lem_example :
    ((i : ℕ) × GrantedRun small 6 i (pmm_alloc_frames 6 small))
    ⊎ NoRun small 6 1 (pmm_alloc_frames 6 small)
pmm_alloc_frames_lem_example = pmm_alloc_frames_lem 6 small-IsValid (omega arith)

pmm_free_frames_lem_example : RunFreed small 4 1 (pmm_free_frames 4096 4 small)
pmm_free_frames_lem_example = pmm_free_frames_lem 4096 4 small-IsValid

mark_used_lem_example : Marked small 3 2 (mark_used 8200 8192 small)
mark_used_lem_example = mark_used_lem 8200 8192 small-IsValid (omega arith)

-- Boot information of 56 bytes at 0x10000: one map with one usable entry of 256 MB, then the end.
abbrev info : Memory
info =
    update (update (update (update (update (λ a. 0) 0x10000 56) 0x10008 6) 0x1000c 40) 0x10010 24)
      0x1001b 16

abbrev info' : Memory
info' = update (update info 0x10023 16) 0x10028 1

info-GoodTags : GoodTags (suc 7) info' 0x10038 0x10008
info-GoodTags = λ a b. ((omega arith, omega arith, λ e. omega arith), λ c d. absurd (d refl))

pmm_init-Booted_example :
    (s : Pmm) × (pmm_init info' 0x10000 0x200000 0x180000 ≡ some s)
    × Booted info' 0x10000 0x200000 0x180000 s
pmm_init-Booted_example = pmm_init-Booted info' 0x10000 0x200000 0x180000 info-GoodTags (record {
  above = omega arith;
  kernel_fits = omega arith;
  bitmap_fits = omega arith;
  info_fits = omega arith;
  info_there = omega arith;
  total_fits = omega arith;
})
