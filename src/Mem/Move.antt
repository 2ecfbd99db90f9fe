-- ===== src/Mem/Move.antt =====
-- What the copies of lib/mem.c leave in memory, ranges that overlap included.
use fobos_os.Base.{
  ℕ, zero, suc, ◌+◌, ◌-◌, ◌%◌, ◌<◌, ◌≤◌, ◌≡◌, ◌&&◌, leb, ltb, if◌then◌else◌, update, sym, ◌∙◌,
  arith, Bool-cases, inl, inr, ◌⊎◌,
}
use fobos_os.Mem.{Memory, memset, copy_up, copy_down, memcpy, memmove}

-- What address `x` holds once the `n` bytes from `s` on have been copied to `d`.
abbrev pub copied : ℕ → ℕ → ℕ → Memory → ℕ → ℕ
copied d s n m x = if leb d x && ltb x (d + n) then m (s + (x - d)) else m x

copy_up_lem :
    (d s n : ℕ) (m : Memory) (x : ℕ) → (d < s) ⊎ (s + n ≤ d) → copy_up d s n m x ≡ copied d s n m x
unfolding copy_up
copy_up_lem d s zero m x apart = ground arith
copy_up_lem d s (suc n) m x apart =
    let later = copy_up_lem (d + 1) (s + 1) n (update m d (m s)) x (ground (arith, apart)) in
    let index : d < x → s + 1 + (x - (d + 1)) ≡ s + (x - d) = λ h. omega (arith, h) in
    let first : x ≡ d → s + (x - d) ≡ s = λ h. omega (arith, h) in
    rw later (ground (arith, index, first, apart))

copy_down_lem : (d s n : ℕ) (m : Memory) (x : ℕ) → s ≤ d → copy_down d s n m x ≡ copied d s n m x
unfolding copy_down
copy_down_lem d s zero m x below = ground arith
copy_down_lem d s (suc n) m x below =
    let later = copy_down_lem d s n (update m (d + n) (m (s + n))) x below in
    let last : x ≡ d + n → s + (x - d) ≡ s + n = λ h. omega (arith, h) in
    rw later (ground (arith, last, below))

-- `memmove` leaves the n bytes that stood from `s` on at `d` and every other byte as it was, however
-- the two ranges overlap.
pub memmove_lem : (d s n : ℕ) (m : Memory) (x : ℕ) → memmove d s n m x ≡ copied d s n m x
unfolding memmove
memmove_lem d s n m x = elim (Bool-cases (ltb d s)) [
  | inl k ↦ rw k (copy_up_lem d s n m x (inl (ground (arith, k))))
  | inr k ↦ rw k (copy_down_lem d s n m x (ground (arith, k)))
]

-- `memcpy` does the same when the target does not begin inside the source.
pub memcpy-memmove :
    (d s n : ℕ) (m : Memory) (x : ℕ) → (d < s) ⊎ (s + n ≤ d) → memcpy d s n m x ≡ memmove d s n m x
unfolding memcpy
memcpy-memmove d s n m x apart = copy_up_lem d s n m x apart ∙ sym (memmove_lem d s n m x)

-- `memset` fills its range with the low byte of `c` and changes no other byte.
pub memset_lem :
    (d c n : ℕ) (m : Memory) (x : ℕ)
    → memset d c n m x ≡ (if leb d x && ltb x (d + n) then c % 256 else m x)
unfolding memset
memset_lem d c zero m x = ground arith
memset_lem d c (suc n) m x = rw (memset_lem (d + 1) c n (update m d (c % 256)) x) (ground arith)
