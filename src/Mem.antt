-- ===== src/Mem.antt =====
-- The loops on bytes of lib/mem.c. The memory is a function from addresses to bytes; ranges do not
-- run over the end of the address space.
pub mod Move
pub mod Compare
mod Tests
use fobos_os.Base.{ℕ, zero, suc, ◌+◌, ◌%◌, Bool, true, false, ltb, ◌==◌, if◌then◌else◌, update}
use fobos_os.Base.Int.{ℤ, pos, sub_ℕ}

abbrev pub Memory : Type 0
Memory = ℕ → ℕ

-- `while (n--) *d++ = (u8)c;`
pub memset : ℕ → ℕ → ℕ → Memory → Memory
memset d c zero m = m
memset d c (suc n) m = memset (d + 1) c n (update m d (c % 256))

-- `while (n--) *dd++ = *ss++;`
pub copy_up : ℕ → ℕ → ℕ → Memory → Memory
copy_up d s zero m = m
copy_up d s (suc n) m = copy_up (d + 1) (s + 1) n (update m d (m s))

-- `while (n--) *--dd = *--ss;` from the ends of the two ranges.
pub copy_down : ℕ → ℕ → ℕ → Memory → Memory
copy_down d s zero m = m
copy_down d s (suc n) m = copy_down d s n (update m (d + n) (m (s + n)))

pub memcpy : ℕ → ℕ → ℕ → Memory → Memory
memcpy d s n m = copy_up d s n m

pub memmove : ℕ → ℕ → ℕ → Memory → Memory
memmove d s n m = if ltb d s then copy_up d s n m else copy_down d s n m

pub memcmp : ℕ → ℕ → ℕ → Memory → ℤ
memcmp a b zero m = pos 0
memcmp a b (suc n) m =
    let rest = memcmp (a + 1) (b + 1) n m in if m a == m b then rest else sub_ℕ (m a) (m b)
