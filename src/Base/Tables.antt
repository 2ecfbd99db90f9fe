-- ===== src/Base/Tables.antt =====
-- Facts over a small range of numbers, established by evaluating every case.
use Prim.Native.Nat.{ℕ, zero, suc, ◌<◌}
use mathlib.Core.Path.{◌≡◌}
use mathlib.Core.Bool.{Bool, true, false}
use native.Mathlib.Omega.{arith}
use fobos_os.Base.Tests.{if◌then◌else◌}

-- The test holds at each number under the limit.
unfoldable pub table : (ℕ → Bool) → ℕ → Bool
table test zero = true
table test (suc limit) = let lower = table test limit in if test limit then lower else false

-- One row of a table whose rows all hold.
pub table_row :
    (test : ℕ → Bool) (limit : ℕ) → table test limit ≡ true → (x : ℕ) → x < limit → test x ≡ true
unfolding table
table_row test zero whole x below = absurd (omega arith)
table_row test (suc limit) whole x below =
    let lower : table test limit ≡ true → x < limit → test x ≡ true =
      λ rows. table_row test limit rows x in
    ground (arith, lower)
