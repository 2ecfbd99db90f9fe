-- ===== src/Mem/Compare.antt =====
-- What `memcmp` of lib/mem.c says of two ranges.
use fobos_os.Base.{ℕ, zero, suc, ◌+◌, ◌<◌, ◌≡◌, ◌≢◌, refl, false, ◌==◌, arith, Bool-cases, inl, inr}
use fobos_os.Base.Int.{pos, sub_ℕ}
use fobos_os.Mem.{Memory, memcmp}

-- The bytes of the two ranges are the same.
abbrev pub SameRange : ℕ → ℕ → ℕ → Memory → Type 0
SameRange a b n m = (i : ℕ) → i < n → m (a + i) ≡ m (b + i)

sub_ℕ-zero : (x y : ℕ) → (x == y) ≡ false → sub_ℕ x y ≢ pos 0
sub_ℕ-zero x y h e = ground (arith, h, e)

unequal : (x y : ℕ) → (x == y) ≡ false → x ≢ y
unequal x y h e = ground (arith, h, e)

at_zero : (a b : ℕ) (m : Memory) → m (a + 0) ≡ m (b + 0) → m a ≡ m b
at_zero a b m e =
    let left : a + 0 ≡ a = omega arith in
    let right : b + 0 ≡ b = omega arith in rw (left, right) at e

shifted :
    (a b i : ℕ) (m : Memory) → m (a + (i + 1)) ≡ m (b + (i + 1)) → m (a + 1 + i) ≡ m (b + 1 + i)
shifted a b i m e =
    let left : a + (i + 1) ≡ a + 1 + i = omega arith in
    let right : b + (i + 1) ≡ b + 1 + i = omega arith in rw (left, right) at e

from_first :
    (a b n i : ℕ) (m : Memory)
    → m a ≡ m b
    → SameRange (a + 1) (b + 1) n m
    → i < suc n
    → m (a + i) ≡ m (b + i)
from_first a b n zero m here same h =
    let left : a + 0 ≡ a = omega arith in
    let right : b + 0 ≡ b = omega arith in rw (left, right) here
from_first a b n (suc i) m here same h =
    let left : a + suc i ≡ a + 1 + i = omega arith in
    let right : b + suc i ≡ b + 1 + i = omega arith in rw (left, right) (same i (omega (arith, h)))

-- `memcmp` is 0 exactly on ranges with the same bytes.
pub memcmp-SameRange :
    (a b n : ℕ) (m : Memory)
    → (memcmp a b n m ≡ pos 0 → SameRange a b n m) × (SameRange a b n m → memcmp a b n m ≡ pos 0)
unfolding memcmp
memcmp-SameRange a b zero m = (λ e i h. absurd (omega (arith, h)), λ same. refl)
memcmp-SameRange a b (suc n) m =
    let later = memcmp-SameRange (a + 1) (b + 1) n m in
    elim (Bool-cases (m a == m b)) [
      | inl k ↦
          let here : m a ≡ m b = ground (arith, k) in
          rw k (
            λ e i h. from_first a b n i m here (later.0 e) h,
            λ same. later.1 (λ i h. shifted a b i m (same (i + 1) (omega (arith, h)))),
          )
      | inr k ↦ rw k (
        λ e. absurd (sub_ℕ-zero (m a) (m b) k e),
        λ same. absurd (unequal (m a) (m b) k (at_zero a b m (same 0 (omega arith)))),
      )
    ]
