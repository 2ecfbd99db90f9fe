-- ===== src/Base/Bits.antt =====
-- Laws of `bit_or` at variables: its lowest digit, and or with a number of three digits.
use Prim.Native.Nat.{
  ℕ, zero, suc, ◌+◌, ◌-◌, ◌*◌, ◌/◌, ◌%◌, ◌≤◌, ◌<◌, max, bit_or, digits, bit_or-bitwise,
}
use mathlib.Core.Path.{◌≡◌, refl, ap, sym, ◌∙◌}
use native.Mathlib.Omega.{arith}

abbrev or_digits : ℕ → ℕ → ℕ → ℕ
or_digits n a b = digits (λ b. b) max n a b

-- A round more than there are digits changes nothing, nor do several.
or_digits_more : (n a b : ℕ) → a ≤ n → or_digits (suc n) a b ≡ or_digits n a b
or_digits_more zero (suc a) b h = absurd (omega (arith, h))
or_digits_more (suc n) (suc a) b h =
    omega (arith, or_digits_more n (suc a / 2) (b / 2) (omega (arith, h)))
or_digits_more zero zero b h = refl
or_digits_more (suc n) zero b h = refl

or_digits_plus : (k n a b : ℕ) → a ≤ n → or_digits (k + n) a b ≡ or_digits n a b
or_digits_plus zero n a b h =
    let rounds : 0 + n ≡ n = omega arith in ap (λ m. or_digits m a b) rounds
or_digits_plus (suc k) n a b h =
    let rounds : suc k + n ≡ suc (k + n) = omega arith in
    ap (λ m. or_digits m a b) rounds
    ∙ or_digits_more (k + n) a b (omega (arith, h))
    ∙ or_digits_plus k n a b h

-- Half a number has digits enough for fewer rounds than the number before it counts.
half_rounds : (a b : ℕ) → or_digits a (suc a / 2) b ≡ bit_or (suc a / 2) b
half_rounds a b =
    let c = suc a / 2 in
    let rounds : a ≡ (a - c) + c = omega arith in
    ap (λ n. or_digits n c b) rounds
    ∙ or_digits_plus (a - c) c c b (omega arith)
    ∙ sym (bit_or-bitwise c b)

zero-bit_or : (b : ℕ) → bit_or 0 b ≡ b
zero-bit_or b = bit_or-bitwise 0 b

bit_or_step : (a b : ℕ) → bit_or a b ≡ max (a % 2) (b % 2) + 2 * bit_or (a / 2) (b / 2)
bit_or_step zero b = omega (arith, zero-bit_or b, zero-bit_or (b / 2))
bit_or_step (suc a) b = omega (arith, bit_or-bitwise (suc a) b, half_rounds a (b / 2))

bit_or-zero_fuel : (n a : ℕ) → a ≤ n → bit_or a 0 ≡ a
bit_or-zero_fuel n zero h = refl
bit_or-zero_fuel zero (suc a) h = absurd (omega (arith, h))
bit_or-zero_fuel (suc n) (suc a) h =
    omega (arith, bit_or_step (suc a) 0, bit_or-zero_fuel n (suc a / 2) (omega (arith, h)))

-- Or with a number below 8 leaves the digits above the third, and a lowest digit of 1 stays.
pub bit_or_below_8 : (a f : ℕ) → f < 8 → bit_or a f / 8 ≡ a / 8
bit_or_below_8 a f h =
    let gone : f / 2 / 2 / 2 ≡ 0 = omega (arith, h) in
    let last : bit_or (a / 2 / 2 / 2) (f / 2 / 2 / 2) ≡ a / 2 / 2 / 2 =
      ap (bit_or (a / 2 / 2 / 2)) gone
      ∙ bit_or-zero_fuel (a / 2 / 2 / 2) (a / 2 / 2 / 2) (omega arith) in
    omega (
      arith,
      last,
      bit_or_step a f,
      bit_or_step (a / 2) (f / 2),
      bit_or_step (a / 2 / 2) (f / 2 / 2),
    )

pub bit_or_odd_left : (a f : ℕ) → a % 2 ≡ 1 → bit_or a f % 2 ≡ 1
bit_or_odd_left a f h = omega (arith, h, bit_or_step a f)

pub bit_or_one : (a : ℕ) → bit_or a 1 % 2 ≡ 1
bit_or_one a = omega (arith, bit_or_step a 1)
