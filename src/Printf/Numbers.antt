-- ===== src/Printf/Numbers.antt =====
-- Numbers in lib/printf.c: the digits are those of the number.
use fobos_os.Base.{
  ℕ, zero, suc, ◌+◌, ◌-◌, ◌*◌, ◌/◌, ◌^◌, ◌<◌, ◌≤◌, ◌≡◌, refl, true, List, [], ◌∷◌, ◌++◌, ◌==◌,
  arith, Bool-cases, inl, inr, ◌⊎◌, ltb, length, length-append, replicate, ◌%◌, false,
}
use fobos_os.Printf.{Output, out_char, digits_of, number_digits, out_reversed, out_uint, chars}

-- The number that digits stand for, the lowest first.
unfoldable pub value : ℕ → List ℕ → ℕ
value base [] = 0
value base (d ∷ ds) = d + base * value base ds

-- The numbers that `fuel` rounds get through.
doubled : ℕ → ℕ
doubled zero = 1
doubled (suc n) = 2 * doubled n

digits_decimal : (fuel v : ℕ) → v < doubled fuel → value 10 (digits_of 10 fuel v) ≡ v
unfolding digits_of value doubled
digits_decimal zero v h = omega (arith, h)
digits_decimal (suc fuel) v h =
    let later = digits_decimal fuel (v / 10) (omega (arith, h)) in
    elim (Bool-cases (v == 0)) [
      | inl k ↦ rw k (ground (arith, k))
      | inr k ↦ rw k (omega (arith, later))
    ]

digits_hexadecimal : (fuel v : ℕ) → v < doubled fuel → value 16 (digits_of 16 fuel v) ≡ v
unfolding digits_of value doubled
digits_hexadecimal zero v h = omega (arith, h)
digits_hexadecimal (suc fuel) v h =
    let later = digits_hexadecimal fuel (v / 16) (omega (arith, h)) in
    elim (Bool-cases (v == 0)) [
      | inl k ↦ rw k (ground (arith, k))
      | inr k ↦ rw k (omega (arith, later))
    ]

value-digits_of :
    (base fuel v : ℕ)
    → (base ≡ 10) ⊎ (base ≡ 16)
    → v < doubled fuel
    → value base (digits_of base fuel v) ≡ v
value-digits_of base fuel v (inl e) h = rw e (digits_decimal fuel v h)
value-digits_of base fuel v (inr e) h = rw e (digits_hexadecimal fuel v h)

enough : doubled 64 ≡ 2 ^ 64
unfolding doubled
enough = refl

-- The digit in front, which is the last of the list.
unfoldable pub leading : List ℕ → ℕ
leading [] = 0
leading (d ∷ []) = d
leading (d ∷ e ∷ ds) = leading (e ∷ ds)

abbrev pub Below : ℕ → List ℕ → Type 0
Below base [] = true ≡ true
Below base (d ∷ ds) = (d < base) × Below base ds

-- The way to write `v` in a base: digits below it, one at least, that stand for `v`, with no zero in
-- front unless `v` is 0, which is the one digit 0.
pub record Written (base v : ℕ) (ds : List ℕ) : Type 0 where
  pub stands_for : value base ds ≡ v
  pub below : Below base ds
  pub some_digit : 1 ≤ length ds
  pub no_zero : 1 ≤ v → 1 ≤ leading ds
  pub one_zero : v ≡ 0 → length ds ≡ 1

Below-digits_of : (base fuel v : ℕ) → (base ≡ 10) ⊎ (base ≡ 16) → Below base (digits_of base fuel v)
unfolding digits_of
Below-digits_of base zero v b = refl
Below-digits_of base (suc fuel) v b = elim (Bool-cases (v == 0)) [
  | inl k ↦ rw k refl
  | inr k ↦ rw k (digit b, Below-digits_of base fuel (v / base) b)
]
  where
    digit : (base ≡ 10) ⊎ (base ≡ 16) → v % base < base
    digit (inl e) = rw e (omega arith)
    digit (inr e) = rw e (omega arith)

leading-cons : (d : ℕ) (ds : List ℕ) → 1 ≤ length ds → leading (d ∷ ds) ≡ leading ds
unfolding leading
leading-cons d [] h = absurd (omega (arith, h))
leading-cons d (e ∷ ds) h = refl

-- Digits of a number that is not zero.
Leads : List ℕ → Type 0
Leads ds = (1 ≤ length ds) × (1 ≤ leading ds)

Leads-digits_of :
    (base fuel v : ℕ)
    → (base ≡ 10) ⊎ (base ≡ 16)
    → v < doubled fuel
    → 1 ≤ v
    → Leads (digits_of base fuel v)
unfolding digits_of doubled leading Leads
Leads-digits_of base zero v b h p = absurd (omega (arith, h, p))
Leads-digits_of base (suc fuel) v b h p =
    let k : (v == 0) ≡ false = ground (arith, p) in
    elim (Bool-cases (v / base == 0)) [
      | inl z ↦ rw k (last fuel (v / base) (ground (arith, z)) (whole b (ground (arith, z))))
      | inr z ↦
          let later = Leads-digits_of base fuel (v / base) b (smaller b) (ground (arith, z)) in
          rw k (
            omega arith,
            (rw (leading-cons (v % base) (digits_of base fuel (v / base)) later.0) later.1),
          )
    ]
  where
    smaller : (base ≡ 10) ⊎ (base ≡ 16) → v / base < doubled fuel
    smaller (inl e) = rw e (omega (arith, h))
    smaller (inr e) = rw e (omega (arith, h))

    whole : (base ≡ 10) ⊎ (base ≡ 16) → v / base ≡ 0 → 1 ≤ v % base
    whole (inl e) = rw e (λ z. omega (arith, z, p))
    whole (inr e) = rw e (λ z. omega (arith, z, p))

    last : (fuel q : ℕ) → q ≡ 0 → 1 ≤ v % base → Leads (v % base ∷ digits_of base fuel q)
    last zero q z w = (omega arith, w)
    last (suc fuel) q z w = let k : (q == 0) ≡ true = ground (arith, z) in rw k (omega arith, w)

-- In base 10 and 16, the two that the formats use, `number_digits` writes a 64-bit number: its
-- digits are below the base, one at least, stand for the number, and begin with no zero unless the
-- number is 0, which is written as one 0.
pub value-number_digits :
    (base v : ℕ) → (base ≡ 10) ⊎ (base ≡ 16) → v < 2 ^ 64 → Written base v (number_digits base v)
unfolding number_digits value leading Leads
value-number_digits base v b h = elim (Bool-cases (v == 0)) [
  | inl k ↦
      let zero_value : v ≡ 0 = ground (arith, k) in
      rw k (record {
        stands_for = omega (arith, zero_value);
        below = (positive b, refl);
        some_digit = omega arith;
        no_zero = λ p. omega (arith, p, zero_value);
        one_zero = λ e. refl;
      })
  | inr k ↦
      let p : 1 ≤ v = ground (arith, k) in
      let leads = Leads-digits_of base 64 v b (omega (arith, enough, h)) p in
      rw k (record {
        stands_for = value-digits_of base 64 v b (omega (arith, enough, h));
        below = Below-digits_of base 64 v b;
        some_digit = leads.0;
        no_zero = λ q. leads.1;
        one_zero = λ e. absurd (omega (arith, e, p));
      })
]
  where
    positive : (base ≡ 10) ⊎ (base ≡ 16) → 0 < base
    positive (inl e) = omega (arith, e)
    positive (inr e) = omega (arith, e)

-- Room and text together are as large as the buffer, and room for the final zero is kept.
abbrev pub Fits : ℕ → Output → Type 0
Fits cap o = (length o.text + o.rem ≡ cap) × (1 ≤ o.rem)

Fits-out_char : (cap c : ℕ) (o : Output) → Fits cap o → Fits cap (out_char c o)
unfolding out_char
Fits-out_char cap c o f =
    let len = length-append o.text (c ∷ []) in
    elim (Bool-cases (ltb 1 o.rem)) [
      | inl k ↦ rw k (omega (arith, len, f), ground (arith, k))
      | inr k ↦ rw k f
    ]

Fits-out_reversed : (cap : ℕ) (s : List ℕ) (o : Output) → Fits cap o → Fits cap (out_reversed s o)
unfolding out_reversed
Fits-out_reversed cap [] o f = f
Fits-out_reversed cap (c ∷ s) o f =
    Fits-out_char cap c (out_reversed s o) (Fits-out_reversed cap s o f)

-- Printing a number with a `pad` of at most 32 never fills the buffer beyond its size, the final
-- zero included.
pub out_uint-Fits :
    (cap v base pad padc : ℕ) (o : Output)
    → pad ≤ 32
    → Fits cap o
    → Fits cap (out_uint v base pad padc o)
unfolding out_uint
out_uint-Fits cap v base pad padc o padded f =
    let ds = number_digits base v in
    Fits-out_reversed cap (chars ds ++ replicate (pad - length ds) padc) o f
