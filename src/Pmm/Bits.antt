-- ===== src/Pmm/Bits.antt =====
-- The bitmap of kernel/pmm.c as a set of pages: the laws of `bit_get` after a write.
use fobos_os.Base.{
  ℕ, ◌-◌, ◌/◌, ◌%◌, ◌^◌, ◌<◌, bit_and, bit_or, ◌≡◌, refl, Bool, true, false, arith, ◌==◌,
  if◌then◌else◌, Bool-cases, inl, inr, table, table_row, ◌&&◌, ltb,
}
use fobos_os.Pmm.{bit_set, bit_clear, bit_get}

abbrev pub AllBytes : (ℕ → ℕ) → Type 0
AllBytes b = (k : ℕ) → b k < 256

-- Boolean equality, for the tables.
abbrev same : Bool → Bool → Bool
same true b = b
same false true = false
same false false = true

same-eq : (a b : Bool) → same a b ≡ true → a ≡ b
same-eq a b h = ground arith

abbrev or_cell : ℕ → ℕ → ℕ → Bool
or_cell x k j =
    same (bit_or x (2 ^ k) / 2 ^ j % 2 == 1) (if j == k then true else (x / 2 ^ j % 2 == 1))
    && ltb (bit_or x (2 ^ k)) 256

abbrev and_cell : ℕ → ℕ → ℕ → Bool
and_cell x k j =
    same (bit_and x (255 - 2 ^ k) / 2 ^ j % 2 == 1) (if j == k then false else (x / 2 ^ j % 2 == 1))
    && ltb (bit_and x (255 - 2 ^ k)) 256

or_table : table (λ x. table (λ k. table (λ j. or_cell x k j) 8) 8) 256 ≡ true
unfolding table
or_table = refl

and_table : table (λ x. table (λ k. table (λ j. and_cell x k j) 8) 8) 256 ≡ true
unfolding table
and_table = refl

or-byte : (x k j : ℕ) → x < 256 → k < 8 → j < 8 → or_cell x k j ≡ true
or-byte x k j hx hk hj =
    let rows = table_row (λ x. table (λ k. table (λ j. or_cell x k j) 8) 8) 256 or_table x hx in
    let row = table_row (λ k. table (λ j. or_cell x k j) 8) 8 rows k hk in
    table_row (λ j. or_cell x k j) 8 row j hj

and-byte : (x k j : ℕ) → x < 256 → k < 8 → j < 8 → and_cell x k j ≡ true
and-byte x k j hx hk hj =
    let rows = table_row (λ x. table (λ k. table (λ j. and_cell x k j) 8) 8) 256 and_table x hx in
    let row = table_row (λ k. table (λ j. and_cell x k j) 8) 8 rows k hk in
    table_row (λ j. and_cell x k j) 8 row j hj

module _ (b : ℕ → ℕ) (i : ℕ) (bytes : AllBytes b) where
  pub bit_set-AllBytes : AllBytes (bit_set b i)
  unfolding bit_set
  bit_set-AllBytes k = ground (arith, bytes k, bytes (i / 8), or-byte (b (i / 8)) (i % 8) 0)

  pub bit_clear-AllBytes : AllBytes (bit_clear b i)
  unfolding bit_clear
  bit_clear-AllBytes k = ground (arith, bytes k, bytes (i / 8), and-byte (b (i / 8)) (i % 8) 0)

  -- Setting a bit makes that page used, and no other page changes.
  pub bit_get-bit_set : (j : ℕ) → bit_get (bit_set b i) j ≡ (if j == i then true else bit_get b j)
  unfolding bit_set bit_get
  bit_get-bit_set j = elim (Bool-cases (j / 8 == i / 8)) [
    | inl e ↦ ground (arith, bytes (i / 8), or-byte (b (i / 8)) (i % 8) (j % 8))
    | inr e ↦ rw e (ground arith)
  ]

  pub bit_get-bit_clear :
      (j : ℕ) → bit_get (bit_clear b i) j ≡ (if j == i then false else bit_get b j)
  unfolding bit_clear bit_get
  bit_get-bit_clear j = elim (Bool-cases (j / 8 == i / 8)) [
    | inl e ↦ ground (arith, bytes (i / 8), and-byte (b (i / 8)) (i % 8) (j % 8))
    | inr e ↦ rw e (ground arith)
  ]
