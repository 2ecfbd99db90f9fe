-- ===== src/Wire/Checksum.antt =====
-- The Internet checksum of kernel/net.c: the one's complement of the sum of a packet's words.
use fobos_os.Base.{
  refl, ℕ, ◌+◌, ◌-◌, ◌*◌, ◌%◌, ◌^◌, ◌<◌, ◌≤◌, ◌≡◌, List, [], ◌∷◌, arith, ◌∙◌, ◌==◌, if◌then◌else◌,
  Bool-cases, inl, inr, ap, false,
}
use fobos_os.Wire.{csum_add, fold_carries, csum_finish, csum16}

fold_carries_zero : fold_carries 2 0 ≡ 0
unfolding fold_carries
fold_carries_zero = refl

abbrev csum_value : ℕ → ℕ
csum_value s = 65535 - s % 65536

-- Two rounds end with 16 bits that leave the sum modulo 65535 as it is; only 0 gives 0.
pub fold_carries_lem :
    (acc : ℕ)
    → acc < 2 ^ 32
    → (fold_carries 2 acc < 65536)
      × (fold_carries 2 acc % 65535 ≡ acc % 65535)
      × (1 ≤ acc → 1 ≤ fold_carries 2 acc)
unfolding fold_carries
fold_carries_lem acc h = ground arith

-- The checksum of a sum that is not zero, added to it, gives a sum whose checksum is zero.
pub csum_finish-csum_finish :
    (acc : ℕ) → 1 ≤ acc → acc < 2 ^ 31 → csum_finish (acc + csum_finish acc) ≡ 0
unfolding csum_finish
csum_finish-csum_finish acc lo hi =
    let first = fold_carries_lem acc (omega arith) in
    let total = acc + (65535 - fold_carries 2 acc % 65536) in
    let second = fold_carries_lem total (omega arith) in omega (arith, first, second)

-- The sum of 16-bit words in one's complement: a carry out of the top comes in again below.
abbrev pub ones_sum : ℕ → ℕ
ones_sum total = if total == 0 then 0 else (total - 1) % 65535 + 1

csum_finish-ones_sum : (acc : ℕ) → acc < 2 ^ 32 → csum_finish acc ≡ 65535 - ones_sum acc
unfolding csum_finish
csum_finish-ones_sum acc h = elim (Bool-cases (acc == 0)) [
  | inl k ↦
      let nothing : acc ≡ 0 = ground (arith, k) in
      let folded = fold_carries_lem acc h in
      rw k (ap csum_value (ap (fold_carries 2) nothing ∙ fold_carries_zero))
  | inr k ↦
      let folded = fold_carries_lem acc h in
      let some_bit : 1 ≤ acc = ground (arith, k) in
      let some_sum = folded.2 some_bit in
      rw k (omega (arith, some_bit, some_sum, folded.0, folded.1))
]

-- The total of the words, the high byte of each first.
unfoldable pub words : List ℕ → ℕ
words [] = 0
words (a ∷ []) = a * 256
words (a ∷ b ∷ bytes) = a * 256 + b + words bytes

csum_add-words :
    (acc : ℕ) (bytes : List ℕ) → acc + words bytes < 2 ^ 32 → csum_add acc bytes ≡ acc + words bytes
unfolding csum_add words
csum_add-words acc [] h = omega arith
csum_add-words acc (a ∷ []) h = omega (arith, h)
csum_add-words acc (a ∷ b ∷ bytes) h =
    let small : (acc + (a * 256 + b)) % 2 ^ 32 ≡ acc + (a * 256 + b) = omega (arith, h) in
    rw small (csum_add-words (acc + (a * 256 + b)) bytes (omega (arith, h)) ∙ omega arith)

-- The checksum is the complement of the sum of the words.
pub csum16-ones_sum :
    (bytes : List ℕ) → words bytes < 2 ^ 32 → csum16 bytes ≡ 65535 - ones_sum (words bytes)
csum16-ones_sum bytes h =
    let total : csum_add 0 bytes ≡ words bytes =
      csum_add-words 0 bytes (omega (arith, h)) ∙ omega arith in
    ap csum_finish total ∙ csum_finish-ones_sum (words bytes) h

-- Together with its complement a sum is all ones.
pub ones_sum_sealed : (total : ℕ) → 1 ≤ total → ones_sum (total + (65535 - ones_sum total)) ≡ 65535
ones_sum_sealed total h =
    let some_bit : (total == 0) ≡ false = ground (arith, h) in
    let more : (total + (65535 - ((total - 1) % 65535 + 1)) == 0) ≡ false = ground (arith, h) in
    rw (some_bit, more) (omega (arith, h))

csum_finish_bound : (acc : ℕ) → csum_finish acc < 65536
unfolding csum_finish
csum_finish_bound acc = omega arith

pub csum16_bound : (bytes : List ℕ) → csum16 bytes < 65536
csum16_bound bytes = csum_finish_bound (csum_add 0 bytes)

-- A packet whose words add up to those of another and the other's checksum has checksum zero.
pub csum16-sealed :
    (bytes checked : List ℕ)
    → 1 ≤ words bytes
    → words bytes < 2 ^ 31
    → words checked ≡ words bytes + csum16 bytes
    → csum16 checked ≡ 0
csum16-sealed bytes checked lo hi e =
    let plain : csum_add 0 bytes ≡ words bytes =
      csum_add-words 0 bytes (omega arith) ∙ omega arith in
    let sum : words checked ≡ words bytes + csum_finish (words bytes) = rw plain at e in
    let bound = csum_finish_bound (words bytes) in
    let total : csum_add 0 checked ≡ words bytes + csum_finish (words bytes) =
      csum_add-words 0 checked (omega (arith, sum, bound)) ∙ omega (arith, sum) in
    rw total (csum_finish-csum_finish (words bytes) lo hi)
