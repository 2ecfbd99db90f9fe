-- ===== src/Wire/Address.antt =====
-- Addresses in text, for `net_ip_from_string` of kernel/net.c.
use fobos_os.Base.{
  ℕ, suc, ◌+◌, ◌-◌, ◌*◌, ◌/◌, ◌%◌, ◌^◌, ◌<◌, ◌≡◌, refl, true, false, List, [], ◌∷◌, ◌++◌, arith,
  ◌==◌, if◌then◌else◌, none, some, drop, get_or, ltb, Bool-cases, inl, inr, ◌∙◌, ap,
}
use fobos_os.Wire.{ip_from, is_digit, scan_number, scan_parts, join_parts, net_ip_from_string}

-- A number below 256 in decimal, in front of what follows.
unfoldable pub decimal : ℕ → List ℕ → List ℕ
decimal n rest =
    let last = (n % 10 + 48) ∷ rest in
    let last_two = (n / 10 % 10 + 48) ∷ last in
    if ltb n 10 then last else if ltb n 100 then last_two else (n / 100 + 48) ∷ last_two

-- Four numbers with dots between them.
abbrev pub dotted : ℕ → ℕ → ℕ → ℕ → List ℕ → List ℕ
dotted a b c d rest = decimal a (46 ∷ decimal b (46 ∷ decimal c (46 ∷ decimal d rest)))

scan_digit :
    (v d : ℕ) (s : List ℕ)
    → d < 10
    → v < 1000
    → scan_number v ((d + 48) ∷ s) ≡ scan_number (v * 10 + d) s
unfolding scan_number
scan_digit v d s hd hv =
    let digit : is_digit (d + 48) ≡ true = ground arith in
    let value : (v * 10 + (d + 48 - 48)) % 2 ^ 32 ≡ v * 10 + d = omega arith in
    rw (digit, value) refl

scan_number-decimal :
    (n : ℕ) (rest : List ℕ) → n < 256 → scan_number 0 (decimal n rest) ≡ scan_number n rest
unfolding decimal
scan_number-decimal n rest h =
    let last = (n % 10 + 48) ∷ rest in
    let units : (v : ℕ) → v < 1000 → scan_number v last ≡ scan_number (v * 10 + n % 10) rest =
      λ v hv. scan_digit v (n % 10) rest (omega arith) hv in
    let tens : (v : ℕ)
        → v < 1000
        → scan_number v ((n / 10 % 10 + 48) ∷ last) ≡ scan_number (v * 10 + n / 10 % 10) last =
      λ v hv. scan_digit v (n / 10 % 10) last (omega arith) hv in
    elim (Bool-cases (ltb n 10)) [
      | inl k ↦
          let e : 0 * 10 + n % 10 ≡ n = ground (arith, k) in
          rw k (units 0 (omega arith) ∙ rw e refl)
      | inr k ↦ elim (Bool-cases (ltb n 100)) [
        | inl j ↦
            let e : (0 * 10 + n / 10 % 10) * 10 + n % 10 ≡ n = ground (arith, j) in
            rw (k, j)
              (tens 0 (omega arith) ∙ units (0 * 10 + n / 10 % 10) (omega arith) ∙ rw e refl)
        | inr j ↦
            let e : ((0 * 10 + n / 100) * 10 + n / 10 % 10) * 10 + n % 10 ≡ n = ground arith in
            rw (k, j)
              (scan_digit 0 (n / 100) ((n / 10 % 10 + 48) ∷ last) (omega arith) (omega arith)
                ∙ tens (0 * 10 + n / 100) (omega arith)
                ∙ units ((0 * 10 + n / 100) * 10 + n / 10 % 10) (omega arith)
                ∙ rw e refl)
      ]
    ]

-- A number in text begins with a digit.
record Begins (l : List ℕ) : Type 0 where
  char : ℕ
  tail : List ℕ
  shape : l ≡ char ∷ tail
  digit : is_digit char ≡ true

Begins-decimal : (n : ℕ) (rest : List ℕ) → n < 256 → Begins (decimal n rest)
unfolding decimal
Begins-decimal n rest h =
    let units : is_digit (n % 10 + 48) ≡ true = ground arith in
    let tens : is_digit (n / 10 % 10 + 48) ≡ true = ground arith in
    let hundreds : is_digit (n / 100 + 48) ≡ true = ground arith in
    elim (Bool-cases (ltb n 10)) [
      | inl k ↦ rw k (record { char = n % 10 + 48; tail = rest; shape = refl; digit = units })
      | inr k ↦ elim (Bool-cases (ltb n 100)) [
        | inl j ↦
            rw (k, j)
              (record {
                char = n / 10 % 10 + 48;
                tail = (n % 10 + 48) ∷ rest;
                shape = refl;
                digit = tens;
              })
        | inr j ↦
            rw (k, j)
              (record {
                char = n / 100 + 48;
                tail = (n / 10 % 10 + 48) ∷ (n % 10 + 48) ∷ rest;
                shape = refl;
                digit = hundreds;
              })
      ]
    ]

scan_parts-cons :
    (free n c : ℕ) (parts s rest : List ℕ)
    → is_digit c ≡ true
    → n < 256
    → scan_number 0 (c ∷ s) ≡ (n, rest)
    → scan_parts (suc free) parts (c ∷ s) ≡ (
        let next = scan_parts free (parts ++ (n ∷ [])) (drop 1 rest) in
        if get_or rest 0 0 == 46
        then next
        else if get_or rest 0 0 == 0
        then some (parts ++ (n ∷ []))
        else none)
unfolding scan_parts
scan_parts-cons free n c parts s rest digit h e =
    let small : ltb 255 n ≡ false = ground arith in rw (e, digit, small) refl

scan_number_dot : (n : ℕ) (t : List ℕ) → scan_number n (46 ∷ t) ≡ (n, 46 ∷ t)
unfolding scan_number
scan_number_dot n t = refl

scan_number_end : (n : ℕ) → scan_number n [] ≡ (n, [])
unfolding scan_number
scan_number_end n = refl

scan_parts_dot :
    (free n : ℕ) (parts t : List ℕ)
    → n < 256
    → scan_parts (suc free) parts (decimal n (46 ∷ t)) ≡ scan_parts free (parts ++ (n ∷ [])) t
scan_parts_dot free n parts t h =
    let begins = Begins-decimal n (46 ∷ t) h in
    let value = scan_number-decimal n (46 ∷ t) h ∙ scan_number_dot n t in
    rw begins.shape (
      scan_parts-cons free n begins.char parts begins.tail (46 ∷ t) begins.digit h
        (rw begins.shape at value))

scan_parts_end :
    (n : ℕ) (parts : List ℕ)
    → n < 256
    → scan_parts 1 parts (decimal n []) ≡ some (parts ++ (n ∷ []))
scan_parts_end n parts h =
    let begins = Begins-decimal n [] h in
    let value = scan_number-decimal n [] h ∙ scan_number_end n in
    rw begins.shape (
      scan_parts-cons 0 n begins.char parts begins.tail [] begins.digit h
        (rw begins.shape at value))

scan_parts_zero : (parts s : List ℕ) → scan_parts 0 parts s ≡ some parts
unfolding scan_parts
scan_parts_zero parts s = refl

-- The four parts of an address in text are read back as the address; so they are when a dot and
-- any further text follow them.
pub net_ip_from_string-dotted :
    (a b c d : ℕ) (rest : List ℕ)
    → a < 256
    → b < 256
    → c < 256
    → d < 256
    → (net_ip_from_string (dotted a b c d []) ≡ some (ip_from a b c d))
      × (net_ip_from_string (dotted a b c d (46 ∷ rest)) ≡ some (ip_from a b c d))
unfolding net_ip_from_string
net_ip_from_string-dotted a b c d rest ha hb hc hd =
    let three : (t : List ℕ)
        → scan_parts 4 [] (dotted a b c d t) ≡ scan_parts 1 (a ∷ b ∷ c ∷ []) (decimal d t) =
      λ t.
        scan_parts_dot 3 a [] (decimal b (46 ∷ decimal c (46 ∷ decimal d t))) ha
        ∙ scan_parts_dot 2 b (a ∷ []) (decimal c (46 ∷ decimal d t)) hb
        ∙ scan_parts_dot 1 c (a ∷ b ∷ []) (decimal d t) hc in
    (
      ap join_parts (three [] ∙ scan_parts_end d (a ∷ b ∷ c ∷ []) hd),
      ap join_parts (
          three (46 ∷ rest)
          ∙ scan_parts_dot 0 d (a ∷ b ∷ c ∷ []) rest hd
          ∙ scan_parts_zero (a ∷ b ∷ c ∷ d ∷ []) rest),
    )
