-- ===== src/Http/Chunked/RoundTrip.antt =====
-- A body sent in chunks, as `decode_chunked` of kernel/http.c reads it.
use fobos_os.Base.{
  ℕ, zero, suc, ◌+◌, ◌-◌, ◌*◌, ◌%◌, ◌^◌, ◌<◌, ◌≤◌, ◌≡◌, refl, true, false, List, [], ◌∷◌, ◌++◌,
  length, length-append, drop, take, ltb, ◌==◌, if◌then◌else◌, some, arith, ap, ◌∙◌, sym,
  append_assoc, append-nil, take-append, drop-append, Bool,
}
use fobos_os.Http.Scan.{skip_while}
use fobos_os.Http.Chunked.{hexval, scan_size, skip_line, chunk_loop, decode_chunked}

-- A hexadecimal digit: whether a letter is written as a capital, and its value.
abbrev pub Digit : Type 0
Digit = Bool × ℕ

abbrev hex_char : Digit → ℕ
hex_char (capital, d) =
    if ltb d 10 then d + b'0' else if capital then d - 10 + b'A' else d - 10 + b'a'

hex_text : List Digit → List ℕ → List ℕ
hex_text [] rest = rest
hex_text (d ∷ ds) rest = hex_char d ∷ hex_text ds rest

-- The number that hexadecimal digits stand for, behind those that give `size`.
abbrev pub hex_value : ℕ → List Digit → ℕ
hex_value size [] = size
hex_value size (d ∷ ds) = hex_value (size * 16 + d.1) ds

abbrev pub HexDigits : List Digit → Type 0
HexDigits [] = true ≡ true
HexDigits (d ∷ ds) = (d.1 < 16) × HexDigits ds

-- A chunk: the digits of its size, and its bytes.
pub record Chunk : Type 0 where
  pub digits : List Digit
  pub bytes : List ℕ

pub record IsChunk (c : Chunk) : Type 0 where
  pub hex : HexDigits c.digits
  pub some_digit : 1 ≤ length c.digits
  pub few_digits : length c.digits ≤ 16
  pub some_byte : 1 ≤ length c.bytes
  pub sized : hex_value 0 c.digits ≡ length c.bytes

abbrev pub AllChunks : List Chunk → Type 0
AllChunks [] = true ≡ true
AllChunks (c ∷ cs) = IsChunk c × AllChunks cs

-- The chunks in a row, and the empty one that ends the body.
unfoldable pub encode : List Chunk → List ℕ
unfolding hex_text
encode [] = b'0' ∷ b'\r' ∷ b'\n' ∷ b'\r' ∷ b'\n' ∷ []
encode (c ∷ cs) = hex_text c.digits (b'\r' ∷ b'\n' ∷ c.bytes ++ (b'\r' ∷ b'\n' ∷ encode cs))

unfoldable pub body : List Chunk → List ℕ
body [] = []
body (c ∷ cs) = c.bytes ++ body cs

hexval-hex_char : (d : Digit) → d.1 < 16 → hexval (hex_char d) ≡ some d.1
unfolding hexval
hexval-hex_char (true, d) h = ground arith
hexval-hex_char (false, d) h = ground arith

hex_value_mono : (size : ℕ) (ds : List Digit) → size ≤ hex_value size ds
hex_value_mono size [] = omega arith
hex_value_mono size (d ∷ ds) = omega (arith, hex_value_mono (size * 16 + d.1) ds)

scan_size_cr :
    (digits size : ℕ) (rest : List ℕ)
    → scan_size digits size (b'\r' ∷ rest) ≡ some (size, b'\r' ∷ rest)
unfolding scan_size hexval
scan_size_cr digits size rest = refl

scan_size-hex_text :
    (digits size : ℕ) (ds : List Digit) (rest : List ℕ)
    → HexDigits ds
    → digits + length ds ≤ 16
    → hex_value size ds < 2 ^ 64
    → scan_size digits size (hex_text ds (b'\r' ∷ rest)) ≡ some (hex_value size ds, b'\r' ∷ rest)
unfolding scan_size hex_text
scan_size-hex_text digits size [] rest h few small = scan_size_cr digits size rest
scan_size-hex_text digits size (d ∷ ds) rest h few small =
    let room : ltb 16 (digits + 1) ≡ false = ground (arith, few) in
    let mono = hex_value_mono (size * 16 + d.1) ds in
    let word : (size * 16 + d.1) % 2 ^ 64 ≡ size * 16 + d.1 = omega (arith, mono, small) in
    let later =
      scan_size-hex_text (digits + 1) (size * 16 + d.1) ds rest h.1 (omega (arith, few)) small in
    rw (hexval-hex_char d h.0, scan_size) (rw (room, word) later)

hex_text-append : (ds : List Digit) (rest : List ℕ) → hex_text ds rest ≡ hex_text ds [] ++ rest
unfolding hex_text
hex_text-append [] rest = refl
hex_text-append (d ∷ ds) rest = ap (λ l. hex_char d ∷ l) (hex_text-append ds rest)

skip_line_crlf : (rest : List ℕ) → skip_line (b'\r' ∷ b'\n' ∷ rest) ≡ rest
unfolding skip_line skip_while
skip_line_crlf rest = refl

-- One round of the loop on a chunk that fits.
chunk_loop-cons :
    (fuel size out_cap ip : ℕ) (input rest out line : List ℕ)
    → 1 ≤ length rest
    → 1 ≤ size
    → size ≤ length line
    → length out + size ≤ out_cap
    → scan_size 0 0 rest ≡ some (size, b'\r' ∷ b'\n' ∷ line)
    → (length input - length line + size) % 2 ^ 64 ≡ ip
    → chunk_loop (suc fuel) input out_cap rest out
      ≡ chunk_loop fuel input out_cap (skip_line (drop ip input)) (out ++ take size line)
unfolding chunk_loop
chunk_loop-cons fuel size out_cap ip input [] out line some_text some_byte left room scan at =
    absurd (omega (arith, some_text))
chunk_loop-cons fuel size out_cap ip input (c ∷ rest) out line some_text some_byte left room scan
      at =
    let inside : ltb (length line) size ≡ false = ground (arith, left) in
    let fits : ltb out_cap (length out + size) ≡ false = ground (arith, room) in
    let more : (size == 0) ≡ false = ground (arith, some_byte) in
    rw (scan, chunk_loop) (rw (skip_line_crlf line, inside, fits, more, at) refl)

chunk_loop_end :
    (fuel out_cap : ℕ) (input out : List ℕ)
    → chunk_loop (suc fuel) input out_cap (encode []) out ≡ out
unfolding chunk_loop encode scan_size hexval
chunk_loop_end fuel out_cap input out = refl

length-hex_text :
    (ds : List Digit) (rest : List ℕ) → length (hex_text ds rest) ≡ length ds + length rest
unfolding hex_text
length-hex_text [] rest = omega arith
length-hex_text (d ∷ ds) rest = omega (arith, length-hex_text ds rest)

-- The input up to the end of a chunk's bytes, and what the line end behind them leaves.
after_chunk :
    (before : List ℕ) (c : Chunk) (cs : List Chunk) (n : ℕ)
    → n ≡ length before + length c.digits + 2 + length c.bytes
    → skip_line (drop n (before ++ encode (c ∷ cs))) ≡ encode cs
unfolding encode
after_chunk before c cs n e =
    let line = c.bytes ++ (b'\r' ∷ b'\n' ∷ encode cs) in
    let crlf : List ℕ = b'\r' ∷ b'\n' ∷ [] in
    let front = before ++ (hex_text c.digits [] ++ (crlf ++ c.bytes)) in
    let split : before ++ encode (c ∷ cs) ≡ front ++ (b'\r' ∷ b'\n' ∷ encode cs) =
      ap (λ l. before ++ l)
        (hex_text-append c.digits (b'\r' ∷ b'\n' ∷ line)
          ∙ sym (append_assoc (hex_text c.digits []) (crlf ++ c.bytes) (b'\r' ∷ b'\n' ∷ encode cs)))
      ∙ sym (
          append_assoc before (hex_text c.digits [] ++ (crlf ++ c.bytes))
            (b'\r' ∷ b'\n' ∷ encode cs)) in
    let size : n ≡ length front = omega (
      arith,
      e,
      length-append before (hex_text c.digits [] ++ (crlf ++ c.bytes)),
      length-append (hex_text c.digits []) (crlf ++ c.bytes),
      length-hex_text c.digits [],
    ) in
    rw (split, drop-append front (b'\r' ∷ b'\n' ∷ encode cs) n size) (skip_line_crlf (encode cs))

length-encode :
    (c : Chunk) (cs : List Chunk)
    → length (encode (c ∷ cs)) ≡ length c.digits + 4 + length c.bytes + length (encode cs)
unfolding encode
length-encode c cs = omega (
  arith,
  length-hex_text c.digits (b'\r' ∷ b'\n' ∷ c.bytes ++ (b'\r' ∷ b'\n' ∷ encode cs)),
  length-append c.bytes (b'\r' ∷ b'\n' ∷ encode cs),
)

-- The bytes of a chunk as they are sent.
abbrev encode_front : Chunk → List ℕ
encode_front c = hex_text c.digits (b'\r' ∷ b'\n' ∷ c.bytes ++ (b'\r' ∷ b'\n' ∷ []))

encode_split : (c : Chunk) (cs : List Chunk) → encode (c ∷ cs) ≡ encode_front c ++ encode cs
unfolding encode
encode_split c cs =
    let crlf : List ℕ = b'\r' ∷ b'\n' ∷ [] in
    hex_text-append c.digits (crlf ++ (c.bytes ++ (crlf ++ encode cs)))
    ∙ ap (λ l. hex_text c.digits [] ++ (crlf ++ l)) (sym (append_assoc c.bytes crlf (encode cs)))
    ∙ sym (append_assoc (hex_text c.digits []) (crlf ++ (c.bytes ++ crlf)) (encode cs))
    ∙ ap (λ l. l ++ encode cs) (sym (hex_text-append c.digits (crlf ++ (c.bytes ++ crlf))))

scanned :
    (c : Chunk) (cs : List Chunk)
    → IsChunk c
    → length c.bytes < 2 ^ 64
    → scan_size 0 0 (encode (c ∷ cs))
      ≡ some (length c.bytes, b'\r' ∷ b'\n' ∷ c.bytes ++ (b'\r' ∷ b'\n' ∷ encode cs))
unfolding encode
scanned c cs v small =
    let line = b'\n' ∷ c.bytes ++ (b'\r' ∷ b'\n' ∷ encode cs) in
    scan_size-hex_text 0 0 c.digits line v.hex (omega (arith, v.few_digits))
      (omega (arith, v.sized, small))
    ∙ ap (λ n. some (n, b'\r' ∷ line)) v.sized

chunk_loop-encode :
    (fuel out_cap : ℕ) (before out input : List ℕ) (cs : List Chunk)
    → AllChunks cs
    → length cs < fuel
    → length out + length (body cs) ≤ out_cap
    → input ≡ before ++ encode cs
    → length input < 2 ^ 64
    → chunk_loop fuel input out_cap (encode cs) out ≡ out ++ body cs
unfolding body
chunk_loop-encode zero out_cap before out input cs v h room e small = absurd (omega (arith, h))
chunk_loop-encode (suc fuel) out_cap before out input [] v h room e small =
    chunk_loop_end fuel out_cap input out ∙ sym (append-nil out)
chunk_loop-encode (suc fuel) out_cap before out input (c ∷ cs) v h room e small =
    let size = length c.bytes in
    let line = c.bytes ++ (b'\r' ∷ b'\n' ∷ encode cs) in
    let ip = length before + length c.digits + 2 + size in
    let line_length = length-append c.bytes (b'\r' ∷ b'\n' ∷ encode cs) in
    let whole : length input ≡ length before + length (encode (c ∷ cs)) =
      ap length e ∙ length-append before (encode (c ∷ cs)) in
    let parts = length-encode c cs in
    let scan : scan_size 0 0 (encode (c ∷ cs)) ≡ some (size, b'\r' ∷ b'\n' ∷ line) =
      scanned c cs v.0 (omega (arith, whole, parts, small)) in
    let at : (length input - length line + size) % 2 ^ 64 ≡ ip =
      omega (arith, whole, parts, line_length, small) in
    let joined = length-append c.bytes (body cs) in
    let step =
      chunk_loop-cons fuel size out_cap ip input (encode (c ∷ cs)) out line (omega (arith, parts))
        v.0.some_byte (omega (arith, line_length)) (omega (arith, room, joined)) scan at in
    let rest : skip_line (drop ip input) ≡ encode cs =
      ap (λ l. skip_line (drop ip l)) e ∙ after_chunk before c cs ip (omega arith) in
    let copied : take size line ≡ c.bytes =
      take-append c.bytes (b'\r' ∷ b'\n' ∷ encode cs) size (omega arith) in
    let out_length = length-append out c.bytes in
    let later =
      chunk_loop-encode fuel out_cap (before ++ (encode_front c)) (out ++ c.bytes) input cs v.1
        (omega (arith, h)) (omega (arith, out_length, joined, room))
        (e
          ∙ ap (λ l. before ++ l) (encode_split c cs)
          ∙ sym (append_assoc before (encode_front c) (encode cs)))
        small in
    step ∙ (rw (rest, copied) later) ∙ append_assoc out c.bytes (body cs)

enough_rounds : (cs : List Chunk) → AllChunks cs → length cs ≤ length (body cs)
unfolding body
enough_rounds [] v = omega arith
enough_rounds (c ∷ cs) v =
    omega (arith, enough_rounds cs v.1, v.0.some_byte, length-append c.bytes (body cs))

-- A body sent as a row of chunks, none of them empty and each behind its size in at most 16
-- hexadecimal digits, with small or capital letters, and ended by an empty one, is put together
-- again by `decode_chunked`, when it fits the output and the text has fewer than 2^64 bytes.
pub decode_chunked-encode :
    (out_cap : ℕ) (cs : List Chunk)
    → AllChunks cs
    → length (body cs) ≤ out_cap
    → length (encode cs) < 2 ^ 64
    → decode_chunked out_cap (encode cs) ≡ body cs
unfolding decode_chunked
decode_chunked-encode out_cap cs v room small =
    chunk_loop-encode (out_cap + 1) out_cap [] [] (encode cs) cs v
      (omega (arith, enough_rounds cs v, room)) (omega (arith, room)) refl small
