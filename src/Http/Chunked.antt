-- ===== src/Http/Chunked.antt =====
-- `decode_chunked` of kernel/http.c. The index `ip` into the input is a number of 64 bits; `rest` is
-- the input from an index on.
pub mod RoundTrip
use fobos_os.Base.{
  ℕ, zero, suc, ◌+◌, ◌-◌, ◌*◌, ◌%◌, ◌^◌, Bool, true, false, not, ◌&&◌, Option, none, some, List, [],
  ◌∷◌, ◌++◌, length, drop, take, min, leb, ltb, ◌==◌, if◌then◌else◌,
}
use fobos_os.Http.Scan.{skip_while}

unfoldable pub hexval : ℕ → Option ℕ
hexval c =
    if leb b'0' c && leb c b'9'
    then some (c - b'0')
    else if leb b'a' c && leb c b'f'
    then some (c - b'a' + 10)
    else if leb b'A' c && leb c b'F'
    then some (c - b'A' + 10)
    else none

-- The digits of a chunk's size: the size and what follows them, `none` after a 17th digit.
unfoldable pub scan_size : ℕ → ℕ → List ℕ → Option (ℕ × List ℕ)
scan_size digits size [] = some (size, [])
scan_size digits size (c ∷ rest) = elim (hexval c) [
  | none ↦ some (size, c ∷ rest)
  | some h ↦
      if ltb 16 (digits + 1) then none else scan_size (digits + 1) ((size * 16 + h) % 2 ^ 64) rest
]

-- `while (ip < in_len && in[ip] != '\n') ip++; if (ip < in_len) ip++;`
unfoldable pub skip_line : List ℕ → List ℕ
skip_line rest = drop 1 (skip_while (λ c. not (c == b'\n')) rest)

-- How much of a chunk is copied.
abbrev pub take_of : ℕ → ℕ → ℕ → ℕ → ℕ
take_of out_cap op size left =
    let taken = if ltb left size then left else size in
    if ltb out_cap (op + taken) then out_cap - op else taken

-- Rounds of the outer loop from `rest` on, with `out` written. Each round but the last writes a
-- byte or more, so `out_cap` and one are enough.
unfoldable pub chunk_loop : ℕ → List ℕ → ℕ → List ℕ → List ℕ → List ℕ
chunk_loop zero input out_cap rest out = out
chunk_loop (suc fuel) input out_cap [] out = out
chunk_loop (suc fuel) input out_cap (c ∷ rest) out = elim (scan_size 0 0 (c ∷ rest)) [
  | none ↦ out
  | some (size, line) ↦
      let body = skip_line line in
      let taken = take_of out_cap (length out) size (length body) in
      let ip = (length input - length body + size) % 2 ^ 64 in
      let later =
        chunk_loop fuel input out_cap (skip_line (drop ip input)) (out ++ take taken body) in
      if size == 0 then out else if taken == 0 then out else later
]

unfoldable pub decode_chunked : ℕ → List ℕ → List ℕ
decode_chunked out_cap input = chunk_loop (out_cap + 1) input out_cap input []
