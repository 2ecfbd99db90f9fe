-- ===== src/Printf.antt =====
-- Characters and numbers in lib/printf.c, written to a buffer. A format's characters come out one
-- at a time; the buffer is the text so far and `*rem`, the room that is left in it.
pub mod Numbers
mod Tests
use fobos_os.Base.{
  ℕ, zero, suc, ◌+◌, ◌-◌, ◌*◌, ◌/◌, ◌%◌, List, [], ◌∷◌, ◌++◌, length, replicate, ltb, ◌==◌,
  if◌then◌else◌,
}

pub record Output : Type 0 where
  pub text : List ℕ
  pub rem : ℕ

-- `out_char` with a buffer.
pub out_char : ℕ → Output → Output
out_char c o = if ltb 1 o.rem then record { text = o.text ++ (c ∷ []); rem = o.rem - 1 } else o

pub out_str : List ℕ → Output → Output
out_str [] o = o
out_str (c ∷ s) o = out_str s (out_char c o)

-- `"0123456789abcdef"[d]`
abbrev pub digit_char : ℕ → ℕ
digit_char d = if ltb d 10 then 48 + d else 87 + d

-- `while (v) { tmp[n++] = digits[v % base]; v /= base; }`: the digits, the lowest first. 64 rounds
-- are enough for 64 bits.
unfoldable pub digits_of : ℕ → ℕ → ℕ → List ℕ
digits_of base zero v = []
digits_of base (suc fuel) v =
    let rest = digits_of base fuel (v / base) in if v == 0 then [] else v % base ∷ rest

-- `tmp` before it is padded.
unfoldable pub number_digits : ℕ → ℕ → List ℕ
number_digits base v = if v == 0 then 0 ∷ [] else digits_of base 64 v

-- `while (n--) out_char(dst, rem, tmp[n]);`
unfoldable pub out_reversed : List ℕ → Output → Output
out_reversed [] o = o
out_reversed (c ∷ s) o = out_char c (out_reversed s o)

abbrev pub chars : List ℕ → List ℕ
chars [] = []
chars (d ∷ ds) = digit_char d ∷ chars ds

-- `out_uint` for a `pad` of at most 32, which is what its buffer holds.
pub out_uint : ℕ → ℕ → ℕ → ℕ → Output → Output
out_uint v base pad padc o =
    let ds = number_digits base v in out_reversed (chars ds ++ replicate (pad - length ds) padc) o
