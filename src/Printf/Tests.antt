-- ===== src/Printf/Tests.antt =====
-- Runs of lib/printf.c on numbers, and its theorems at them.
use fobos_os.Base.{◌≡◌, refl, inl, [], ◌∷◌, arith}
use fobos_os.Printf.{Output, out_uint, number_digits, digits_of, out_reversed, out_char}
use fobos_os.Printf.Numbers.{Written, value-number_digits, Fits, out_uint-Fits}

abbrev small_buffer : Output
small_buffer = record { text = []; rem = 4 }

-- "002a" needs five bytes with its zero: the last digit is dropped.
cut_short : (out_uint 42 16 4 48 small_buffer).text ≡ 48 ∷ 48 ∷ 50 ∷ []
unfolding out_uint number_digits digits_of out_reversed out_char
cut_short = refl

value-number_digits_example : Written 10 2026 (number_digits 10 2026)
value-number_digits_example = value-number_digits 10 2026 (inl refl) (omega arith)

out_uint_cut : Fits 4 (out_uint 42 16 4 48 small_buffer)
out_uint_cut = out_uint-Fits 4 42 16 4 48 small_buffer (omega arith) (refl, omega arith)
