-- ===== src/Http/Scan.antt =====
-- The walks over text that kernel/http.c is made of.
use fobos_os.Base.{
  ℕ, zero, suc, ◌+◌, ◌-◌, Bool, true, false, ◌&&◌, ◌||◌, List, [], ◌∷◌, ◌++◌, length, take, leb,
  ◌==◌, if◌then◌else◌,
}

-- `while (*p && test(*p)) p++;`
unfoldable pub skip_while : (ℕ → Bool) → List ℕ → List ℕ
skip_while test [] = []
skip_while test (c ∷ s) = let rest = skip_while test s in if test c then rest else c ∷ s

-- `while (*p && test(*p) && n < room) out[n++] = *p++;`: what is copied and what is left.
unfoldable pub copy_while : (ℕ → Bool) → ℕ → List ℕ → List ℕ × List ℕ
copy_while test zero s = ([], s)
copy_while test (suc room) [] = ([], [])
copy_while test (suc room) (c ∷ s) =
    let rest = copy_while test room s in if test c then (c ∷ rest.0, rest.1) else ([], c ∷ s)

-- `strncmp(s, prefix, strlen(prefix)) == 0`
unfoldable pub has_prefix : List ℕ → List ℕ → Bool
has_prefix [] s = true
has_prefix (c ∷ prefix) [] = false
has_prefix (c ∷ prefix) (d ∷ s) = let rest = has_prefix prefix s in (c == d) && rest

abbrev pub is_blank : ℕ → Bool
is_blank c = (c == b' ') || (c == b'\t')

abbrev pub is_line_end : ℕ → Bool
is_line_end c = (c == b'\r') || (c == b'\n')

abbrev pub is_digit : ℕ → Bool
is_digit c = leb b'0' c && leb c b'9'

abbrev pub lower : ℕ → ℕ
lower c = if leb b'A' c && leb c b'Z' then c + 32 else c

-- `*p`, which is 0 at the end.
abbrev pub peek : List ℕ → ℕ
peek [] = 0
peek (c ∷ s) = c

-- `while (*p && n < limit) out[n++] = *p++;` at the end of what `out` holds.
abbrev pub append_to : ℕ → List ℕ → List ℕ → List ℕ
append_to limit out s = out ++ take (limit - length out) s
