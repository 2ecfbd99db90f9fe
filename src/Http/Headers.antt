-- ===== src/Http/Headers.antt =====
-- The status line and the header lines of an answer, kernel/http.c.
use fobos_os.Base.{
  ℕ, zero, suc, ◌+◌, ◌-◌, ◌*◌, Bool, true, false, not, ◌&&◌, ◌||◌, Option, none, some, List, [],
  ◌∷◌, length, drop, ◌==◌, if◌then◌else◌, text,
}
use fobos_os.Http.Scan.{
  skip_while, copy_while, has_prefix, is_blank, is_line_end, is_digit, lower, peek,
}

-- The index at which `mark` first stands in `s`.
unfoldable pub find_mark : List ℕ → List ℕ → Option ℕ
find_mark mark [] = none
find_mark mark (c ∷ s) =
    let later = find_mark mark s in
    if has_prefix mark (c ∷ s) then some 0 else elim later [ none ↦ none | some i ↦ some (i + 1) ]

-- Where the header ends, and where the body begins; a blank line of two line feeds is looked for
-- only if there is none of the other kind.
abbrev pub header_end_lf : Option ℕ → Option (ℕ × ℕ)
header_end_lf none = none
header_end_lf (some i) = some (i, i + 2)

abbrev pub header_end_crlf : List ℕ → Option ℕ → Option (ℕ × ℕ)
header_end_crlf s none = header_end_lf (find_mark (text "\n\n") s)
header_end_crlf s (some i) = some (i, i + 4)

unfoldable pub find_header_end : List ℕ → Option (ℕ × ℕ)
find_header_end s = header_end_crlf s (find_mark (text "\r\n\r\n") s)

-- `rounds` more digits of the status code.
unfoldable pub scan_code : ℕ → ℕ → List ℕ → Option ℕ
scan_code zero code p = some code
scan_code (suc rounds) code p =
    let later = scan_code rounds (code * 10 + (peek p - b'0')) (drop 1 p) in
    if is_digit (peek p) then later else none

unfoldable pub parse_status_line : List ℕ → Option ℕ
parse_status_line line =
    let p = skip_while (λ c. not (c == b' ')) (drop 5 line) in
    if not (has_prefix (text "HTTP/") line)
    then none
    else if not (peek p == b' ')
    then none
    else scan_code 3 0 (drop 1 p)

-- The line begins with the name, small and capital letters alike; a line that is too short does
-- not.
unfoldable pub same_letters : List ℕ → List ℕ → Bool
same_letters [] line = true
same_letters (b ∷ name) line =
    let rest = same_letters name (drop 1 line) in (lower (peek line) == lower b) && rest

unfoldable pub header_value : ℕ → List ℕ → List ℕ → Option (List ℕ)
header_value cap name line =
    let p = skip_while is_blank (drop (length name) line) in
    let value = copy_while (λ c. not (is_line_end c)) (cap - 1) (skip_while is_blank (drop 1 p)) in
    if not (same_letters name line)
    then none
    else if not (peek p == b':')
    then none
    else some value.0

-- The loop of `contains_token`, from each place of the text on.
unfoldable pub token_at : List ℕ → List ℕ → Bool
token_at tok [] = false
token_at tok (c ∷ s) = let later = token_at tok s in same_letters tok (c ∷ s) || later

unfoldable pub contains_token : List ℕ → List ℕ → Bool
contains_token hay tok = not (length tok == 0) && token_at tok hay

-- The line behind the next line end.
unfoldable pub next_line : List ℕ → List ℕ
next_line line = skip_while is_line_end (skip_while (λ c. not (is_line_end c) && not (c == 0)) line)
