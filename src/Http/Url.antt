-- ===== src/Http/Url.antt =====
-- `parse_url` of kernel/http.c.
pub mod RoundTrip
use fobos_os.Base.{
  ℕ, ◌+◌, ◌-◌, ◌*◌, ◌%◌, Bool, true, false, not, ◌&&◌, ◌||◌, List, [], ◌∷◌, drop, take, ltb, leb,
  ◌==◌, if◌then◌else◌, text,
}
use fobos_os.Http.Scan.{copy_while, has_prefix, is_digit, peek}

pub record Url : Type 0 where
  pub host : List ℕ
  pub path : List ℕ
  pub port : ℕ
  pub use_ssl : Bool

-- What follows the scheme, the scheme's port, and whether it is https.
unfoldable pub after_scheme : List ℕ → List ℕ × ℕ × Bool
after_scheme url =
    if has_prefix (text "https://") url
    then (drop 8 url, 443, true)
    else if has_prefix (text "http://") url
    then (drop 7 url, 80, false)
    else (url, 80, false)

-- `while (*p >= '0' && *p <= '9') { pn = pn * 10 + (*p - '0'); p++; }` on a `u16`.
unfoldable pub scan_port : ℕ → List ℕ → ℕ × List ℕ
scan_port pn [] = (pn, [])
scan_port pn (c ∷ s) =
    let rest = scan_port ((pn * 10 + (c - b'0')) % 65536) s in
    if is_digit c then rest else (pn, c ∷ s)

abbrev pub in_host : ℕ → Bool
in_host c = not (c == b'/') && not (c == b':')

-- Port and what follows it, behind the host.
unfoldable pub parse_port : ℕ → List ℕ → ℕ × List ℕ
parse_port default p =
    let (pn, q) = scan_port 0 (drop 1 p) in
    if peek p == b':' then (if pn == 0 then default else pn, q) else (default, p)

unfoldable pub parse_url : ℕ → ℕ → List ℕ → Url
parse_url host_cap path_cap url =
    let (p, default, ssl) = after_scheme url in
    let (host, q) = copy_while in_host (host_cap - 1) p in
    let (port, r) = parse_port default q in
    record {
      host = host;
      path = if peek r == b'/' then take (path_cap - 1) r else text "/";
      port = port;
      use_ssl = ssl;
    }
