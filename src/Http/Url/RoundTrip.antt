-- ===== src/Http/Url/RoundTrip.antt =====
-- A URL in its parts, as `parse_url` of kernel/http.c reads it.
use fobos_os.Base.{
  ℕ, zero, suc, ◌+◌, ◌-◌, ◌*◌, ◌%◌, ◌<◌, ◌≤◌, ◌≡◌, refl, Bool, true, false, List, [], ◌∷◌, ◌++◌,
  length, take, Option, none, some, ◌==◌, if◌then◌else◌, arith, text,
}
use fobos_os.Http.Scan.{copy_while, has_prefix, is_digit}
use fobos_os.Http.Url.{after_scheme, scan_port, in_host, parse_port, parse_url}

-- The characters of a host: neither a slash nor a colon.
abbrev pub HostText : List ℕ → Type 0
HostText [] = true ≡ true
HostText (c ∷ s) = (in_host c ≡ true) × HostText s

abbrev pub Digits : List ℕ → Type 0
Digits [] = true ≡ true
Digits (d ∷ ds) = (d < 10) × Digits ds

-- The number that decimal digits stand for, behind those that give `n`.
abbrev pub decimal_value : ℕ → List ℕ → ℕ
decimal_value n [] = n
decimal_value n (d ∷ ds) = decimal_value (n * 10 + d) ds

abbrev pub digits_text : List ℕ → List ℕ → List ℕ
digits_text [] rest = rest
digits_text (d ∷ ds) rest = (d + b'0') ∷ digits_text ds rest

abbrev pub scheme : Bool → List ℕ → List ℕ
scheme true rest = text "https://" ++ rest
scheme false rest = text "http://" ++ rest

-- A colon and the digits of the port, or nothing.
abbrev pub port_text : Option (List ℕ) → List ℕ → List ℕ
port_text none rest = rest
port_text (some ds) rest = b':' ∷ digits_text ds rest

abbrev pub default_port : Bool → ℕ
default_port ssl = if ssl then 443 else 80

abbrev pub port_of : Bool → Option (List ℕ) → ℕ
port_of ssl none = default_port ssl
port_of ssl (some ds) = decimal_value 0 ds

-- A port of 16 bits that is not 0.
abbrev pub IsPort : Option (List ℕ) → Type 0
IsPort none = true ≡ true
IsPort (some ds) = Digits ds × (1 ≤ decimal_value 0 ds) × (decimal_value 0 ds < 65536)

decimal_value_mono : (n : ℕ) (ds : List ℕ) → n ≤ decimal_value n ds
decimal_value_mono n [] = omega arith
decimal_value_mono n (d ∷ ds) = omega (arith, decimal_value_mono (n * 10 + d) ds)

scan_port_slash : (n : ℕ) (path : List ℕ) → scan_port n (b'/' ∷ path) ≡ (n, b'/' ∷ path)
unfolding scan_port
scan_port_slash n path = refl

scan_port-digits_text :
    (n : ℕ) (ds path : List ℕ)
    → Digits ds
    → decimal_value n ds < 65536
    → scan_port n (digits_text ds (b'/' ∷ path)) ≡ (decimal_value n ds, b'/' ∷ path)
unfolding scan_port
scan_port-digits_text n [] path h small = scan_port_slash n path
scan_port-digits_text n (d ∷ ds) path h small =
    let digit : is_digit (d + b'0') ≡ true = ground (arith, h.0) in
    let value : (n * 10 + (d + b'0' - b'0')) % 65536 ≡ n * 10 + d =
      omega (arith, h.0, decimal_value_mono (n * 10 + d) ds, small) in
    rw (digit, value) (scan_port-digits_text (n * 10 + d) ds path h.1 small)

parse_port-port_text :
    (ssl : Bool) (port : Option (List ℕ)) (path : List ℕ)
    → IsPort port
    → parse_port (default_port ssl) (port_text port (b'/' ∷ path)) ≡ (port_of ssl port, b'/' ∷ path)
unfolding parse_port
parse_port-port_text ssl none path h = refl
parse_port-port_text ssl (some ds) path h =
    let some_port : (decimal_value 0 ds == 0) ≡ false = ground (arith, h.1) in
    rw (scan_port-digits_text 0 ds path h.0 h.2, some_port) refl

-- What stands behind the host begins with a slash or a colon.
copy_while-host :
    (room c : ℕ) (host rest : List ℕ)
    → HostText host
    → length host ≤ room
    → in_host c ≡ false
    → copy_while in_host room (host ++ (c ∷ rest)) ≡ (host, c ∷ rest)
unfolding copy_while
copy_while-host zero c [] rest h room stop = refl
copy_while-host (suc room) c [] rest h fits stop = rw stop refl
copy_while-host zero c (d ∷ host) rest h fits stop = absurd (omega (arith, fits))
copy_while-host (suc room) c (d ∷ host) rest h fits stop =
    let later = copy_while-host room c host rest h.1 (omega (arith, fits)) stop in
    rw (h.0, later) refl

host-port_text :
    (room : ℕ) (host path : List ℕ) (port : Option (List ℕ))
    → HostText host
    → length host ≤ room
    → copy_while in_host room (host ++ port_text port (b'/' ∷ path))
      ≡ (host, port_text port (b'/' ∷ path))
host-port_text room host path none h fits = copy_while-host room b'/' host path h fits refl
host-port_text room host path (some ds) h fits =
    copy_while-host room b':' host (digits_text ds (b'/' ∷ path)) h fits refl

after_scheme-scheme :
    (ssl : Bool) (rest : List ℕ) → after_scheme (scheme ssl rest) ≡ (rest, default_port ssl, ssl)
unfolding after_scheme has_prefix
after_scheme-scheme true rest = refl
after_scheme-scheme false rest = refl

-- Scheme, host, port and path are read back from the URL that they make up, when they fit the
-- buffers; without a port the scheme's is taken. A path longer than its buffer is cut.
pub parse_url-scheme :
    (host_cap path_cap : ℕ) (ssl : Bool) (host path : List ℕ) (port : Option (List ℕ))
    → HostText host
    → IsPort port
    → length host < host_cap
    → parse_url host_cap path_cap (scheme ssl (host ++ port_text port (b'/' ∷ path))) ≡ record {
      host = host;
      path = take (path_cap - 1) (b'/' ∷ path);
      port = port_of ssl port;
      use_ssl = ssl;
    }
unfolding parse_url
parse_url-scheme host_cap path_cap ssl host path port h p fits =
    rw (after_scheme-scheme ssl (host ++ port_text port (b'/' ∷ path))) (
      rw (host-port_text (host_cap - 1) host path port h (omega (arith, fits)))
        (rw (parse_port-port_text ssl port path p) refl))
