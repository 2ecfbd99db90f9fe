-- ===== src/Http/Request.antt =====
-- `http_get_raw` and `http_get_follow` of kernel/http.c. The network, which looks up a host, connects
-- to it, sends a request and receives until the other side is done, is an argument: it answers with
-- an error code or with the bytes received.
pub mod Redirects
use fobos_os.Base.{
  ℕ, zero, suc, ◌+◌, ◌-◌, ◌/◌, Bool, true, false, not, ◌&&◌, ◌||◌, Option, none, some, List, [],
  ◌∷◌, ◌++◌, length, take, drop, ltb, leb, ◌==◌, if◌then◌else◌, text,
}
use fobos_os.Base.Int.{ℤ, pos, negsuc}
use fobos_os.Http.Scan.{has_prefix, peek, append_to}
use fobos_os.Http.Cookies.{Jar, cookie_store, cookie_build}
use fobos_os.Http.Url.{Url, parse_url}
use fobos_os.Http.Headers.{
  find_header_end, parse_status_line, header_value, contains_token, next_line,
}
use fobos_os.Http.Chunked.{decode_chunked}

-- `struct http_response`; `status` is none for -1.
pub record Response : Type 0 where
  pub status : Option ℕ
  pub content_type : List ℕ
  pub location : List ℕ
  pub cookies : List (List ℕ)
  pub chunked : Bool
  pub redirect_chain : List (List ℕ)
  pub body : List ℕ

abbrev pub no_response : Response
no_response = record {
  status = none;
  content_type = [];
  location = [];
  cookies = [];
  chunked = false;
  redirect_chain = [];
  body = [];
}

pub data Answer : Type 0 where
  failed : ℕ → Answer
  received : List ℕ → Answer

-- The request, written into 1024 bytes; the parts stop at limits of their own.
unfoldable pub request : List ℕ → List ℕ → List ℕ → Jar → List ℕ
request host path extra_headers j =
    let r1 = append_to 896 (append_to 1020 [] (text "GET ")) path in
    let r2 = append_to 896 (append_to 896 r1 (text " HTTP/1.1\r\nHost: ")) host in
    let r3 = append_to 896 r2 (
      text
        "\r\nUser-Agent: FOS/0.2 (x86_64)\r\nAccept: text/html,*/*;q=0.1\r\nAccept-Encoding: identity\r\nConnection: close\r\n") in
    let (line, n) = cookie_build 768 host j in
    let r4 =
      append_to 1020 (append_to 1020 (append_to 992 r3 (text "Cookie: ")) line) (text "\r\n") in
    append_to 1020 (append_to 1020 (if ltb 0 n then r4 else r3) extra_headers) (text "\r\n")

-- What one header line changes in the answer and in the jar.
abbrev pub set_content_type : Option (List ℕ) → Response → Response
set_content_type none r = r
set_content_type (some val) r = record r { content_type = take 63 val }

abbrev pub set_location : Option (List ℕ) → Response → Response
set_location none r = r
set_location (some val) r = record r { location = take 255 val }

abbrev pub set_cookie : List ℕ → Option (List ℕ) → Response × Jar → Response × Jar
set_cookie host none s = s
set_cookie host (some val) (r, j) = (
  if ltb (length r.cookies) 12 then record r { cookies = r.cookies ++ (take 159 val ∷ []) } else r,
  cookie_store host val j,
)

abbrev pub set_chunked : Option (List ℕ) → Response × Jar → Response × Jar
set_chunked none s = s
set_chunked (some val) (r, j) =
    (if contains_token val (text "chunked") then record r { chunked = true } else r, j)

unfoldable pub header_line : List ℕ → List ℕ → Response × Jar → Response × Jar
header_line host line (r, j) =
    let r1 = set_content_type (header_value 256 (text "Content-Type") line) r in
    let r2 = set_location (header_value 256 (text "Location") line) r1 in
    set_chunked (header_value 256 (text "Transfer-Encoding") line)
      (set_cookie host (header_value 256 (text "Set-Cookie") line) (r2, j))

-- The loop over the header's lines; `after` bytes lie from the header's end on. A round passes one
-- byte or more, so as many rounds as there are bytes are enough.
unfoldable pub header_loop : ℕ → List ℕ → ℕ → List ℕ → Response × Jar → Response × Jar
header_loop zero host after line s = s
header_loop (suc fuel) host after line s =
    let later = header_loop fuel host after (next_line line) (header_line host line s) in
    if ltb after (length line) && not (peek line == 0) then later else s

-- The body, in place of the whole answer in the buffer. A chunked body is decoded into the second
-- half of the buffer; the model is of answers that end before it.
abbrev pub body_of : ℕ → Bool → List ℕ → List ℕ
body_of body_cap chunked raw =
    if chunked then decode_chunked (body_cap - body_cap / 2 - 1) raw else raw

unfoldable pub read_answer : List ℕ → ℕ → List ℕ → ℕ → ℕ → Jar → Response × Jar
read_answer host body_cap buf hdr_end hdr_len j =
    let status = parse_status_line buf in
    let (r, j') =
      header_loop (length buf) host (length buf - hdr_end) (next_line buf)
        (record no_response { status = status }, j) in
    (record r { body = body_of body_cap r.chunked (drop hdr_len buf) }, j')

-- Code, answer and jar.
abbrev pub Outcome : Type 0
Outcome = ℤ × Response × Jar

abbrev pub with_header : List ℕ → ℕ → List ℕ → Jar → Option (ℕ × ℕ) → Outcome
with_header host body_cap buf j none = (negsuc 3, no_response, j)
with_header host body_cap buf j (some (hdr_end, hdr_len)) =
    let (r, j') = read_answer host body_cap buf hdr_end hdr_len j in (pos 0, r, j')

abbrev pub with_answer : List ℕ → ℕ → Jar → Answer → Outcome
with_answer host body_cap j (failed k) = (negsuc k, no_response, j)
with_answer host body_cap j (received buf) =
    if length buf == 0
    then (negsuc 2, no_response, j)
    else with_header host body_cap buf j (find_header_end buf)

-- Host, port and request to the answer, at one exchange.
abbrev pub Network : Type 0
Network = List ℕ → ℕ → List ℕ → Answer

unfoldable pub http_get_raw : Network → List ℕ → ℕ → List ℕ → List ℕ → ℕ → Jar → Outcome
http_get_raw net host port path extra_headers body_cap j =
    with_answer host body_cap j (net host port (request host path extra_headers j))

abbrev pub is_absolute : List ℕ → Bool
is_absolute loc = has_prefix (text "http://") loc || has_prefix (text "https://") loc

-- `snprintf(new_url, 512, ...)` and the copies keep 511 characters.
unfoldable pub redirect_url : List ℕ → List ℕ → List ℕ
redirect_url host loc =
    if is_absolute loc
    then take 511 loc
    else if peek loc == b'/'
    then take 511 (text "http://" ++ host ++ loc)
    else take 511 (text "http://" ++ host ++ text "/" ++ loc)

abbrev pub in_300s : Option ℕ → Bool
in_300s none = false
in_300s (some status) = leb 300 status && ltb status 400

-- The answer calls for another request.
abbrev pub is_redirect : Response → Bool
is_redirect r = in_300s r.status && not (length r.location == 0)

-- Code, URL reached, answer and jar.
abbrev pub Page : Type 0
Page = ℤ × List ℕ × Response × Jar

abbrev pub is_done : ℤ → Bool
is_done (pos zero) = true
is_done _ = false

-- The loop of `http_get_follow` with `hops` left; `http_get_raw` clears the chain of redirects. Each
-- hop has an exchange of its own, `nets k` that after which k hops are left, so that the same request
-- may be answered differently at another hop.
unfoldable pub follow_loop : ℕ → (ℕ → Network) → ℕ → List ℕ → Response → Jar → Page
follow_loop zero nets body_cap cur r j = (negsuc 100, cur, r, j)
follow_loop (suc hops) nets body_cap cur r j =
    let url = parse_url 128 384 cur in
    let (code, r', j') = http_get_raw (nets hops) url.host url.port url.path [] body_cap j in
    let chained = record r' { redirect_chain = take 255 cur ∷ [] } in
    let later = follow_loop hops nets body_cap (redirect_url url.host r'.location) chained j' in
    if url.use_ssl
    then (negsuc 99, cur, record no_response { location = take 255 cur }, j)
    else if not (is_done code)
    then (code, cur, r', j')
    else if is_redirect r'
    then later
    else (pos 0, cur, r', j')

unfoldable pub http_get_follow : (ℕ → Network) → ℕ → ℕ → List ℕ → Jar → Page
http_get_follow nets url_cap body_cap url j =
    let (code, cur, r, j') = follow_loop 6 nets body_cap (take 511 url) no_response j in
    (code, take (url_cap - 1) cur, r, j')
