-- ===== src/Http/Tests.antt =====
-- Runs of kernel/http.c, and its theorems at them.
use fobos_os.Base.{
  ℕ, if◌then◌else◌, ◌==◌, ◌≡◌, refl, true, some, List, [], ◌∷◌, ◌++◌, take, arith, text, ◌-◌, false,
}
use fobos_os.Base.Int.{pos}
use fobos_os.Http.Scan.{copy_while, skip_while, has_prefix}
use fobos_os.Http.Cookies.{cookie_jar_init, put_cookie}
use fobos_os.Http.Cookies.Count.{IsJar, Stored, put_cookie-Stored, used_slots}
use fobos_os.Http.Url.{parse_url, after_scheme, parse_port, scan_port}
use fobos_os.Http.Url.RoundTrip.{scheme, port_text, port_of, parse_url-scheme}
use fobos_os.Http.Headers.{header_value, same_letters, parse_status_line, scan_code}
use fobos_os.Http.Chunked.{decode_chunked, chunk_loop, scan_size, skip_line, hexval}
use fobos_os.Http.Chunked.RoundTrip.{Chunk, AllChunks, encode, body, decode_chunked-encode}
use fobos_os.Http.Request.{Network, received, no_response, follow_loop}

-- "5\r\nhello\r\n" and "0A\r\n0123456789\r\n".
abbrev two_chunks : List Chunk
two_chunks =
    record { digits = (false, 5) ∷ []; bytes = text "hello" }
    ∷ record { digits = (false, 0) ∷ (true, 10) ∷ []; bytes = text "0123456789" }
    ∷ []

two_chunks-AllChunks : AllChunks two_chunks
two_chunks-AllChunks = (
  record {
    hex = (omega arith, refl);
    some_digit = omega arith;
    few_digits = omega arith;
    some_byte = omega arith;
    sized = refl;
  },
  (
    record {
      hex = (omega arith, (omega arith, refl));
      some_digit = omega arith;
      few_digits = omega arith;
      some_byte = omega arith;
      sized = refl;
    },
    refl,
  ),
)

decoded :
    decode_chunked 100 (text "5\r\nhello\r\n0A\r\n0123456789\r\n0\r\n\r\n") ≡ text "hello0123456789"
unfolding decode_chunked chunk_loop scan_size skip_line hexval skip_while
decoded = refl

decode_chunked-encode_example : decode_chunked 100 (encode two_chunks) ≡ body two_chunks
unfolding encode body
decode_chunked-encode_example =
    decode_chunked-encode 100 two_chunks two_chunks-AllChunks (omega arith) (omega arith)

with_port :
    parse_url 128 384 (text "https://a.b:8443/x")
    ≡ record { host = text "a.b"; path = text "/x"; port = 8443; use_ssl = true }
unfolding parse_url after_scheme parse_port scan_port copy_while has_prefix
with_port = refl

parse_url-scheme_example :
    parse_url 128 384 (scheme true (text "a.b" ++ port_text (some (8 ∷ 0 ∷ [])) (text "/x")))
    ≡ record {
      host = text "a.b";
      path = take (384 - 1) (text "/x");
      port = port_of true (some (8 ∷ 0 ∷ []));
      use_ssl = true;
    }
parse_url-scheme_example =
    parse_url-scheme 128 384 true (text "a.b") (text "x") (some (8 ∷ 0 ∷ []))
      (refl, (refl, (refl, refl))) ((omega arith, (omega arith, refl)), omega arith, omega arith)
      (omega arith)

cookie_jar_init-IsJar : IsJar cookie_jar_init
unfolding used_slots
cookie_jar_init-IsJar = record { slots = refl; counted = refl }

put_cookie-Stored_example :
    IsJar (put_cookie (text "a.b") (text "id") (text "7") cookie_jar_init)
    × Stored
        (text "a.b")
        (text "id")
        (text "7")
        cookie_jar_init
        (put_cookie (text "a.b") (text "id") (text "7") cookie_jar_init)
put_cookie-Stored_example =
    put_cookie-Stored (text "a.b") (text "id") (text "7") cookie_jar_init cookie_jar_init-IsJar
      (omega arith) (omega arith)

header_read :
    header_value 256 (text "Content-Type") (text "content-type: text/html\r\nX: y\r\n")
    ≡ some (text "text/html")
unfolding header_value same_letters skip_while copy_while
header_read = refl

status_read : parse_status_line (text "HTTP/1.1 404 Not Found\r\n") ≡ some 404
unfolding parse_status_line scan_code skip_while has_prefix
status_read = refl

-- At the first hop the network sends on to another place; from then on it answers.
abbrev nets : ℕ → Network
nets k host port request =
    if k == 5
    then received (text "HTTP/1.1 302 Found\r\nLocation: /again\r\n\r\n")
    else received (text "HTTP/1.1 200 OK\r\n\r\nhello")

second_page : (follow_loop 6 nets 1000 (text "http://a.b/") no_response cookie_jar_init).0 ≡ pos 0
unfolding follow_loop parse_url after_scheme has_prefix fobos_os.Http.Request.http_get_raw
    fobos_os.Http.Headers.find_header_end fobos_os.Http.Headers.find_mark
    fobos_os.Http.Request.read_answer fobos_os.Http.Request.header_loop
    fobos_os.Http.Headers.next_line skip_while fobos_os.Http.Request.header_line header_value
    same_letters parse_status_line scan_code copy_while fobos_os.Http.Request.redirect_url
    fobos_os.Base.find_index chunk_loop decode_chunked hexval scan_size skip_line
    fobos_os.Http.Cookies.build_loop fobos_os.Http.Cookies.cookie_build
    fobos_os.Http.Cookies.cookie_find fobos_os.Http.Cookies.cookie_store put_cookie
    fobos_os.Http.Cookies.slot_for fobos_os.Http.Cookies.slot_used
    fobos_os.Http.Headers.contains_token fobos_os.Http.Headers.token_at
    fobos_os.Http.Request.request parse_port scan_port fobos_os.Wire.ends_with_domain
    fobos_os.Wire.net_host_matches fobos_os.Wire.same_string
second_page = refl
