-- ===== src/Http/Cookies.antt =====
-- The cookie jar of kernel/http.c: 32 slots and a count of those in use.
pub mod Count
use fobos_os.Base.{
  ℕ, zero, suc, ◌+◌, ◌-◌, Bool, true, false, not, ◌&&◌, ◌||◌, Option, none, some, List, [], ◌∷◌,
  ◌++◌, length, get_elem?, find_index, set, take, drop, replicate, ltb, ◌==◌, if◌then◌else◌, text,
}
use fobos_os.Wire.{same_string, net_host_matches}
use fobos_os.Http.Scan.{skip_while, copy_while, has_prefix, is_blank, peek, append_to}

-- `struct cookie_entry`
pub record Cookie : Type 0 where
  pub host : List ℕ
  pub name : List ℕ
  pub value : List ℕ
  pub used : Bool

pub record Jar : Type 0 where
  pub cookies : List Cookie
  pub count : ℕ

abbrev pub no_cookie : Cookie
no_cookie = record { host = []; name = []; value = []; used = false }

abbrev pub cookie_jar_init : Jar
cookie_jar_init = record { cookies = replicate 32 no_cookie; count = 0 }

abbrev pub is_cookie : List ℕ → List ℕ → Cookie → Bool
is_cookie host name c = c.used && same_string c.host host && same_string c.name name

-- The slot of the cookie with that host and name.
unfoldable pub cookie_find : List ℕ → List ℕ → List Cookie → Option ℕ
cookie_find host name cs = find_index (is_cookie host name) cs

-- The slot to store a cookie in: its own, or else the first free one.
unfoldable pub slot_for : List ℕ → List ℕ → List Cookie → Option ℕ
slot_for host name cs = elim (cookie_find host name cs) [
  | some i ↦ some i
  | none ↦ find_index (λ c. not c.used) cs
]

unfoldable pub slot_used : List Cookie → ℕ → Bool
slot_used cs i = elim (get_elem? cs i) [ none ↦ false | some c ↦ c.used ]

-- The end of `cookie_store`, from the name and the value read.
unfoldable pub put_cookie : List ℕ → List ℕ → List ℕ → Jar → Jar
put_cookie host name value j = elim (slot_for host name j.cookies) [
  | none ↦ j
  | some i ↦ record {
    cookies =
        set j.cookies i (record {
          host = take 79 host;
          name = take 47 name;
          value = take 127 value;
          used = true;
        });
    count = if slot_used j.cookies i then j.count else j.count + 1;
  }
]

-- The text behind an optional `Set-Cookie:`.
abbrev pub cookie_text : List ℕ → List ℕ
cookie_text set_cookie =
    let p = skip_while is_blank set_cookie in
    if ((peek p == b'S') || (peek p == b's')) && has_prefix (text "et-Cookie:") (drop 1 p)
    then skip_while is_blank (drop 11 p)
    else p

unfoldable pub cookie_store : List ℕ → List ℕ → Jar → Jar
cookie_store host set_cookie j =
    let (name, p) =
      copy_while (λ c. not (c == b'=') && not (c == b';')) 47 (cookie_text set_cookie) in
    let (value, q) = copy_while (λ c. not (c == b';')) 127 (drop 1 p) in
    if length set_cookie == 0
    then j
    else if not (peek p == b'=')
    then j
    else if length name == 0
    then j
    else put_cookie host name value j

-- One cookie in the `Cookie:` line of `cap` bytes: a separator, the name, `=` and the value.
abbrev pub write_cookie : ℕ → ℕ → Cookie → List ℕ → List ℕ
write_cookie cap n c out =
    let sep = if ltb 0 n && ltb (length out + 2) cap then out ++ text "; " else out in
    let named = append_to (cap - 1) sep c.name in
    append_to (cap - 1) (append_to (cap - 1) named (text "=")) c.value

-- The loop of `cookie_build`: the line so far and the number of cookies in it.
unfoldable pub build_loop : ℕ → List ℕ → List Cookie → List ℕ → ℕ → List ℕ × ℕ
build_loop cap host [] out n = (out, n)
build_loop cap host (c ∷ cs) out n =
    if c.used && net_host_matches c.host host
    then build_loop cap host cs (write_cookie cap n c out) (n + 1)
    else build_loop cap host cs out n

unfoldable pub cookie_build : ℕ → List ℕ → Jar → List ℕ × ℕ
cookie_build cap host j = build_loop cap host j.cookies [] 0
