-- ===== src/Http/Request/Redirects.antt =====
-- What `http_get_follow` of kernel/http.c promises.
use fobos_os.Base.{ℕ, suc, ◌≤◌, ◌<◌, ◌≡◌, true, false, some, List, [], length, ◌≢◌, text}
use fobos_os.Base.Int.{ℤ, pos, negsuc}
use fobos_os.Http.Scan.{has_prefix}
use fobos_os.Http.Cookies.{Jar}
use fobos_os.Http.Url.{parse_url}
use fobos_os.Http.Request.{Response, Network, Outcome, Page, http_get_raw, redirect_url}

-- An answer that sends on to another place: a status from 300 to 399 and a location.
pub record Redirects (r : Response) : Type 0 where
  pub status : ℕ
  pub status_eq : r.status ≡ some status
  pub from_300 : 300 ≤ status
  pub to_399 : status < 400
  pub some_place : 1 ≤ length r.location

module _ (nets : ℕ → Network) (body_cap : ℕ) where
  -- The request for a URL at the hop after which `k` are left.
  abbrev pub asked : ℕ → List ℕ → Jar → Outcome
  asked k cur j =
      let url = parse_url 128 384 cur in
      http_get_raw (nets k) url.host url.port url.path [] body_cap j

  -- From a URL, a number of hops left and a jar, redirects lead to another: each is the location
  -- that the answer before it names.
  pub data Led : ℕ → List ℕ → Jar → ℕ → List ℕ → Jar → Type 0 where
    stay : (n : ℕ) (cur : List ℕ) (j : Jar) → Led n cur j n cur j
    hop :
        (n n' : ℕ) (cur cur' : List ℕ) (r : Response) (j j1 j' : Jar)
        → has_prefix (text "https://") cur ≡ false
        → asked n cur j ≡ (pos 0, r, j1)
        → Redirects r
        → Led n (redirect_url (parse_url 128 384 cur).host r.location) j1 n' cur' j'
        → Led (suc n) cur j n' cur' j'

  -- How the loop stops at a URL with `k` hops left: the page is there; the request has failed, with
  -- the error's code; the URL is one of https, which is -100; no hop is left, which is -101.
  pub data Stop (cur : List ℕ) : ℕ → Jar → ℤ → Response → Jar → Type 0 where
    page :
        (k : ℕ) (r : Response) (j j' : Jar)
        → has_prefix (text "https://") cur ≡ false
        → asked k cur j ≡ (pos 0, r, j')
        → ¬ Redirects r
        → Stop cur (suc k) j (pos 0) r j'
    failed :
        (k : ℕ) (code : ℤ) (r : Response) (j j' : Jar)
        → has_prefix (text "https://") cur ≡ false
        → asked k cur j ≡ (code, r, j')
        → code ≢ pos 0
        → Stop cur (suc k) j code r j'
    secure :
        (k : ℕ) (r : Response) (j : Jar)
        → has_prefix (text "https://") cur ≡ true
        → Stop cur (suc k) j (negsuc 99) r j
    no_hops : (r : Response) (j : Jar) → Stop cur 0 j (negsuc 100) r j

  abbrev pub Ends : ℕ → List ℕ → Jar → Page → Type 0
  Ends hops cur j (code, cur', r, j') =
      (left : ℕ) × (before : Jar) × Led hops cur j left cur' before
      × Stop cur' left before code r j'
