-- ===== src/Http/Cookies/Count.antt =====
-- The count of the cookie jar of kernel/http.c, and what a cookie that is stored can be found by.
use fobos_os.Base.{
  ℕ, zero, suc, ◌+◌, ◌<◌, ◌≤◌, ◌≡◌, refl, true, not, List, [], ◌∷◌, length, take, none, some, set,
  get_elem?, if◌then◌else◌, arith, ap, ◌∙◌, Bool-cases, Option-cases, inl, inr, length-set,
  get_elem?-set_self, take_all, find_index_lem, find_index-set, ◌⊎◌, find_index-none,
  get_elem?-set_ne, ◌≢◌, false,
}
use fobos_os.Wire.Strings.{same_string_refl, same_string_eq}
use fobos_os.Http.Cookies.{Cookie, Jar, is_cookie, cookie_find, slot_for, slot_used, put_cookie}

-- The number of slots in use.
unfoldable pub used_slots : List Cookie → ℕ
used_slots [] = 0
used_slots (c ∷ cs) = let later = used_slots cs in if c.used then suc later else later

-- 32 slots, and a count that is that of the slots in use.
pub record IsJar (j : Jar) : Type 0 where
  pub slots : length j.cookies ≡ 32
  pub counted : j.count ≡ used_slots j.cookies

slot_used_zero : (d : Cookie) (cs : List Cookie) → slot_used (d ∷ cs) 0 ≡ d.used
unfolding slot_used
slot_used_zero d cs = refl

slot_used-suc :
    (d : Cookie) (cs : List Cookie) (i : ℕ) → slot_used (d ∷ cs) (suc i) ≡ slot_used cs i
unfolding slot_used
slot_used-suc d cs i = refl

used_slots-set :
    (cs : List Cookie) (i : ℕ) (c : Cookie)
    → i < length cs
    → c.used ≡ true
    → used_slots (set cs i c) ≡ (if slot_used cs i then used_slots cs else used_slots cs + 1)
unfolding used_slots
used_slots-set [] i c h u = absurd (omega (arith, h))
used_slots-set (d ∷ cs) zero c h u = elim (Bool-cases d.used) [
  | inl k ↦ rw (slot_used_zero d cs, k, u) refl
  | inr k ↦ rw (slot_used_zero d cs, k, u) (omega arith)
]
used_slots-set (d ∷ cs) (suc i) c h u =
    let later = used_slots-set cs i c (omega (arith, h)) u in
    elim (Bool-cases d.used) [
      | inl k ↦ rw (slot_used-suc d cs i, k) (ground (arith, later))
      | inr k ↦ rw (slot_used-suc d cs i, k) later
    ]

cookie_find_lt :
    (host name : List ℕ) (cs : List Cookie) (i : ℕ)
    → cookie_find host name cs ≡ some i
    → i < length cs
unfolding cookie_find
cookie_find_lt host name cs i e = (find_index_lem (is_cookie host name) cs i e).0

cookie_find-set :
    (host name : List ℕ) (cs : List Cookie) (i : ℕ) (c : Cookie)
    → i < length cs
    → is_cookie host name c ≡ true
    → (cookie_find host name cs ≡ some i) ⊎ (cookie_find host name cs ≡ none)
    → cookie_find host name (set cs i c) ≡ some i
unfolding cookie_find
cookie_find-set host name cs i c h t f = find_index-set (is_cookie host name) cs i c h t f

-- The slot that a cookie is stored in is its own, or is free while it has none.
slot_for_cases :
    (host name : List ℕ) (cs : List Cookie) (i : ℕ)
    → slot_for host name cs ≡ some i
    → (i < length cs) × ((cookie_find host name cs ≡ some i) ⊎ (cookie_find host name cs ≡ none))
unfolding slot_for
slot_for_cases host name cs i e = elim (Option-cases (cookie_find host name cs)) [
  | inl m ↦ let e' = rw (m, slot_for) at e in ((find_index_lem (λ c. not c.used) cs i e').0, inr m)
  | inr (n, m) ↦
      let e' = rw (m, slot_for) at e in
      let same : n ≡ i = ground (arith, e') in
      (cookie_find_lt host name cs i (m ∙ ap some same), inl (m ∙ ap some same))
]

-- The cookie of that host and name.
pub record Holds (host name : List ℕ) (c : Cookie) : Type 0 where
  pub in_use : c.used ≡ true
  pub host_eq : c.host ≡ host
  pub name_eq : c.name ≡ name

Holds-is_cookie :
    (host name : List ℕ) (c : Cookie) → is_cookie host name c ≡ true → Holds host name c
Holds-is_cookie host name c h = record {
  in_use = ground (arith, h);
  host_eq = same_string_eq c.host host (ground (arith, h));
  name_eq = same_string_eq c.name name (ground (arith, h));
}

is_cookie-Holds :
    (host name : List ℕ) (c : Cookie) → Holds host name c → is_cookie host name c ≡ true
is_cookie-Holds host name c h =
    rw (h.in_use, h.host_eq, h.name_eq, same_string_refl host, same_string_refl name) refl

-- Every slot is in use, and none by a cookie of that host and name.
pub record Full (host name : List ℕ) (cs : List Cookie) : Type 0 where
  pub all_used : (i : ℕ) (c : Cookie) → get_elem? cs i ≡ some c → c.used ≡ true
  pub no_such : (i : ℕ) (c : Cookie) → get_elem? cs i ≡ some c → ¬ Holds host name c

-- The cookie is found by its host and name, with its value cut to 127 characters, in a slot that
-- held that cookie before or was free; the other slots are as they were.
pub record Kept (host name value : List ℕ) (j j' : Jar) : Type 0 where
  pub slot : ℕ
  pub before : Cookie
  pub before_eq : get_elem? j.cookies slot ≡ some before
  pub own_or_free : Holds host name before ⊎ (before.used ≡ false)
  pub cookie : Cookie
  pub found : cookie_find host name j'.cookies ≡ some slot
  pub cookie_eq : get_elem? j'.cookies slot ≡ some cookie
  pub holds : Holds host name cookie
  pub value_eq : cookie.value ≡ take 127 value
  pub others : (k : ℕ) → slot ≢ k → get_elem? j'.cookies k ≡ get_elem? j.cookies k

-- What storing a cookie comes to: a full jar stays as it was, or the cookie is in the jar.
pub Stored : List ℕ → List ℕ → List ℕ → Jar → Jar → Type 0
Stored host name value j j' = (Full host name j.cookies × (j' ≡ j)) ⊎ Kept host name value j j'

slot_for-none :
    (host name : List ℕ) (cs : List Cookie) → slot_for host name cs ≡ none → Full host name cs
unfolding slot_for cookie_find
slot_for-none host name cs e = elim (Option-cases (cookie_find host name cs)) [
  | inl m ↦
      let e' = rw (m, slot_for) at e in
      record {
        all_used = λ i c g.
            let busy = find_index-none (λ c. not c.used) cs i c e' g in ground (arith, busy);
        no_such = λ i c g held.
            let off = find_index-none (is_cookie host name) cs i c m g in
            let on = is_cookie-Holds host name c held in ground (arith, off, on);
      }
  | inr (n, m) ↦ let e' = rw (m, slot_for) at e in ground (arith, e')
]

slot_for-some :
    (host name : List ℕ) (cs : List Cookie) (i : ℕ)
    → slot_for host name cs ≡ some i
    → (c : Cookie) × (get_elem? cs i ≡ some c) × (Holds host name c ⊎ (c.used ≡ false))
unfolding slot_for cookie_find
slot_for-some host name cs i e = elim (Option-cases (cookie_find host name cs)) [
  | inl m ↦
      let e' = rw (m, slot_for) at e in
      let (b, (c, g, free)) = find_index_lem (λ c. not c.used) cs i e' in
      (c, g, inr (ground (arith, free)))
  | inr (n, m) ↦
      let e' = rw (m, slot_for) at e in
      let same : n ≡ i = ground (arith, e') in
      let (b, (c, g, own)) = find_index_lem (is_cookie host name) cs i (m ∙ ap some same) in
      (c, g, inl (Holds-is_cookie host name c own))
]

-- Storing a cookie whose host and name fit their fields keeps the jar's count that of the slots in
-- use. Either every slot is in use and none by that host and name, and the jar stays as it was; or
-- the cookie is found by host and name from then on, in a slot that was its own or free, and the
-- other slots are as they were.
pub put_cookie-Stored :
    (host name value : List ℕ) (j : Jar)
    → IsJar j
    → length host ≤ 79
    → length name ≤ 47
    → IsJar (put_cookie host name value j) × Stored host name value j (put_cookie host name value j)
unfolding put_cookie Stored
put_cookie-Stored host name value j v fit_host fit_name =
    elim (Option-cases (slot_for host name j.cookies)) [
      | inl m ↦ rw (m, put_cookie) (v, inl (slot_for-none host name j.cookies m, refl))
      | inr (i, m) ↦
          let where_to = slot_for_cases host name j.cookies i m in
          let (b, g, own) = slot_for-some host name j.cookies i m in
          let c : Cookie = record {
            host = take 79 host;
            name = take 47 name;
            value = take 127 value;
            used = true;
          } in
          let holds : Holds host name c = record {
            in_use = refl;
            host_eq = take_all 79 host fit_host;
            name_eq = take_all 47 name fit_name;
          } in
          let named = is_cookie-Holds host name c holds in
          rw (m, put_cookie)
            (
              record {
                slots = length-set j.cookies i c ∙ v.slots;
                counted = ground (arith, v.counted, used_slots-set j.cookies i c where_to.0 refl);
              },
              inr (record {
                slot = i;
                before = b;
                before_eq = g;
                own_or_free = own;
                cookie = c;
                found = cookie_find-set host name j.cookies i c where_to.0 named where_to.1;
                cookie_eq = get_elem?-set_self j.cookies i c where_to.0;
                holds = holds;
                value_eq = refl;
                others = λ k ne. get_elem?-set_ne j.cookies c ne;
              }),
            )
    ]
