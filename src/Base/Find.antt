-- ===== src/Base/Find.antt =====
-- The first element of a list that passes a test, as the index that a C loop would stop at.
use Prim.Native.Nat.{ℕ, zero, suc, ◌<◌}
use mathlib.Core.Path.{◌≡◌, refl, ap, sym}
use mathlib.Core.Logic.{◌⊎◌, inl, inr}
use mathlib.Core.Bool.{Bool, true, false}
use mathlib.Core.Option.{Option, none, some}
use mathlib.Core.List.{List, [], ◌∷◌}
use native.Mathlib.Omega.{arith}
use fobos_os.Base.Tests.{if◌then◌else◌, Bool-cases}
use fobos_os.Base.Lists.{length, set, get_elem?}

abbrev pub next_index : Option ℕ → Option ℕ
next_index none = none
next_index (some i) = some (suc i)

next_index-some :
    (o : Option ℕ) (i : ℕ) → next_index o ≡ some i → (k : ℕ) × (o ≡ some k) × (i ≡ suc k)
next_index-some none i e = ground (arith, e)
next_index-some (some k) i e = (k, refl, ground (arith, e))

module _ {ℓ} {A : Type ℓ} where
  unfoldable pub find_index : (A → Bool) → List A → Option ℕ
  find_index test [] = none
  find_index test (x ∷ xs) =
      let later = find_index test xs in if test x then some 0 else next_index later

  -- The element found passes the test.
  pub find_index_lem :
      (test : A → Bool) (xs : List A) (i : ℕ)
      → find_index test xs ≡ some i
      → (i < length xs) × ((x : A) × (get_elem? xs i ≡ some x) × (test x ≡ true))
  unfolding find_index
  find_index_lem test [] i e = ground (arith, e)
  find_index_lem test (x ∷ xs) i e = elim (Bool-cases (test x)) [
    | inl k ↦ let e' : i ≡ 0 = ground (arith, rw k at e) in rw e' (omega arith, (x, refl, k))
    | inr k ↦
        let (n, m, e') = next_index-some (find_index test xs) i (rw k at e) in
        let later = find_index_lem test xs n m in rw e' (omega (arith, later.0), later.1)
  ]

  -- An element that comes to pass the test is the first one, where one was before or where none was.
  pub find_index-set :
      (test : A → Bool) (xs : List A) (i : ℕ) (a : A)
      → i < length xs
      → test a ≡ true
      → (find_index test xs ≡ some i) ⊎ (find_index test xs ≡ none)
      → find_index test (set xs i a) ≡ some i
  unfolding find_index
  find_index-set test [] i a h t f = absurd (omega (arith, h))
  find_index-set test (x ∷ xs) zero a h t f = rw t refl
  find_index-set test (x ∷ xs) (suc i) a h t f = elim (Bool-cases (test x)) [
    | inl k ↦ let f' = rw k at f in ground (arith, f')
    | inr k ↦
        let f' = rw k at f in
        let before : (find_index test xs ≡ some i) ⊎ (find_index test xs ≡ none) =
          stepped_back (find_index test xs) i f' in
        rw k (ap next_index (find_index-set test xs i a (omega (arith, h)) t before))
  ]
    where
      stepped_back :
          (o : Option ℕ) (i : ℕ)
          → (next_index o ≡ some (suc i)) ⊎ (next_index o ≡ none)
          → (o ≡ some i) ⊎ (o ≡ none)
      stepped_back none i f = inr refl
      stepped_back (some k) i f = ground (arith, f)

  abbrev unwrap : Option A → A → A
  unwrap none d = d
  unwrap (some x) d = x

  -- A change of an element that fails the test before and after is not seen.
  pub find_index-set_other :
      (test : A → Bool) (xs : List A) (i : ℕ) (a b : A)
      → get_elem? xs i ≡ some b
      → test a ≡ false
      → test b ≡ false
      → find_index test (set xs i a) ≡ find_index test xs
  unfolding find_index
  find_index-set_other test [] i a b e ta tb = refl
  find_index-set_other test (x ∷ xs) zero a b e ta tb =
      let same : x ≡ b = ap (λ o. unwrap o x) e in
      let fails : test x ≡ false = rw same tb in rw (ta, fails) refl
  find_index-set_other test (x ∷ xs) (suc i) a b e ta tb = elim (Bool-cases (test x)) [
    | inl k ↦ rw k refl
    | inr k ↦ rw k (ap next_index (find_index-set_other test xs i a b e ta tb))
  ]

  -- Nothing is found just where every element fails the test.
  pub find_index-none :
      (test : A → Bool) (xs : List A) (i : ℕ) (x : A)
      → find_index test xs ≡ none
      → get_elem? xs i ≡ some x
      → test x ≡ false
  unfolding find_index
  find_index-none test [] i x e g = ground (arith, g)
  find_index-none test (y ∷ xs) i x e g = elim (Bool-cases (test y)) [
    | inl k ↦ let e' = rw k at e in ground (arith, e')
    | inr k ↦
        at_index i k g (λ j. find_index-none test xs j x (no_next (find_index test xs) (rw k at e)))
  ]
    where
      no_next : (o : Option ℕ) → next_index o ≡ none → o ≡ none
      no_next none h = refl
      no_next (some i) h = ground (arith, h)

      at_index :
          (i : ℕ)
          → test y ≡ false
          → get_elem? (y ∷ xs) i ≡ some x
          → ((j : ℕ) → get_elem? xs j ≡ some x → test x ≡ false)
          → test x ≡ false
      at_index zero k g later = let same : x ≡ y = ap (λ o. unwrap o x) (sym g) in rw same k
      at_index (suc i) k g later = later i g

  pub all_fail-find_index :
      (test : A → Bool) (xs : List A)
      → ((i : ℕ) (x : A) → get_elem? xs i ≡ some x → test x ≡ false)
      → find_index test xs ≡ none
  unfolding find_index
  all_fail-find_index test [] h = refl
  all_fail-find_index test (x ∷ xs) h =
      rw (h 0 x refl, all_fail-find_index test xs (λ i. h (suc i))) refl
