-- ===== src/Wire/Strings.antt =====
-- `strcmp(a, b) == 0` as the equality of texts.
use fobos_os.Base.{ℕ, ◌≡◌, ◌≢◌, refl, true, false, List, [], ◌∷◌, ◌==◌, arith, Bool-cases, inl, inr}
use fobos_os.Wire.{same_string}

pub same_string_refl : (s : List ℕ) → same_string s s ≡ true
unfolding same_string
same_string_refl [] = refl
same_string_refl (c ∷ s) =
    let here : (c == c) ≡ true = ground arith in rw (here, same_string_refl s) refl

pub same_string_eq : (s t : List ℕ) → same_string s t ≡ true → s ≡ t
unfolding same_string
same_string_eq [] [] h = refl
same_string_eq [] (c ∷ t) h = ground (arith, h)
same_string_eq (c ∷ s) [] h = ground (arith, h)
same_string_eq (c ∷ s) (d ∷ t) h = elim (Bool-cases (c == d)) [
  | inl k ↦
      let first : c ≡ d = ground (arith, k) in
      let rest = same_string_eq s t (rw k at h) in rw (first, rest) refl
  | inr k ↦ let h' = rw k at h in ground (arith, h')
]

pub same_string_ne : (s t : List ℕ) → s ≢ t → same_string s t ≡ false
same_string_ne s t ne = elim (Bool-cases (same_string s t)) [
  | inl k ↦ absurd (ne (same_string_eq s t k))
  | inr k ↦ k
]
