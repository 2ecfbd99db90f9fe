-- ===== src/Base/Modify.antt =====
-- A table of records, one of which is changed in place.
use Prim.Native.Nat.{ℕ, zero, suc, ◌<◌, ◌-◌}
use mathlib.Core.Path.{◌≡◌, refl, ap}
use mathlib.Core.List.{List, [], ◌∷◌, ◌++◌}
use mathlib.Core.Option.{Option, none, some}
use native.Mathlib.Omega.{arith}
use fobos_os.Base.Tests.{◌==◌, ltb, if◌then◌else◌}
use fobos_os.Base.Lists.{length, get_elem?}

module _ {ℓ} {A : Type ℓ} where
  -- `xs[i]` is replaced by `f(xs[i])`; out of range nothing changes.
  abbrev pub modify : ℕ → (A → A) → List A → List A
  modify i f [] = []
  modify zero f (x ∷ xs) = f x ∷ xs
  modify (suc i) f (x ∷ xs) = x ∷ modify i f xs

  abbrev pub map_some : (A → A) → Option A → Option A
  map_some f none = none
  map_some f (some x) = some (f x)

  pub length-modify : (i : ℕ) (f : A → A) (xs : List A) → length (modify i f xs) ≡ length xs
  length-modify i f [] = refl
  length-modify zero f (x ∷ xs) = refl
  length-modify (suc i) f (x ∷ xs) = ap suc (length-modify i f xs)

  pub get_elem?-modify :
      (i : ℕ) (f : A → A) (xs : List A) (j : ℕ)
      → get_elem? (modify i f xs) j
        ≡ (if j == i then map_some f (get_elem? xs j) else get_elem? xs j)
  get_elem?-modify i f [] j = ground arith
  get_elem?-modify zero f (x ∷ xs) zero = refl
  get_elem?-modify zero f (x ∷ xs) (suc j) = ground arith
  get_elem?-modify (suc i) f (x ∷ xs) zero = ground arith
  get_elem?-modify (suc i) f (x ∷ xs) (suc j) = ground (arith, get_elem?-modify i f xs j)

  pub get_elem?-lt : (xs : List A) (i : ℕ) {a : A} → get_elem? xs i ≡ some a → i < length xs
  get_elem?-lt [] i h = ground arith
  get_elem?-lt (x ∷ xs) zero h = omega arith
  get_elem?-lt (x ∷ xs) (suc i) h = omega (arith, get_elem?-lt xs i h)

  pub get_elem?-some : (xs : List A) (i : ℕ) → i < length xs → (a : A) × (get_elem? xs i ≡ some a)
  get_elem?-some [] i h = elim h [ ]
  get_elem?-some (x ∷ xs) zero h = (x, refl)
  get_elem?-some (x ∷ xs) (suc i) h = get_elem?-some xs i (omega arith)

  pub get_elem?-append :
      (xs ys : List A) (i : ℕ)
      → get_elem? (xs ++ ys) i
        ≡ (if ltb i (length xs) then get_elem? xs i else get_elem? ys (i - length xs))
  get_elem?-append [] ys i = ground arith
  get_elem?-append (x ∷ xs) ys zero = ground arith
  get_elem?-append (x ∷ xs) ys (suc i) = ground (arith, get_elem?-append xs ys i)
