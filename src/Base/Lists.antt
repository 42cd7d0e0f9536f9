-- ===== src/Base/Lists.antt =====
-- Lists measured and indexed by native numbers, under the library's names.
use Prim.Native.Nat.{ℕ, zero, suc, ◌+◌, ◌-◌, ◌≤◌, min}
use Prim.Native.Char.{code}
use Prim.Native.String.{String}
use mathlib.Core.Path.{◌≡◌, refl, sym, ap, ◌∙◌}
use mathlib.Core.Bool.{Bool, true, false, ◌&&◌}
use mathlib.Core.List.{List, [], ◌∷◌, ◌++◌}
use native.Mathlib.Omega.{arith}
use gibson_mastter.Base.Tests.{◌==◌}

module _ {ℓ} {A : Type ℓ} where
  abbrev pub length : List A → ℕ
  length [] = 0
  length (x ∷ xs) = suc (length xs)

  abbrev pub take : ℕ → List A → List A
  take zero xs = []
  take (suc n) [] = []
  take (suc n) (x ∷ xs) = x ∷ take n xs

  abbrev pub drop : ℕ → List A → List A
  drop zero xs = xs
  drop (suc n) [] = []
  drop (suc n) (x ∷ xs) = drop n xs

  pub length-append : (xs ys : List A) → length (xs ++ ys) ≡ length xs + length ys
  length-append [] ys = omega arith
  length-append (x ∷ xs) ys = omega (arith, length-append xs ys)

  pub length-take : (n : ℕ) (xs : List A) → length (take n xs) ≡ min n (length xs)
  length-take zero xs = omega arith
  length-take (suc n) [] = omega arith
  length-take (suc n) (x ∷ xs) = omega (arith, length-take n xs)

  pub take-over : (n : ℕ) (xs : List A) → length xs ≤ n → take n xs ≡ xs
  take-over zero [] h = refl
  take-over zero (x ∷ xs) h = ground (arith, h)
  take-over (suc n) [] h = refl
  take-over (suc n) (x ∷ xs) h = ap (λ ys. x ∷ ys) (take-over n xs (omega (arith, h)))

  pub drop-over : (n : ℕ) (xs : List A) → length xs ≤ n → drop n xs ≡ []
  drop-over zero [] h = refl
  drop-over zero (x ∷ xs) h = ground (arith, h)
  drop-over (suc n) [] h = refl
  drop-over (suc n) (x ∷ xs) h = drop-over n xs (omega (arith, h))

  pub length-drop : (n : ℕ) (xs : List A) → length (drop n xs) ≡ length xs - n
  length-drop zero xs = omega arith
  length-drop (suc n) [] = omega arith
  length-drop (suc n) (x ∷ xs) = omega (arith, length-drop n xs)

  pub take-within : (m n : ℕ) (xs : List A) → m ≤ n → take m (take n xs) ≡ take m xs
  take-within zero n xs h = refl
  take-within (suc m) zero xs h = ground (arith, h)
  take-within (suc m) (suc n) [] h = refl
  take-within (suc m) (suc n) (x ∷ xs) h = ap (λ ys. x ∷ ys) (take-within m n xs (omega (arith, h)))

  pub take-split :
      (n k : ℕ) (xs : List A) → n ≤ k → take n xs ++ take (k - n) (drop n xs) ≡ take k xs
  take-split zero k xs h = ap (λ j. take j xs) {x = k - 0} {y = k} (omega arith)
  take-split (suc n) zero xs h = ground (arith, h)
  take-split (suc n) (suc k) [] h = take-over (suc k - suc n) [] (omega arith)
  take-split (suc n) (suc k) (x ∷ xs) h =
      ap (λ ys. x ∷ ys)
        (ap (λ j. take n xs ++ take j (drop n xs)) {x = suc k - suc n} {y = k - n} (omega arith)
          ∙ take-split n k xs (omega (arith, h)))

  pub drop-drop : (n m : ℕ) (xs : List A) → drop m (drop n xs) ≡ drop (n + m) xs
  drop-drop zero m xs = ap (λ k. drop k xs) {x = m} {y = 0 + m} (omega arith)
  drop-drop (suc n) m [] =
      drop-over m [] (omega arith) ∙ sym (drop-over (suc n + m) [] (omega arith))
  drop-drop (suc n) m (x ∷ xs) =
      drop-drop n m xs ∙ ap (λ k. drop k (x ∷ xs)) {x = suc (n + m)} {y = suc n + m} (omega arith)

-- The bytes of an ASCII text.
abbrev pub codes : String → List ℕ
codes String.[] = []
codes (String.◌∷◌ c s) = code c ∷ codes s

-- A predicate on every element.
abbrev pub All {ℓ κ} : {A : Type ℓ} → (A → Type κ) → List A → Type κ
All P [] = Unit
All P (x ∷ xs) = P x × All P xs

-- Equality of byte strings.
abbrev pub key_eq : List ℕ → List ℕ → Bool
key_eq [] [] = true
key_eq [] (y ∷ ys) = false
key_eq (x ∷ xs) [] = false
key_eq (x ∷ xs) (y ∷ ys) = (x == y) && key_eq xs ys

pub key_eq_refl : (k : List ℕ) → key_eq k k ≡ true
key_eq_refl [] = refl
key_eq_refl (x ∷ xs) = ground (arith, key_eq_refl xs)

pub eq_of_key_eq : (j k : List ℕ) → key_eq j k ≡ true → j ≡ k
eq_of_key_eq [] [] h = refl
eq_of_key_eq [] (y ∷ ys) h = ground arith
eq_of_key_eq (x ∷ xs) [] h = ground arith
eq_of_key_eq (x ∷ xs) (y ∷ ys) h = ground (arith, eq_of_key_eq xs ys)
