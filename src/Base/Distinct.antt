-- ===== src/Base/Distinct.antt =====
-- Lists of distinct numbers, and the pigeonhole bound on their length.
use Prim.Native.Nat.{ℕ, zero, suc, ◌≤◌, ◌<◌}
use mathlib.Core.Path.{◌≡◌, refl, sym}
use mathlib.Core.Logic.{◌≢◌}
use mathlib.Core.List.{List, [], ◌∷◌, ◌++◌}
use native.Mathlib.Omega.{arith}
use gibson_mastter.Base.Tests.{◌==◌, if◌then◌else◌}
use gibson_mastter.Base.Lists.{length, All}

abbrev pub Absent : ℕ → List ℕ → Type 0
Absent a = All (λ x. x ≢ a)

abbrev pub Distinct : List ℕ → Type 0
Distinct [] = Unit
Distinct (x ∷ xs) = Absent x xs × Distinct xs

abbrev pub Below : ℕ → List ℕ → Type 0
Below n = All (λ x. x < n)

without : ℕ → List ℕ → List ℕ
without a [] = []
without a (x ∷ xs) = let rest = without a xs in if x == a then rest else x ∷ rest

length-without-Absent : (a : ℕ) (xs : List ℕ) → Absent a xs → length (without a xs) ≡ length xs
unfolding without
length-without-Absent a [] h = refl
length-without-Absent a (x ∷ xs) h = ground (arith, length-without-Absent a xs h.1, h.0)

length-without : (a : ℕ) (xs : List ℕ) → Distinct xs → length xs ≤ suc (length (without a xs))
unfolding without
length-without a [] h = omega arith
length-without a (x ∷ xs) h = ground (arith, length-without a xs h.1, length-without-Absent a xs)

without-Absent : (a b : ℕ) (xs : List ℕ) → Absent b xs → Absent b (without a xs)
unfolding without
without-Absent a b [] h = tt
without-Absent a b (x ∷ xs) h = ground (arith, without-Absent a b xs h.1, h.0)

without-Distinct : (a : ℕ) (xs : List ℕ) → Distinct xs → Distinct (without a xs)
unfolding without
without-Distinct a [] h = tt
without-Distinct a (x ∷ xs) h = ground (arith, without-Distinct a xs h.1, without-Absent a x xs h.0)

without-Below : (n : ℕ) (xs : List ℕ) → Below (suc n) xs → Below n (without n xs)
unfolding without
without-Below n [] h = tt
without-Below n (x ∷ xs) h = ground (arith, without-Below n xs h.1, h.0)

pub pigeonhole : (n : ℕ) (xs : List ℕ) → Distinct xs → Below n xs → length xs ≤ n
pigeonhole zero [] d b = omega arith
pigeonhole zero (x ∷ xs) d b = elim b.0 [ ]
pigeonhole (suc n) xs d b = omega (
  arith,
  length-without n xs d,
  pigeonhole n (without n xs) (without-Distinct n xs d) (without-Below n xs b),
)

pub append-Absent : (a c : ℕ) (xs : List ℕ) → Absent a xs → c ≢ a → Absent a (xs ++ c ∷ [])
append-Absent a c [] h e = (e, tt)
append-Absent a c (x ∷ xs) h e = (h.0, append-Absent a c xs h.1 e)

pub append-Distinct : (c : ℕ) (xs : List ℕ) → Distinct xs → Absent c xs → Distinct (xs ++ c ∷ [])
append-Distinct c [] d h = (tt, tt)
append-Distinct c (x ∷ xs) d h =
    (append-Absent x c xs d.0 (λ e. h.0 (sym e)), append-Distinct c xs d.1 h.1)

pub append-Below : (n c : ℕ) (xs : List ℕ) → Below n xs → c < n → Below n (xs ++ c ∷ [])
append-Below n c [] b h = (h, tt)
append-Below n c (x ∷ xs) b h = (b.0, append-Below n c xs b.1 h)
