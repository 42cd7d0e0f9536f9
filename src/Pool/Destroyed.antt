-- ===== src/Pool/Destroyed.antt =====
-- src/obpool.c: opool_destroy frees every block once.
use gibson_mastter.Base.{
  ℕ, zero, suc, ◌≤◌, ◌≡◌, refl, ◌⊎◌, inl, inr, List, [], ◌∷◌, ◌++◌, ◌==◌, Bool-cases, true, subst,
  arith,
}
use gibson_mastter.Pool.{Pool, Address, chain, opool_destroy}
use gibson_mastter.Pool.Fresh.{Made}

abbrev pub OneOf : ℕ → List ℕ → Type 0
OneOf n [] = ⊥
OneOf n (m ∷ ms) = (n ≡ m) ⊎ OneOf n ms

OneOf-before : (n : ℕ) (ms ks : List ℕ) → OneOf n ms → OneOf n (ms ++ ks)
OneOf-before n [] ks h = absurd h
OneOf-before n (m ∷ ms) ks (inl e) = inl e
OneOf-before n (m ∷ ms) ks (inr h) = inr (OneOf-before n ms ks h)

OneOf-last : (n : ℕ) (ms : List ℕ) → OneOf n (ms ++ n ∷ [])
OneOf-last n [] = inl refl
OneOf-last n (m ∷ ms) = inr (OneOf-last n ms)

at-last : (n m : ℕ) → (n == m) ≡ true → m ≡ n
at-last n m e = ground (arith, e)

chain-OneOf : (n m : ℕ) → n ≤ m → OneOf n (chain m)
unfolding chain
chain-OneOf n zero h = inl (omega (arith, h))
chain-OneOf n (suc m) h = elim (Bool-cases (n == suc m)) [
  | inl e ↦
      subst (λ k. OneOf k (chain m ++ suc m ∷ [])) (at-last n (suc m) e)
        (OneOf-last (suc m) (chain m))
  | inr e ↦ OneOf-before n (chain m) (suc m ∷ []) (chain-OneOf n m (ground (arith, e, h)))
]

-- opool_destroy frees the block of each object that the pool has made.
pub Made-destroyed : (p : Pool) (a : Address) → Made p a → OneOf a.0 (opool_destroy p).1
unfolding opool_destroy
Made-destroyed p a (inl before) = chain-OneOf a.0 p.block (omega (arith, before))
Made-destroyed p a (inr (e, used)) = chain-OneOf a.0 p.block (omega (arith, e))
