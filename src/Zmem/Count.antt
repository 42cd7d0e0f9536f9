-- ===== src/Zmem/Count.antt =====
-- src/zmem.c: the count of used memory and the live blocks.
use gibson_mastter.Base.{
  ℕ, ◌+◌, ◌%◌, ◌^◌, ◌<◌, ◌≡◌, refl, sym, ap, ◌∙◌, inl, inr, Option, none, some, List, [], ◌∷◌, true,
  false, ◌==◌, arith, All, Bool-cases, if_rule,
}
use mathlib.Core.Option.{some-injective}
use gibson_mastter.Zmem.{
  Memory, padded, head_ptr, read_prefix, release, zmalloc, zrealloc, zmalloc_size, zfree,
}

-- What zmalloc_size says of the blocks, together.
abbrev pub total : List (ℕ × ℕ) → ℕ
total [] = 0
total ((a, size) ∷ bs) = zmalloc_size size + total bs

-- The sizes that an allocator can give.
abbrev pub Possible : ℕ × ℕ → Type 0
Possible b = b.1 < 2 ^ 62

padded-prefix : (n : ℕ) → n < 2 ^ 62 → padded ((n + 8) % 2 ^ 64) ≡ zmalloc_size n
unfolding padded
padded-prefix n h = ground (arith, h)

padded_small : (n : ℕ) → n < 2 ^ 62 → (zmalloc_size n ≡ padded n + 8) × (padded n < 2 ^ 63)
unfolding padded
padded_small n h = ground (arith, h)

read-here :
    (a n : ℕ) (bs : List (ℕ × ℕ)) (p : ℕ) → (a == p) ≡ true → read_prefix ((a, n) ∷ bs) p ≡ some n
unfolding read_prefix
read-here a n bs p e = rw e refl

read-there :
    (a n : ℕ) (bs : List (ℕ × ℕ)) (p : ℕ)
    → (a == p) ≡ false
    → read_prefix ((a, n) ∷ bs) p ≡ read_prefix bs p
unfolding read_prefix
read-there a n bs p e = rw e refl

total-release :
    (bs : List (ℕ × ℕ)) (p size : ℕ)
    → read_prefix bs p ≡ some size
    → total bs ≡ zmalloc_size size + total (release bs p)
unfolding read_prefix release
total-release [] p size e = ground arith
total-release ((a, n) ∷ bs) p size e = elim (Bool-cases (a == p)) [
  | inl here ↦
      let same : n ≡ size = some-injective n size (sym (read-here a n bs p here) ∙ e) in
      rw here (ap (λ k. zmalloc_size k + total bs) same)
  | inr there ↦
      let less = total-release bs p size (sym (read-there a n bs p there) ∙ e) in
      rw there (omega (arith, less))
]

read-Possible :
    (bs : List (ℕ × ℕ)) (p size : ℕ)
    → All Possible bs
    → read_prefix bs p ≡ some size
    → size < 2 ^ 62
unfolding read_prefix
read-Possible [] p size h e = ground arith
read-Possible ((a, n) ∷ bs) p size (h, hs) e = elim (Bool-cases (a == p)) [
  | inl here ↦ omega (arith, h, some-injective n size (sym (read-here a n bs p here) ∙ e))
  | inr there ↦ read-Possible bs p size hs (sym (read-there a n bs p there) ∙ e)
]

release-Possible : (bs : List (ℕ × ℕ)) (p : ℕ) → All Possible bs → All Possible (release bs p)
unfolding release
release-Possible [] p h = tt
release-Possible ((a, n) ∷ bs) p (h, hs) =
    if_rule (All Possible) (a == p) _ _ (λ _. hs) (λ _. (h, release-Possible bs p hs))

-- The memory after calls of the allocator: blocks are freed and reallocated that are live, and malloc
-- succeeds only for a size that there can be.
pub data Reached : Memory → Type 0 where
  start : Reached (record { used_memory = 0; blocks = [] })
  allocated :
      (m : Memory) (size : ℕ) (answer : Option ℕ)
      → Reached m
      → size < 2 ^ 62
      → Reached (zmalloc m size answer).1
  reallocated :
      (m : Memory) (ptr size old : ℕ) (answer : Option ℕ)
      → Reached m
      → size < 2 ^ 62
      → read_prefix m.blocks (head_ptr ptr) ≡ some old
      → Reached (zrealloc m (some ptr) size answer).1
  freed :
      (m : Memory) (ptr old : ℕ)
      → Reached m
      → read_prefix m.blocks (head_ptr ptr) ≡ some old
      → Reached (zfree m (some ptr))

pub record Counted (m : Memory) : Type 0 where
  pub possible : All Possible m.blocks
  pub count : m.used_memory ≡ total m.blocks % 2 ^ 64

zmalloc-Counted :
    (m : Memory) (size : ℕ) (answer : Option ℕ)
    → size < 2 ^ 62
    → Counted m
    → Counted (zmalloc m size answer).1
unfolding zmalloc
zmalloc-Counted m size none small h = h
zmalloc-Counted m size (some p) small h = record {
  possible = (small, h.possible);
  count = rw (padded-prefix size small) (omega (arith, h.count));
}

zfree-Counted :
    (m : Memory) (ptr old : ℕ)
    → read_prefix m.blocks (head_ptr ptr) ≡ some old
    → Counted m
    → Counted (zfree m (some ptr))
unfolding zfree
zfree-Counted m ptr old e h = record {
  possible = release-Possible m.blocks (head_ptr ptr) h.possible;
  count = rw e (
      let small = read-Possible m.blocks (head_ptr ptr) old h.possible e in
      rw (padded-prefix old small) (
        omega
          (arith, h.count, total-release m.blocks (head_ptr ptr) old e, padded_small old small)));
}

zrealloc-Counted :
    (m : Memory) (ptr size old : ℕ) (answer : Option ℕ)
    → size < 2 ^ 62
    → read_prefix m.blocks (head_ptr ptr) ≡ some old
    → Counted m
    → Counted (zrealloc m (some ptr) size answer).1
unfolding zrealloc
zrealloc-Counted m ptr size old none small e h = h
zrealloc-Counted m ptr size old (some p) small e h = record {
  possible = (small, release-Possible m.blocks (head_ptr ptr) h.possible);
  count = rw e (
      let was = read-Possible m.blocks (head_ptr ptr) old h.possible e in
      omega (
        arith,
        h.count,
        total-release m.blocks (head_ptr ptr) old e,
        padded_small old was,
        padded_small size small,
      ));
}

-- Whatever calls of zmalloc (and so of zcalloc, zmemdup and zstrdup), zrealloc and zfree there have
-- been, zmem_used is the sum of zmalloc_size over the live blocks, modulo 2^64. Only live blocks are
-- freed and reallocated, and sizes are less than 2^62.
pub zmem_used-total : {m : Memory} → Reached m → m.used_memory ≡ total m.blocks % 2 ^ 64
zmem_used-total r = (counted r).count
  where
    counted : {m : Memory} → Reached m → Counted m
    counted start = record { possible = tt; count = refl }
    counted (allocated m size answer r small) = zmalloc-Counted m size answer small (counted r)
    counted (reallocated m ptr size old answer r small e) =
        zrealloc-Counted m ptr size old answer small e (counted r)
    counted (freed m ptr old r e) = zfree-Counted m ptr old e (counted r)
