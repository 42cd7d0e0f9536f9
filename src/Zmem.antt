-- ===== src/Zmem.antt =====
-- src/zmem.c, where the allocator cannot tell a block's size (no HAVE_MALLOC_SIZE) and on a machine of
-- 64 bits: each block begins with its size, and `used_memory` counts what is allocated. What malloc and
-- realloc answer is a parameter, an address or none for NULL; the out-of-memory handler, which the
-- server sets to abort, does nothing to the count.
pub mod Count
use gibson_mastter.Base.{
  ℕ, suc, ◌+◌, ◌-◌, ◌%◌, ◌^◌, Option, none, some, List, [], ◌∷◌, Bool, ◌==◌, if◌then◌else◌, length,
}

-- A live block: its address, and the size in its first bytes.
pub record Memory : Type 0 where
  pub used_memory : ℕ
  pub blocks : List (ℕ × ℕ)

abbrev pub size_mod : ℕ
size_mod = 2 ^ 64

-- Padded to sizeof(long).
unfoldable pub padded : ℕ → ℕ
padded n = if n % 8 == 0 then n else (n + (8 - n % 8)) % size_mod

-- zmem_incr_mem and zmem_decr_mem
abbrev pub incr_mem : ℕ → ℕ → ℕ
incr_mem used n = (used + padded n) % size_mod

abbrev pub decr_mem : ℕ → ℕ → ℕ
decr_mem used n = (used + size_mod - padded n) % size_mod

-- ZMEM_PREFIX_SIZE, zmem_head_ptr, zmem_real_ptr
abbrev pub prefix_size : ℕ
prefix_size = 8

abbrev pub head_ptr : ℕ → ℕ
head_ptr p = p - prefix_size

abbrev pub real_ptr : ℕ → ℕ
real_ptr p = p + prefix_size

-- zmem_read_prefix
unfoldable pub read_prefix : List (ℕ × ℕ) → ℕ → Option ℕ
read_prefix [] p = none
read_prefix ((a, size) ∷ bs) p = let rest = read_prefix bs p in if a == p then some size else rest

unfoldable pub release : List (ℕ × ℕ) → ℕ → List (ℕ × ℕ)
release [] p = []
release ((a, size) ∷ bs) p = let rest = release bs p in if a == p then bs else (a, size) ∷ rest

abbrev pub size_or_0 : Option ℕ → ℕ
size_or_0 none = 0
size_or_0 (some n) = n

-- zmalloc and zcalloc: the pointer, and the memory.
unfoldable pub zmalloc : Memory → ℕ → Option ℕ → Option ℕ × Memory
zmalloc m size none = (none, m)
zmalloc m size (some ptr) = (
  some (real_ptr ptr),
  record {
    used_memory = incr_mem m.used_memory ((size + prefix_size) % size_mod);
    blocks = (ptr, size) ∷ m.blocks;
  },
)

-- zrealloc
unfoldable pub zrealloc : Memory → Option ℕ → ℕ → Option ℕ → Option ℕ × Memory
unfolding zmalloc
zrealloc m none size answer = zmalloc m size answer
zrealloc m (some ptr) size none = (none, m)
zrealloc m (some ptr) size (some newptr) =
    let oldsize = size_or_0 (read_prefix m.blocks (head_ptr ptr)) in
    (
      some (real_ptr newptr),
      record {
        used_memory = incr_mem (decr_mem m.used_memory oldsize) size;
        blocks = (newptr, size) ∷ release m.blocks (head_ptr ptr);
      },
    )

-- zmalloc_size of a block with this prefix
abbrev pub zmalloc_size : ℕ → ℕ
zmalloc_size size = (padded size + prefix_size) % size_mod

-- zfree
unfoldable pub zfree : Memory → Option ℕ → Memory
zfree m none = m
zfree m (some ptr) =
    let oldsize = size_or_0 (read_prefix m.blocks (head_ptr ptr)) in
    record {
      used_memory = decr_mem m.used_memory ((oldsize + prefix_size) % size_mod);
      blocks = release m.blocks (head_ptr ptr);
    }

-- zmemdup and zstrdup, of the bytes without the NUL
abbrev pub zmemdup : Memory → ℕ → Option ℕ → Option ℕ × Memory
zmemdup m size answer = zmalloc m size answer

abbrev pub zstrdup : Memory → List ℕ → Option ℕ → Option ℕ × Memory
zstrdup m s answer = zmalloc m (length s + 1) answer
