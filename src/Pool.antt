-- ===== src/Pool.antt =====
-- src/obpool.h and src/obpool.c: the pool that the items are allocated from.
-- A block is named by its number, in the order of allocation, and an object by its block and its
-- place in it. The free list runs through the freed objects; here it is a list of places.
pub mod Fresh
pub mod Bounds
pub mod Destroyed
use gibson_mastter.Base.{
  ℕ, zero, suc, ◌+◌, ◌++◌, ◌*◌, ◌%◌, ◌^◌, List, [], ◌∷◌, ltb, leb, if◌then◌else◌,
}

abbrev pub Address : Type 0
Address = ℕ × ℕ

pub record Pool : Type 0 where
  -- the blocks before the current one
  pub full_blocks : List ℕ
  -- the current block, its capacity and the objects used in it
  pub block : ℕ
  pub capacity : ℕ
  pub used : ℕ
  pub first_free : List Address
  pub total_capacity : ℕ
  pub object_size : ℕ
  pub max_block_size : ℕ

unfoldable pub opool_create : ℕ → ℕ → ℕ → Pool
opool_create object_size initial_capacity max_block_size = record {
  full_blocks = [];
  block = 0;
  capacity = initial_capacity;
  used = 0;
  first_free = [];
  total_capacity = initial_capacity;
  object_size = object_size;
  max_block_size = max_block_size;
}

-- `used << 1`, cut down to the largest block.
abbrev pub new_capacity : Pool → ℕ
new_capacity p =
    let doubled = p.used * 2 % 2 ^ 64 in
    if ltb p.max_block_size doubled then p.max_block_size else doubled

-- opool_alloc_block, and the block made current.
abbrev pub grow : Pool → Pool
grow p =
    let c = new_capacity p in
    record p {
      full_blocks = p.capacity ∷ p.full_blocks;
      block = suc p.block;
      capacity = c;
      used = 0;
      total_capacity = p.total_capacity + c;
    }

abbrev pub take_slot : Pool → Pool × Address
take_slot p = (record p { used = p.used + 1 }, (p.block, p.used))

unfoldable pub opool_alloc_object : Pool → Pool × Address
opool_alloc_object p = elim p.first_free [
  | a ∷ rest ↦ (record p { first_free = rest }, a)
  | [] ↦ if leb p.capacity p.used then take_slot (grow p) else take_slot p
]

unfoldable pub opool_free_object : Pool → Address → Pool
opool_free_object p a = record p { first_free = a ∷ p.first_free }

-- The blocks up to a number, from the first on.
unfoldable pub chain : ℕ → List ℕ
chain zero = 0 ∷ []
chain (suc n) = chain n ++ suc n ∷ []

-- The pool that is left, and the blocks that were freed.
unfoldable pub opool_destroy : Pool → Pool × List ℕ
opool_destroy p = (
  record p {
    full_blocks = [];
    block = 0;
    capacity = 0;
    used = 0;
    first_free = [];
    total_capacity = 0;
  },
  chain p.block,
)
