-- ===== src/Pool/Bounds.antt =====
-- src/obpool.c: an object lies within the memory of its block.
use gibson_mastter.Base.{
  ℕ, suc, ◌^◌, ◌<◌, ◌≤◌, ◌≡◌, refl, subst, ap, inl, inr, List, [], ◌∷◌, leb, ◌==◌, if◌then◌else◌,
  All, true, arith, length, if_rule, Bool-cases,
}
use gibson_mastter.Pool.{
  Pool, Address, opool_create, opool_alloc_object, opool_free_object, new_capacity, grow, take_slot,
}
use gibson_mastter.Pool.Fresh.{Apart, Owns, take_slot-Owns, grow-Owns, reuse-Owns, list_rule}

-- The capacity of a block, among the capacities of all blocks, the last one first.
unfoldable pub capacity_at : List ℕ → ℕ → ℕ
capacity_at [] b = 0
capacity_at (c ∷ cs) b = let rest = capacity_at cs b in if b == length cs then c else rest

abbrev pub capacities : Pool → List ℕ
capacities p = p.capacity ∷ p.full_blocks

-- Its place is below the capacity of its block.
abbrev pub InBlock : Pool → Address → Type 0
InBlock p a = a.1 < capacity_at (capacities p) a.0

-- The blocks have their capacities, the current one some, no more of it is used than there is, and no
-- capacity is so large that doubling it wraps; the live and the free objects lie in their blocks.
pub record Fits (p : Pool) (live : List Address) : Type 0 where
  pub blocks : p.block ≡ length p.full_blocks
  pub some_room : 0 < p.capacity
  pub within : p.used ≤ p.capacity
  pub small : p.capacity < 2 ^ 63
  pub some_max : 0 < p.max_block_size
  pub small_max : p.max_block_size < 2 ^ 63
  pub live_fit : All (InBlock p) live
  pub free_fit : All (InBlock p) p.first_free

capacity_at-head : (c : ℕ) (cs : List ℕ) (b : ℕ) → b ≡ length cs → capacity_at (c ∷ cs) b ≡ c
unfolding capacity_at
capacity_at-head c cs b e = ground (arith, e)

-- A block that has a capacity is one of the blocks.
capacity_at-some : (cs : List ℕ) (b i : ℕ) → i < capacity_at cs b → b < length cs
unfolding capacity_at
capacity_at-some [] b i h = absurd (omega (arith, h))
capacity_at-some (c ∷ cs) b i h = elim (Bool-cases (b == length cs)) [
  | inl e ↦ ground (arith, e)
  | inr e ↦
      let rest : b < length cs = capacity_at-some cs b i (ground (arith, e, h)) in
      omega (arith, rest)
]

-- A new block leaves the others as they are.
capacity_at-older :
    (c : ℕ) (cs : List ℕ) (b i : ℕ) → i < capacity_at cs b → i < capacity_at (c ∷ cs) b
unfolding capacity_at
capacity_at-older c cs b i h =
    let before : b < length cs = capacity_at-some cs b i h in ground (arith, before, h)

older-InBlock :
    (c : ℕ) (cs : List ℕ) (bs : List Address)
    → All (λ a. a.1 < capacity_at cs a.0) bs
    → All (λ a. a.1 < capacity_at (c ∷ cs) a.0) bs
older-InBlock c cs [] h = tt
older-InBlock c cs (a ∷ bs) h = (capacity_at-older c cs a.0 a.1 h.0, older-InBlock c cs bs h.1)

new_capacity-some :
    (p : Pool) (live : List Address)
    → Fits p live
    → leb p.capacity p.used ≡ true
    → (0 < new_capacity p) × (new_capacity p < 2 ^ 63)
new_capacity-some p live f full =
    ground (arith, full, f.some_room, f.within, f.small, f.some_max, f.small_max)

-- Behind a full block there is a new one, all of it free.
grow-Fits :
    (p : Pool) (live : List Address)
    → Fits p live
    → leb p.capacity p.used ≡ true
    → Fits (grow p) live × ((grow p).used < (grow p).capacity)
grow-Fits p live f full =
    let new = new_capacity-some p live f full in
    (
      record {
        blocks = ap suc f.blocks;
        some_room = new.0;
        within = omega arith;
        small = new.1;
        some_max = f.some_max;
        small_max = f.small_max;
        live_fit = older-InBlock (new_capacity p) (capacities p) live f.live_fit;
        free_fit = older-InBlock (new_capacity p) (capacities p) p.first_free f.free_fit;
      },
      new.0,
    )

take_slot-Fits :
    (p : Pool) (live : List Address)
    → Fits p live
    → p.used < p.capacity
    → let (p', a) = take_slot p in InBlock p' a × Fits p' (a ∷ live)
take_slot-Fits p live f room =
    let here : p.used < capacity_at (capacities p) p.block =
      rw (capacity_at-head p.capacity p.full_blocks p.block f.blocks) room in
    (
      here,
      record {
        blocks = f.blocks;
        some_room = f.some_room;
        within = omega (arith, room);
        small = f.small;
        some_max = f.some_max;
        small_max = f.small_max;
        live_fit = (here, f.live_fit);
        free_fit = f.free_fit;
      },
    )

abbrev Allocated : List Address → Pool × Address → Type 0
Allocated live (p, a) = Apart a live × InBlock p a × Owns p (a ∷ live) × Fits p (a ∷ live)

take_slot-Allocated :
    (p : Pool) (live : List Address)
    → Owns p live
    → Fits p live
    → p.used < p.capacity
    → Allocated live (take_slot p)
take_slot-Allocated p live h f room =
    let owns = take_slot-Owns p live h in
    let fits = take_slot-Fits p live f room in (owns.0, fits.0, owns.1, fits.1)

reuse-Allocated :
    (p : Pool) (a : Address) (rest live : List Address)
    → p.first_free ≡ a ∷ rest
    → Owns p live
    → Fits p live
    → Allocated live (record p { first_free = rest }, a)
reuse-Allocated p a rest live first h f =
    let owns = reuse-Owns p a rest live first h in
    let free : All (InBlock p) (a ∷ rest) = subst (All (InBlock p)) first f.free_fit in
    (
      owns.0,
      free.0,
      owns.1,
      record {
        blocks = f.blocks;
        some_room = f.some_room;
        within = f.within;
        small = f.small;
        some_max = f.some_max;
        small_max = f.small_max;
        live_fit = (free.0, f.live_fit);
        free_fit = free.1;
      },
    )

-- From a pool whose live and free objects are made, all different and within the memory of their
-- blocks, opool_alloc_object gives an object that is not live and lies within the capacity of its
-- block, whether it comes from the free list, the current block or a new one, and keeps the pool so.
pub alloc-Fits :
    (p : Pool) (live : List Address)
    → Owns p live
    → Fits p live
    → let (p', a) = opool_alloc_object p in
      Apart a live × InBlock p' a × Owns p' (a ∷ live) × Fits p' (a ∷ live)
unfolding opool_alloc_object
alloc-Fits p live h f =
    list_rule (Allocated live) p.first_free _ _
      (λ a rest first. reuse-Allocated p a rest live first h f)
      (if_rule (Allocated live) (leb p.capacity p.used) _ _
        (λ full.
          let (fits, room) = grow-Fits p live f full in
          take_slot-Allocated (grow p) live (grow-Owns p live h) fits room)
        (λ left. take_slot-Allocated p live h f (ground (arith, left))))

-- Freeing a live object keeps the objects within their blocks.
pub free-Fits :
    (p : Pool) (a : Address) (live : List Address)
    → Fits p (a ∷ live)
    → Fits (opool_free_object p a) live
unfolding opool_free_object
free-Fits p a live f = record {
  blocks = f.blocks;
  some_room = f.some_room;
  within = f.within;
  small = f.small;
  some_max = f.some_max;
  small_max = f.small_max;
  live_fit = f.live_fit.1;
  free_fit = (f.live_fit.0, f.free_fit);
}

-- A new pool, with room in its first block.
pub create-Fits :
    (object_size initial_capacity max_block_size : ℕ)
    → 0 < initial_capacity
    → initial_capacity < 2 ^ 63
    → 0 < max_block_size
    → max_block_size < 2 ^ 63
    → Fits (opool_create object_size initial_capacity max_block_size) []
unfolding opool_create
create-Fits object_size initial_capacity max_block_size some_room small some_max small_max =
    record {
      blocks = refl;
      some_room = some_room;
      within = omega arith;
      small = small;
      some_max = some_max;
      small_max = small_max;
      live_fit = tt;
      free_fit = tt;
    }
