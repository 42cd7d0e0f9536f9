-- ===== src/ByteOrder.antt =====
-- src/endianness.h and src/endianness.c: the order of the bytes of a word in memory. `big` says if the
-- machine is big-endian; the protocol's words have their lowest byte first.
use gibson_mastter.Base.{
  ℕ, zero, suc, ◌/◌, ◌%◌, ◌≡◌, refl, List, [], ◌∷◌, ◌++◌, Bool, true, false, if◌then◌else◌,
}
use gibson_mastter.Reply.{le_bytes}

-- A byte of the memory behind a pointer, 0 where there is none, and a write to it.
abbrev pub byte_at : List ℕ → ℕ → ℕ
byte_at [] i = 0
byte_at (b ∷ bs) zero = b
byte_at (b ∷ bs) (suc i) = byte_at bs i

abbrev pub set_byte : List ℕ → ℕ → ℕ → List ℕ
set_byte [] i c = []
set_byte (b ∷ bs) zero c = c ∷ bs
set_byte (b ∷ bs) (suc i) c = b ∷ set_byte bs i c

-- `t = x[i]; x[i] = x[j]; x[j] = t`
abbrev pub exchange : ℕ → ℕ → List ℕ → List ℕ
exchange i j x = let t = byte_at x i in set_byte (set_byte x i (byte_at x j)) j t

unfoldable pub memrev16 : List ℕ → List ℕ
memrev16 x = exchange 0 1 x

unfoldable pub memrev32 : List ℕ → List ℕ
memrev32 x = exchange 1 2 (exchange 0 3 x)

unfoldable pub memrev64 : List ℕ → List ℕ
memrev64 x = exchange 3 4 (exchange 2 5 (exchange 1 6 (exchange 0 7 x)))

-- memrev16ifbe, memrev32ifbe and memrev64ifbe
abbrev pub if_be : Bool → (List ℕ → List ℕ) → List ℕ → List ℕ
if_be big memrev x = if big then memrev x else x

-- The highest byte first.
abbrev pub be_bytes : ℕ → ℕ → List ℕ
be_bytes zero x = []
be_bytes (suc n) x = be_bytes n (x / 256) ++ x % 256 ∷ []

-- A word of so many bytes as it lies in memory.
abbrev pub in_memory : Bool → ℕ → ℕ → List ℕ
in_memory big n x = if big then be_bytes n x else le_bytes n x

-- On every machine, memrev16ifbe, memrev32ifbe and memrev64ifbe of a word in memory leave its bytes with
-- the lowest first, and what lies behind the word as it is.
pub memrev-le_bytes :
    (big : Bool) (x : ℕ) (after : List ℕ)
    → (if_be big memrev16 (in_memory big 2 x ++ after) ≡ le_bytes 2 x ++ after)
      × (if_be big memrev32 (in_memory big 4 x ++ after) ≡ le_bytes 4 x ++ after)
      × (if_be big memrev64 (in_memory big 8 x ++ after) ≡ le_bytes 8 x ++ after)
unfolding memrev16 memrev32 memrev64 le_bytes
memrev-le_bytes true x after = (refl, refl, refl)
memrev-le_bytes false x after = (refl, refl, refl)
