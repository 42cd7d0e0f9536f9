-- ===== src/Item.antt =====
-- src/net.h, gbItem: a stored object, and the tests on it of src/query.c.
-- Times are seconds since the epoch, numbers that do not wrap; their differences are signed.
use gibson_mastter.Base.{ℕ, ◌%◌, ◌^◌, List, [], ◌&&◌, ◌||◌, Bool, false, ltb, ◌==◌, if◌then◌else◌}
use gibson_mastter.Base.Int.{ℤ, pos, negsuc, sub_ℕ, lt_ℤ, le_ℤ, to_word, of_word}

-- GB_ENC_PLAIN, GB_ENC_LZF, GB_ENC_NUMBER
pub data Encoding : Type 0 where
  plain lzf number : Encoding

-- The pointer `data`: to a buffer, or the number itself.
pub data Payload : Type 0 where
  buffer : List ℕ → Payload
  value : ℤ → Payload

pub record Item : Type 0 where
  -- the place of the item in the pool
  pub address : ℕ × ℕ
  pub content : Payload
  pub size : ℕ
  pub encoding : Encoding
  pub last_access_time : ℕ
  pub time : ℕ
  pub ttl : ℤ
  pub lock : ℤ

-- What the code reads from `data` under the encoding; a buffer read as a number, or the other way
-- round, does not occur while the encoding says what the data is.
abbrev pub bytes_of : Payload → List ℕ
bytes_of (buffer bs) = bs
bytes_of (value n) = []

abbrev pub number_of : Payload → ℤ
number_of (buffer bs) = pos 0
number_of (value n) = n

abbrev pub is_minus_one : ℤ → Bool
is_minus_one (pos n) = false
is_minus_one (negsuc n) = n == 0

-- gbItemIsLocked, called with `eta` 0 everywhere.
unfoldable pub item_is_locked : Item → ℕ → Bool
item_is_locked item now =
    let eta = sub_ℕ now item.time in is_minus_one item.lock || lt_ℤ eta item.lock

-- `ttl > 0 && eta >= ttl` in gbIsNodeStillValid, gbIsItemStillValid and gbHandleDeadTTLHandler.
unfoldable pub is_expired : Item → ℕ → Bool
is_expired item now = lt_ℤ (pos 0) item.ttl && le_ℤ item.ttl (sub_ℕ now item.time)

-- `item->ttl = min( maxitemttl, ttl )`: the minimum is taken of unsigned 64-bit values, and stored
-- in a `short`.
unfoldable pub stored_ttl : ℕ → ℤ → ℤ
unfolding to_word of_word
stored_ttl maxitemttl ttl =
    let t = to_word (2 ^ 64) ttl in
    of_word (2 ^ 16) ((if ltb maxitemttl t then maxitemttl else t) % 2 ^ 16)
