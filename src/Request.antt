-- ===== src/Request.antt =====
-- src/query.c: how a request is cut into words, gbParseKeyValue, gbParseKeyAndOptionalValue and
-- gbParseTtlKeyValue. `mem` is the memory from `p` on, of which the first `size` bytes belong to the
-- request: a length that the code gets wrong reads on behind them. `size_t` has 64 bits.
pub mod Bounds
use gibson_mastter.Base.{
  ℕ, zero, suc, ◌+◌, ◌-◌, ◌%◌, ◌^◌, Option, none, some, List, [], ◌∷◌, Bool, true, false, ltb, ◌==◌,
  if◌then◌else◌, take, drop,
}
use gibson_mastter.Server.{Limits}

-- #define min(a,b)
abbrev pub least : ℕ → ℕ → ℕ
least a b = if ltb a b then a else b

-- `while( i++ < end && *p != ' ' ) ++p`: how far it goes in at most `n` rounds.
unfoldable pub word : ℕ → List ℕ → ℕ
word zero bs = 0
word (suc n) [] = 0
word (suc n) (b ∷ bs) = let rest = word n bs in if b == b' ' then 0 else suc rest

-- a - b of size_t
abbrev pub size_sub : ℕ → ℕ → ℕ
size_sub a b = (a + 2 ^ 64 - b) % 2 ^ 64

abbrev pub slice : ℕ → ℕ → List ℕ → List ℕ
slice from len mem = take len (drop from mem)

abbrev pub key_len : Limits → List ℕ → ℕ → ℕ
key_len l mem size = word (least size l.maxkeysize) mem

-- gbParseKeyValue with `value` NULL: the key.
unfoldable pub parse_key : Limits → List ℕ → ℕ → Option (List ℕ)
parse_key l mem size =
    let klen = key_len l mem size in if klen == 0 then none else some (take klen mem)

abbrev pub value_len : Limits → ℕ → ℕ → ℕ
value_len l size klen = least (size_sub (size_sub size klen) 1) l.maxvaluesize

-- gbParseKeyValue: the key and the value.
unfoldable pub parse_key_value : Limits → List ℕ → ℕ → Option (List ℕ × List ℕ)
parse_key_value l mem size =
    let klen = key_len l mem size in
    let vlen = value_len l size klen in
    if klen == 0
    then none
    else if vlen == 0
    then none
    else some (take klen mem, slice (klen + 1) vlen mem)

-- gbParseKeyAndOptionalValue: the key, and the value if there is one.
unfoldable pub parse_key_and_optional_value :
    Limits → List ℕ → ℕ → Option (List ℕ × Option (List ℕ))
parse_key_and_optional_value l mem size =
    let klen = key_len l mem size in
    let left = size_sub size klen in
    let vlen = least (left - 1) l.maxvaluesize in
    if klen == 0
    then none
    else if left == 0
    then some (take klen mem, none)
    else if vlen == 0
    then none
    else some (take klen mem, some (slice (klen + 1) vlen mem))

-- The second loop goes on counting where the first one stopped.
abbrev pub ttl_key_len : Limits → List ℕ → ℕ → ℕ → ℕ
ttl_key_len l mem size ttllen =
    word (least size l.maxkeysize - (ttllen + 1)) (drop (ttllen + 1) mem)

abbrev pub ttl_value_len : Limits → ℕ → ℕ → ℕ → ℕ
ttl_value_len l size ttllen klen =
    least (size_sub (size_sub (size_sub size ttllen) klen) 2) l.maxvaluesize

-- gbParseTtlKeyValue: the ttl, the key and the value.
unfoldable pub parse_ttl_key_value : Limits → List ℕ → ℕ → Option (List ℕ × List ℕ × List ℕ)
parse_ttl_key_value l mem size =
    let ttllen = key_len l mem size in
    let klen = ttl_key_len l mem size ttllen in
    let vlen = ttl_value_len l size ttllen klen in
    if ttllen == 0
    then none
    else if klen == 0
    then none
    else if vlen == 0
    then none
    else some (take ttllen mem, slice (ttllen + 1) klen mem, slice (ttllen + 1 + klen + 1) vlen mem)
