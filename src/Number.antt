-- ===== src/Number.antt =====
-- src/query.c, gbQueryParseLong: a decimal number in a request. A `long` has 64 bits; where the
-- multiplication overflows, which C leaves undefined, the model wraps as the hardware does.
use gibson_mastter.Base.{
  ℕ, ◌+◌, ◌-◌, ◌*◌, ◌%◌, ◌^◌, Option, none, some, List, [], ◌∷◌, ◌&&◌, Bool, true, false, leb, ◌==◌,
  if◌then◌else◌,
}
use gibson_mastter.Base.Int.{ℤ, pos, of_word}

abbrev pub long_mod : ℕ
long_mod = 2 ^ 64

abbrev pub is_digit : ℕ → Bool
is_digit c = leb b'0' c && leb c b'9'

-- The loop over the digits: the bit pattern of `n`, or `none` at a byte that is no digit.
unfoldable pub parse_digits : ℕ → List ℕ → Option ℕ
parse_digits n [] = some n
parse_digits n (c ∷ cs) =
    let rest = parse_digits ((n * 10 + (c - b'0')) % long_mod) cs in
    if is_digit c then rest else none

-- `n * sign`
abbrev pub signed : Bool → Option ℕ → Option ℤ
signed negative none = none
signed false (some n) = some (of_word long_mod n)
signed true (some n) = some (of_word long_mod ((long_mod - n) % long_mod))

unfoldable pub parse_long : List ℕ → Option ℤ
parse_long [] = some (pos 0)
parse_long (c ∷ cs) =
    if c == b'0'
    then some (pos 0)
    else if c == b'-'
    then signed true (parse_digits 0 cs)
    else signed false (parse_digits 0 (c ∷ cs))
