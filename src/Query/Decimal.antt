-- ===== src/Query/Decimal.antt =====
-- src/query.c: gbQueryParseLong reads what `%lu` prints.
use gibson_mastter.Base.{
  ℕ, zero, suc, ◌+◌, ◌*◌, ◌/◌, ◌%◌, ◌^◌, ◌<◌, ◌≤◌, ◌≡◌, refl, ◌∙◌, ap, subst, ◌⊎◌, none, some, List,
  [], ◌∷◌, true, false, ◌==◌, if◌then◌else◌, arith, inl, inr, Bool-cases,
}
use gibson_mastter.Base.Int.{pos, negsuc, of_word}
use gibson_mastter.Number.{parse_long, parse_digits, signed, long_mod, is_digit}
use gibson_mastter.Query.Listing.{digits_of, decimal}

digit-step :
    (n d : ℕ) (cs : List ℕ)
    → d < 10
    → n * 10 + d < long_mod
    → parse_digits n ((d + b'0') ∷ cs) ≡ parse_digits (n * 10 + d) cs
unfolding parse_digits
digit-step n d cs lt bound = ground arith

digits-last :
    (fuel n : ℕ) (out : List ℕ)
    → (n / 10 == 0) ≡ true
    → digits_of (suc fuel) n out ≡ (n % 10 + b'0') ∷ out
unfolding digits_of
digits-last fuel n out e = rw e refl

digits-more :
    (fuel n : ℕ) (out : List ℕ)
    → (n / 10 == 0) ≡ false
    → digits_of (suc fuel) n out ≡ digits_of fuel (n / 10) ((n % 10 + b'0') ∷ out)
unfolding digits_of
digits-more fuel n out e = rw e refl

pow-suc : (fuel : ℕ) → 10 ^ suc fuel ≡ 10 * 10 ^ fuel
pow-suc fuel = ground arith

last-parse :
    (n : ℕ) (out : List ℕ)
    → (n / 10 == 0) ≡ true
    → parse_digits 0 ((n % 10 + b'0') ∷ out) ≡ parse_digits n out
last-parse n out e =
    let small : n < 10 = ground (arith, e) in
    digit-step 0 (n % 10) out (omega arith) (omega arith)
    ∙ ap (λ m. parse_digits m out) (omega arith)

-- The digits put in front of `out` are read as `n`.
parse-digits_of :
    (fuel n : ℕ) (out : List ℕ)
    → n < 10 ^ suc fuel
    → n < long_mod
    → parse_digits 0 (digits_of (suc fuel) n out) ≡ parse_digits n out
parse-digits_of zero n out lt bound =
    let e : (n / 10 == 0) ≡ true = ground arith in rw (digits-last 0 n out e) (last-parse n out e)
parse-digits_of (suc fuel) n out lt bound = elim (Bool-cases (n / 10 == 0)) [
  | inl e ↦ rw (digits-last (suc fuel) n out e) (last-parse n out e)
  | inr e ↦ rw (digits-more (suc fuel) n out e) (
      parse-digits_of fuel (n / 10) ((n % 10 + b'0') ∷ out) (omega (arith, lt, pow-suc (suc fuel)))
        (omega (arith, bound))
      ∙ digit-step (n / 10) (n % 10) out (omega arith) (omega (arith, bound))
      ∙ ap (λ m. parse_digits m out) (omega arith))
]

-- The first digit of a number that is not 0.
Leading : List ℕ → Type 0
Leading [] = ⊥
Leading (c ∷ cs) = (b'0' < c) × (c ≤ b'9')

digits-Leading :
    (fuel n : ℕ) (out : List ℕ) → 0 < n → n < 10 ^ suc fuel → Leading (digits_of (suc fuel) n out)
unfolding Leading
digits-Leading zero n out positive lt =
    let e : (n / 10 == 0) ≡ true = ground arith in
    rw (digits-last 0 n out e) (ground arith, ground arith)
digits-Leading (suc fuel) n out positive lt = elim (Bool-cases (n / 10 == 0)) [
  | inl e ↦ rw (digits-last (suc fuel) n out e) (ground (arith, e), ground (arith, e))
  | inr e ↦ rw (digits-more (suc fuel) n out e) (
      digits-Leading fuel (n / 10) ((n % 10 + b'0') ∷ out) (ground (arith, e))
        (omega (arith, lt, pow-suc (suc fuel))))
]

parse-Leading : (cs : List ℕ) → Leading cs → parse_long cs ≡ signed false (parse_digits 0 cs)
unfolding parse_long Leading
parse-Leading [] h = absurd h
parse-Leading (c ∷ cs) h = ground (arith, h.0)

-- gbQueryParseLong reads the decimal digits of a number back as that number, for every number that
-- is less than 2^63.
pub parse_long-decimal : (n : ℕ) → n < 2 ^ 63 → parse_long (decimal n) ≡ some (pos n)
unfolding parse_digits of_word
parse_long-decimal zero lt = unfold parse_long digits_of in refl
parse_long-decimal (suc m) lt =
    parse-Leading (decimal (suc m)) (digits-Leading 19 (suc m) [] (omega arith) (omega arith))
    ∙ ap (signed false) (parse-digits_of 19 (suc m) [] (omega arith) (omega arith))
    ∙ ground arith

-- And the digits behind a minus sign as the negative number, down to -2^63.
pub parse_long-minus : (m : ℕ) → m < 2 ^ 63 → parse_long (b'-' ∷ decimal (suc m)) ≡ some (negsuc m)
unfolding parse_long parse_digits of_word
parse_long-minus m lt =
    ap (signed true) (parse-digits_of 19 (suc m) [] (omega (arith, lt)) (omega (arith, lt)))
    ∙ ground (arith, lt)

-- Some byte is no digit.
abbrev pub HasOther : List ℕ → Type 0
HasOther [] = ⊥
HasOther (c ∷ cs) = (is_digit c ≡ false) ⊎ HasOther cs

other-parse : (cs : List ℕ) (n : ℕ) → HasOther cs → parse_digits n cs ≡ none
unfolding parse_digits
other-parse [] n h = absurd h
other-parse (c ∷ cs) n (inl e) = rw e refl
other-parse (c ∷ cs) n (inr h) = elim (Bool-cases (is_digit c)) [
  | inl e ↦ rw e (other-parse cs _ h)
  | inr e ↦ rw e refl
]

-- A text that does not begin with the digit 0, and that has another byte than digits, behind its minus
-- sign if it begins with one.
abbrev pub NoNumeral : List ℕ → Type 0
NoNumeral [] = ⊥
NoNumeral (c ∷ cs) = ((c == b'0') ≡ false) × HasOther (if c == b'-' then cs else c ∷ cs)

pub parse_long-none : (text : List ℕ) → NoNumeral text → parse_long text ≡ none
unfolding parse_long
parse_long-none [] h = absurd h
parse_long-none (c ∷ cs) h = elim (Bool-cases (c == b'-')) [
  | inl minus ↦
      rw (h.0, minus)
        (ap (signed true)
          (other-parse cs 0 (subst (λ b. HasOther (if b then cs else c ∷ cs)) minus (h.1))))
  | inr plain ↦
      rw (h.0, plain)
        (ap (signed false)
          (other-parse (c ∷ cs) 0 (subst (λ b. HasOther (if b then cs else c ∷ cs)) plain (h.1))))
]
