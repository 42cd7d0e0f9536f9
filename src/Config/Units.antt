-- ===== src/Config/Units.antt =====
-- src/config.c, gbConfigReadSize and gbConfigReadTime: values with a unit.
use gibson_mastter.Base.{
  ℕ, ◌*◌, ◌%◌, ◌^◌, ◌<◌, ◌≡◌, refl, ap, ◌∙◌, Option, none, some, List, [], ◌∷◌, ◌++◌, arith,
  key_eq_refl,
}
use gibson_mastter.Base.Int.{ℤ, pos, to_word}
use gibson_mastter.Trie.{tr_find, store}
use gibson_mastter.Trie.Find.{find-store, find-node}
use gibson_mastter.Config.{Config, last_byte, but_last, size_unit, with_unit, config_read_size}

last_byte-append : (cs : List ℕ) (u : ℕ) → last_byte (cs ++ u ∷ []) ≡ u
last_byte-append [] u = refl
last_byte-append (c ∷ []) u = refl
last_byte-append (c ∷ d ∷ cs) u = last_byte-append (d ∷ cs) u

but_last-append : (cs : List ℕ) (u : ℕ) → but_last (cs ++ u ∷ []) ≡ cs
but_last-append [] u = refl
but_last-append (c ∷ []) u = refl
but_last-append (c ∷ d ∷ cs) u = ap (λ xs. c ∷ xs) (but_last-append (d ∷ cs) u)

find-stored :
    (config : Config) (key text new : List ℕ)
    → tr_find config key ≡ some text
    → tr_find (store config key (some new)) key ≡ some new
find-stored config key text new found =
    ground (
      arith,
      find-store config key key (some new),
      find-node config key text found,
      key_eq_refl key,
    )

module _ (strtol : List ℕ → ℤ × List ℕ) (config : Config) (key digits : List ℕ) (u mul n : ℕ)
    (found : tr_find config key ≡ some (digits ++ u ∷ []))
    (numeral : strtol digits ≡ (pos n, [])) where
  unit_cut :
      {A : Type 0} (unit : ℕ → Option ℕ) (def : A) (f : ℕ → ℤ → A)
      → unit u ≡ some mul
      → let (read, config') = with_unit strtol unit config key def f (digits ++ u ∷ []) in
        (read ≡ f mul (pos n)) × (tr_find config' key ≡ some digits)
  unit_cut unit def f known =
      rw (last_byte-append digits u, with_unit)
        (rw known (
          rw (but_last-append digits u)
            (rw numeral (refl, find-stored config key (digits ++ u ∷ []) digits found))))

  -- A bare number: no unit is cut off.
  bare :
      {A : Type 0} (unit : ℕ → Option ℕ) (c : Config) (def : A) (f : ℕ → ℤ → A)
      → unit (last_byte digits) ≡ none
      → (with_unit strtol unit c key def f digits).0 ≡ f 1 (pos n)
  bare unit c def f plain = rw (plain, with_unit) (rw numeral refl)

  abbrev size_of : ℕ → ℤ → ℕ
  size_of m l = to_word (2 ^ 64) l * m % 2 ^ 64

  word_small : n < 2 ^ 63 → to_word (2 ^ 64) (pos n) ≡ n
  unfolding to_word
  word_small small = omega (arith, small)

  -- gbConfigReadSize of a number with a unit comes to as many of the unit, modulo 2^64, and cuts the
  -- unit off the configuration: the same call once more comes to the number alone. strtol reads the
  -- digits as the number, which is less than 2^63, and their last is not a unit.
  pub read_size-twice :
      (def : ℕ)
      → n < 2 ^ 63
      → size_unit u ≡ some mul
      → size_unit (last_byte digits) ≡ none
      → ((config_read_size strtol config key def).0 ≡ n * mul % 2 ^ 64)
        × ((config_read_size strtol (config_read_size strtol config key def).1 key def).0 ≡ n)
  unfolding config_read_size
  read_size-twice def small known plain =
      let cut = unit_cut size_unit def size_of known in
      rw (found, config_read_size)
        (
          cut.0 ∙ ap (λ w. w * mul % 2 ^ 64) (word_small small),
          rw (cut.1, config_read_size)
              (bare size_unit _ def size_of plain
                ∙ ap (λ w. w * 1 % 2 ^ 64) (word_small small)
                ∙ omega (arith, small)),
        )
