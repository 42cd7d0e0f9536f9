-- ===== src/Config.antt =====
-- src/config.c: the configuration, a prefix tree of strings. A string is its bytes before the NUL. The
-- lines are what fgets gives, one after the other, up to the end of the file; strtol of the C library
-- is a parameter: the number it reads and what is left of the text. What getopt_long of the C
-- library finds in the arguments is a list, one answer after the other.
pub mod Lines
pub mod Merged
pub mod Units
use gibson_mastter.Base.{
  ℕ, ◌*◌, ◌%◌, ◌^◌, Option, none, some, List, [], ◌∷◌, Bool, true, false, ◌||◌, ◌&&◌, not, leb,
  ◌==◌, if◌then◌else◌,
}
use gibson_mastter.Base.Int.{ℤ, to_word, of_word, wrap}
use gibson_mastter.Trie.{Trie, tr_init_tree, tr_insert, tr_find, store}

-- isspace of the C locale
abbrev pub is_space : ℕ → Bool
is_space c = (c == b' ') || (leb 9 c && leb c 13)

-- `while( isspace( *p ) && *p ) ++p`
unfoldable pub eat_spaces : List ℕ → List ℕ
eat_spaces [] = []
eat_spaces (c ∷ cs) = let rest = eat_spaces cs in if is_space c then rest else c ∷ cs

-- `while( !isspace( *p ) && *p ) *pd++ = *p++`: what is copied, and what is left.
unfoldable pub copy_word : List ℕ → List ℕ × List ℕ
copy_word [] = ([], [])
copy_word (c ∷ cs) =
    let rest = copy_word cs in if is_space c then ([], c ∷ cs) else (c ∷ rest.0, rest.1)

-- What a line says: nothing, a setting, or too little.
pub data Line : Type 0 where
  skipped : Line
  setting : List ℕ → List ℕ → Line
  unexpected_end : Line

abbrev pub line_value : List ℕ → List ℕ → Line
line_value key [] = unexpected_end
line_value key (c ∷ cs) = setting key (copy_word (c ∷ cs)).0

abbrev pub line_key : List ℕ → Line
line_key [] = skipped
line_key (c ∷ cs) = let (key, rest) = copy_word (c ∷ cs) in line_value key (eat_spaces rest)

-- The body of the loop of gbConfigLoad.
unfoldable pub read_line : List ℕ → Line
read_line [] = skipped
read_line (c ∷ cs) =
    let line = line_key (eat_spaces (c ∷ cs)) in if c == b'#' then skipped else line

abbrev pub Config : Type 0
Config = Trie (List ℕ)

-- The loop of gbConfigLoad, none where it ends the program.
unfoldable pub load_lines : Config → List (List ℕ) → Option Config
load_lines config [] = some config
load_lines config (l ∷ ls) = elim (read_line l) [
  | skipped ↦ load_lines config ls
  | setting key text ↦ load_lines (tr_insert config key text).0 ls
  | unexpected_end ↦ none
]

-- gbConfigLoad of a file that can be opened
abbrev pub config_load : List (List ℕ) → Option Config
config_load lines = load_lines tr_init_tree lines

-- The last byte of a value and what stands before it. An empty value, which only the command line can
-- give, is taken to have no unit, where the code reads the byte before it.
abbrev pub last_byte : List ℕ → ℕ
last_byte [] = 0
last_byte (c ∷ []) = c
last_byte (c ∷ d ∷ cs) = last_byte (d ∷ cs)

abbrev pub but_last : List ℕ → List ℕ
but_last [] = []
but_last (c ∷ []) = []
but_last (c ∷ d ∷ cs) = c ∷ but_last (d ∷ cs)

-- One answer of getopt_long: its value, the name of the option at `oindex`, and `optarg`.
pub record Given : Type 0 where
  pub c : ℕ
  pub name : List ℕ
  pub optarg : Option (List ℕ)

abbrev pub contains : List ℕ → ℕ → Bool
contains [] c = false
contains (b ∷ bs) c = (b == c) || contains bs c

-- An option that is merged.
abbrev pub taken : List ℕ → Given → Option (List ℕ)
taken skip g = if not (g.c == 0) && contains skip g.c then none else g.optarg

-- The loop of gbConfigMerge.
unfoldable pub config_merge : List ℕ → Config → List Given → Config
config_merge skip config [] = config
config_merge skip config (g ∷ gs) =
    config_merge skip
      (elim (taken skip g) [ none ↦ config | some value ↦ (tr_insert config g.name value).0 ]) gs

-- The units of gbConfigReadSize and of gbConfigReadTime.
unfoldable pub size_unit : ℕ → Option ℕ
size_unit c =
    if (c == b'B') || (c == b'b')
    then some 1
    else if (c == b'K') || (c == b'k')
    then some 1024
    else if (c == b'M') || (c == b'm')
    then some (1024 * 1024)
    else if (c == b'G') || (c == b'g')
    then some (1024 * 1024 * 1024)
    else none

unfoldable pub time_unit : ℕ → Option ℕ
time_unit c =
    if (c == b's') || (c == b'S')
    then some 1
    else if (c == b'm') || (c == b'M')
    then some 60
    else if (c == b'h') || (c == b'H')
    then some (60 * 60)
    else if (c == b'd') || (c == b'D')
    then some (60 * 60 * 24)
    else none

module _ (strtol : List ℕ → ℤ × List ℕ) where
  -- `*p == '\0' ? … : def`
  abbrev pub whole_or : {A : Type 0} → A → (ℤ → A) → ℤ × List ℕ → A
  whole_or def f (l, []) = f l
  whole_or def f (l, c ∷ cs) = def

  -- gbConfigReadInt
  unfoldable pub config_read_int : Config → List ℕ → ℤ → ℤ
  config_read_int config key def = elim (tr_find config key) [
    | none ↦ def
    | some text ↦ whole_or def (λ l. wrap (2 ^ 32) l) (strtol text)
  ]

  -- The unit is cut off the value in the tree, where it has one.
  abbrev pub with_unit :
      (ℕ → Option ℕ) → {A : Type 0} → Config → List ℕ → A → (ℕ → ℤ → A) → List ℕ → A × Config
  with_unit unit config key def f text = elim (unit (last_byte text)) [
    | none ↦ (whole_or def (f 1) (strtol text), config)
    | some mul ↦
        (whole_or def (f mul) (strtol (but_last text)), store config key (some (but_last text)))
  ]

  -- gbConfigReadSize: the size, and the configuration that it leaves.
  unfoldable pub config_read_size : Config → List ℕ → ℕ → ℕ × Config
  config_read_size config key def = elim (tr_find config key) [
    | none ↦ (def, config)
    | some text ↦
        with_unit size_unit config key def (λ mul l. to_word (2 ^ 64) l * mul % 2 ^ 64) text
  ]

  -- gbConfigReadTime
  unfoldable pub config_read_time : Config → List ℕ → ℤ → ℤ × Config
  config_read_time config key def = elim (tr_find config key) [
    | none ↦ (def, config)
    | some text ↦
        with_unit time_unit config key def
          (λ mul l. of_word (2 ^ 64) (to_word (2 ^ 64) l * mul % 2 ^ 64)) text
  ]

-- gbConfigReadString
unfoldable pub config_read_string : Config → List ℕ → List ℕ → List ℕ
config_read_string config key def = elim (tr_find config key) [ none ↦ def | some text ↦ text ]
