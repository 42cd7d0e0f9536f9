-- ===== src/Log.antt =====
-- src/log.h and src/log.c: the log. What is formatted into a line is its text; the time stamp is left
-- out. The state has the lines that are in the file, in their order, and those that stdio still holds.
pub mod Flushed
pub mod Ended
pub mod Dumped
use gibson_mastter.Base.{
  ℕ, ◌+◌, ◌-◌, ◌/◌, ◌%◌, ◌^◌, Option, none, some, List, [], ◌∷◌, ◌++◌, Bool, true, false, ◌&&◌, leb,
  ltb, ◌==◌, if◌then◌else◌, length, take, codes,
}
use gibson_mastter.Base.Int.{ℤ, pos, pos_part, neg_part, ◌+ℤ◌, of_word, wrap}

-- DEBUG to CRITICAL
abbrev pub debug : ℕ
debug = 0

abbrev pub info : ℕ
info = 1

abbrev pub warning : ℕ
warning = 2

abbrev pub error : ℕ
error = 3

abbrev pub critical : ℕ
critical = 4

-- __log_level, __log_flushrate, __log_counter and the stream
pub record Log : Type 0 where
  pub log_level : ℕ
  pub flushrate : ℤ
  pub counter : ℤ
  pub in_file : List (List ℕ)
  pub held : List (List ℕ)

-- gbLogInit, on a file that can be opened and has the lines `there`. The rate is an unsigned int that
-- becomes an int.
unfoldable pub log_init : List (List ℕ) → ℕ → ℕ → Log
log_init there level flushrate = record {
  log_level = level;
  flushrate = of_word (2 ^ 32) flushrate;
  counter = pos 0;
  in_file = there;
  held = [];
}

-- fflush
abbrev pub flush : Log → Log
flush l = record l { in_file = l.in_file ++ l.held; held = [] }

unfoldable pub label : ℕ → List ℕ
label level =
    if level == debug
    then codes "DBG"
    else if level == warning
    then codes "WAR"
    else if level == info
    then codes "INF"
    else if level == error
    then codes "ERR"
    else if level == critical
    then codes "CRT"
    else codes "???"

-- `[level] text`, where vsnprintf keeps 254 bytes of the text.
abbrev pub line : ℕ → List ℕ → List ℕ
line level text = codes "[" ++ label level ++ codes "] " ++ take 254 text

abbrev pub absolute : ℤ → ℕ
absolute n = pos_part n + neg_part n

-- gbLog, none where it divides by zero.
unfoldable pub log : Log → ℕ → List ℕ → Option Log
log l level text =
    if leb l.log_level level
    then (let counter = wrap (2 ^ 32) (l.counter +ℤ pos 1) in
        let l' = record l { counter = counter; held = l.held ++ line level text ∷ [] } in
        if absolute l.flushrate == 0
        then none
        else if absolute counter % absolute l.flushrate == 0
        then some (flush l')
        else some l')
    else some l

-- Calls of gbLog, a level and a text each; none where one of them divides by zero.
abbrev pub log_all : List (ℕ × List ℕ) → Log → Option Log
log_all [] l = some l
log_all ((level, text) ∷ es) l = elim (log l level text) [ none ↦ none | some l' ↦ log_all es l' ]

-- gbLogFinalize
abbrev pub log_finalize : Log → Log
log_finalize l = flush l

-- isprint of the C locale
abbrev pub is_print : ℕ → Bool
is_print b = leb 32 b && ltb b 127

-- `%X` of four bits
abbrev pub hex : ℕ → ℕ
hex d = if ltb d 10 then b'0' + d else b'A' + (d - 10)

-- The loop of gbLogDumpBuffer: what it writes to `logline`, behind a byte that was printed or not.
unfoldable pub dump : Bool → List ℕ → List ℕ
dump prev_was_print [] = []
dump prev_was_print (b ∷ bs) =
    let printed = (if prev_was_print then b ∷ [] else b' ' ∷ b ∷ []) ++ dump true bs in
    let coded = b' ' ∷ hex (b / 16) ∷ hex (b % 16) ∷ dump false bs in
    if is_print b then printed else coded

-- gbLogDumpBuffer
abbrev pub log_dump_buffer : Log → ℕ → List ℕ → Option Log
log_dump_buffer l level buffer = log l level (dump true buffer)
