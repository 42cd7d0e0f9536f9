-- ===== src/Log/Ended.antt =====
-- src/log.c: gbLog ends the process only with a flush rate of 0.
use gibson_mastter.Base.{ℕ, ◌^◌, ◌<◌, ◌≡◌, subst, Option, none, some, List, [], ◌∷◌, arith}
use gibson_mastter.Base.Int.{ℤ, of_word}
use gibson_mastter.Log.{Log, log_init, log, log_all, absolute}

-- A log after a call has the same rate; there is none only where the rate is 0.
abbrev pub SameRate : ℤ → Option Log → Type 0
SameRate rate none = absolute rate ≡ 0
SameRate rate (some l) = l.flushrate ≡ rate

pub log-SameRate : (l : Log) (level : ℕ) (text : List ℕ) → SameRate l.flushrate (log l level text)
unfolding log
log-SameRate l level text = ground arith

then-SameRate :
    (es : List (ℕ × List ℕ)) (rate : ℤ)
    → ((l : Log) → l.flushrate ≡ rate → SameRate rate (log_all es l))
    → (o : Option Log) → SameRate rate o
    → SameRate rate (elim o [ none ↦ none | some l' ↦ log_all es l' ])
then-SameRate es rate f none h = h
then-SameRate es rate f (some l') h = f l' h

pub log_all-SameRate :
    (es : List (ℕ × List ℕ)) (rate : ℤ) (l : Log)
    → l.flushrate ≡ rate
    → SameRate rate (log_all es l)
log_all-SameRate [] rate l e = e
log_all-SameRate ((level, text) ∷ es) rate l e =
    then-SameRate es rate (λ l' e'. log_all-SameRate es rate l' e') (log l level text)
      (subst (λ r. SameRate r (log l level text)) e (log-SameRate l level text))

-- The rate that gbLogInit is given is 0 if the log's is.
pub init-rate :
    (there : List (List ℕ)) (level rate : ℕ)
    → rate < 2 ^ 32
    → absolute (log_init there level rate).flushrate ≡ 0
    → rate ≡ 0
unfolding log_init of_word
init-rate there level rate small e = ground (arith, small, e)
