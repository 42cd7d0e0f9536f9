-- ===== src/Log/Flushed.antt =====
-- src/log.c: what is in the file, and how much can be lost.
use native.Mathlib.Nat.{mod-add-mod, mod_self, mod-eq_of_lt}
use mathlib.Core.List.{append-nil, append_assoc}
use gibson_mastter.Base.{
  ℕ, suc, ◌+◌, ◌*◌, ◌%◌, ◌^◌, ◌<◌, ◌≡◌, refl, sym, subst, ap, ◌∙◌, Option, none, some, List, [],
  ◌∷◌, ◌++◌, Bool, true, false, leb, ◌==◌, if◌then◌else◌, arith, length, inl, inr, Bool-cases,
  if_rule, length-append, eq_of_==, ltb-yes, ltb, lt_of_ltb, le_of_ltb,
}
use gibson_mastter.Base.Int.{pos, ◌+ℤ◌, wrap, to_word, of_word}
use gibson_mastter.Log.{Log, log_init, log, log_all, line}

abbrev continue : List (ℕ × List ℕ) → Option Log → Option Log
continue es none = none
continue es (some l) = log_all es l

-- The lines of the entries whose level is high enough.
abbrev pub lines : ℕ → List (ℕ × List ℕ) → List (List ℕ)
lines least [] = []
lines least ((level, text) ∷ es) =
    let rest = lines least es in if leb least level then line level text ∷ rest else rest

-- A log that flushes every `suc r` lines, of which `n` have been written.
abbrev pub logging : ℕ → ℕ → ℕ → List (List ℕ) → List (List ℕ) → Log
logging r least n f h = record {
  log_level = least;
  flushrate = pos (suc r);
  counter = pos n;
  in_file = f;
  held = h;
}

next-count : (n : ℕ) → n + 1 < 2 ^ 31 → wrap (2 ^ 32) (pos n +ℤ pos 1) ≡ pos (n + 1)
unfolding wrap to_word of_word
next-count n h = ground (arith, h)

abbrev after : ℕ → ℕ → ℕ → List (List ℕ) → List (List ℕ) → Log
after r least n f h =
    if n % suc r == 0 then logging r least n (f ++ h) [] else logging r least n f h

log_lem :
    (r least n level : ℕ) (text : List ℕ) (f h : List (List ℕ))
    → n + 1 < 2 ^ 31
    → log (logging r least n f h) level text
      ≡ some (
          if leb least level
          then after r least (n + 1) f (h ++ line level text ∷ [])
          else logging r least n f h)
unfolding log
log_lem r least n level text f h small = elim (Bool-cases (leb least level)) [
  | inl high ↦ rw high (rw (next-count n small) (ground arith))
  | inr low ↦ rw low refl
]

-- The lines that are written are in the file or held, in their order, and less than `suc r` are held.
abbrev pub Kept : ℕ → List (List ℕ) → Option Log → Type 0
Kept r all none = ⊥
Kept r all (some l) = (l.in_file ++ l.held ≡ all) × (length l.held < suc r)

mod_step : (n r : ℕ) → ((n + 1) % suc r == 0) ≡ false → (n + 1) % suc r ≡ n % suc r + 1
mod_step n r h = elim (Bool-cases (ltb (n % suc r + 1) (suc r))) [
  | inl below ↦ sym (mod-add-mod n (suc r) 1) ∙ mod-eq_of_lt (lt_of_ltb _ _ below)
  | inr top ↦
      let full : n % suc r + 1 ≡ suc r = omega (arith, le_of_ltb _ _ top) in
      ground (arith, h, sym (mod-add-mod n (suc r) 1) ∙ ap (λ k. k % suc r) full ∙ mod_self (suc r))
]

-- One line more, flushed or held, where the calls after it keep what they should.
module _ (es : List (ℕ × List ℕ)) (r least n : ℕ) (f h : List (List ℕ)) (x : List ℕ)
    (held : length h ≡ n % suc r)
    (rest : (f' h' : List (List ℕ))
      → length h' ≡ (n + 1) % suc r
      → Kept r ((f' ++ h') ++ lines least es) (log_all es (logging r least (n + 1) f' h'))) where
  joined :
      {ys : List (List ℕ)}
      → ys ≡ f ++ (h ++ x ∷ [])
      → ys ++ lines least es ≡ (f ++ h) ++ x ∷ lines least es
  joined e =
      ap (λ zs. zs ++ lines least es) (e ∙ sym (append_assoc f h (x ∷ [])))
      ∙ append_assoc (f ++ h) (x ∷ []) (lines least es)

  line-Kept :
      Kept r ((f ++ h) ++ x ∷ lines least es) (log_all es (after r least (n + 1) f (h ++ x ∷ [])))
  line-Kept =
      if_rule (λ l. Kept r ((f ++ h) ++ x ∷ lines least es) (log_all es l)) ((n + 1) % suc r == 0) _
        _
        (λ full.
          subst (λ all. Kept r all (log_all es (logging r least (n + 1) (f ++ (h ++ x ∷ [])) [])))
            (joined (append-nil (f ++ (h ++ x ∷ []))))
            (rest (f ++ (h ++ x ∷ [])) [] (sym (eq_of_== _ 0 full))))
        (λ more.
          subst (λ all. Kept r all (log_all es (logging r least (n + 1) f (h ++ x ∷ []))))
            (joined refl)
            (rest f (h ++ x ∷ [])
              (length-append h (x ∷ []) ∙ omega (arith, held, mod_step n r more))))

-- From `n` lines on, a log that flushes every `suc r` lines keeps what is logged, in its order.
logging-Kept :
    (es : List (ℕ × List ℕ)) (r least n : ℕ) (f h : List (List ℕ))
    → n + length es < 2 ^ 31
    → length h ≡ n % suc r
    → Kept r ((f ++ h) ++ lines least es) (log_all es (logging r least n f h))
logging-Kept [] r least n f h small held = (sym (append-nil (f ++ h)), omega (arith, held))
logging-Kept ((level, text) ∷ es) r least n f h small held =
    subst (λ o. Kept r ((f ++ h) ++ lines least ((level, text) ∷ es)) (continue es o))
      (sym (log_lem r least n level text f h (omega (arith, small))))
      (branch (leb least level)
        (line-Kept es r least n f h (line level text) held
          (λ f' h' e. logging-Kept es r least (n + 1) f' h' (omega (arith, small)) e))
        (logging-Kept es r least n f h (omega (arith, small)) held))
  where
    branch :
        (b : Bool)
        → Kept r
            ((f ++ h) ++ line level text ∷ lines least es)
            (log_all es (after r least (n + 1) f (h ++ line level text ∷ [])))
        → Kept r ((f ++ h) ++ lines least es) (log_all es (logging r least n f h))
        → Kept r ((f ++ h) ++ (if b then line level text ∷ lines least es else lines least es)) (
            log_all es (
              if b
              then after r least (n + 1) f (h ++ line level text ∷ [])
              else logging r least n f h))
    branch true more same = more
    branch false more same = same

-- A log with a flush rate of `suc r` that is given less than 2^31 lines: none of the calls divides by
-- zero, the lines whose level is high enough follow, in their order, what was in the file, and at most
-- `r` of them are not in the file yet.
pub log_all-Kept :
    (es : List (ℕ × List ℕ)) (there : List (List ℕ)) (least r : ℕ)
    → length es < 2 ^ 31
    → suc r < 2 ^ 31
    → Kept r (there ++ lines least es) (log_all es (log_init there least (suc r)))
unfolding log_init of_word
log_all-Kept es there least r small rate = rw (ltb-yes (2 * suc r) (2 ^ 32) (omega (arith, rate))) (
    subst (λ all. Kept r (all ++ lines least es) (log_all es (logging r least 0 there [])))
      (append-nil there) (logging-Kept es r least 0 there [] (omega (arith, small)) (omega arith)))
