-- ===== src/Log/Dumped.antt =====
-- src/log.c: the room that gbLogDumpBuffer wants.
use gibson_mastter.Base.{ℕ, ◌*◌, ◌≤◌, ◌≡◌, List, [], ◌∷◌, Bool, true, false, arith, length, All}
use gibson_mastter.Log.{is_print, dump}

-- The buffer of three bytes for each is too small by one exactly where no byte can be printed: the
-- text is as long as the buffer then, and its NUL stands behind it.
pub dump-le : (b : Bool) (bs : List ℕ) → length (dump b bs) ≤ 3 * length bs
unfolding dump
dump-le b [] = omega arith
dump-le true (c ∷ bs) = ground (arith, dump-le true bs, dump-le false bs)
dump-le false (c ∷ bs) = ground (arith, dump-le true bs, dump-le false bs)

pub dump-full :
    (b : Bool) (bs : List ℕ) → All (λ c. is_print c ≡ false) bs → length (dump b bs) ≡ 3 * length bs
unfolding dump
dump-full b [] h = omega arith
dump-full b (c ∷ bs) h = rw (h.0) (omega (arith, dump-full false bs h.1))
