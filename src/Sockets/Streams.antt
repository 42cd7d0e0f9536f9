-- ===== src/Sockets/Streams.antt =====
-- src/net.c: gbNetWrite goes on until all bytes are written.
use mathlib.Core.List.{append-nil, append_assoc}
use gibson_mastter.Base.{
  ℕ, zero, suc, ◌+◌, ◌≤◌, ◌≡◌, refl, sym, ap, ◌∙◌, Option, some, List, [], ◌∷◌, ◌++◌, arith, length,
  take, drop, length-drop,
}
use gibson_mastter.Sockets.{Room, moved, net_write}

-- How much room there is in all, one byte at least at each call.
abbrev pub room : List ℕ → ℕ
room [] = 0
room (n ∷ ns) = suc n + room ns

abbrev pub rooms : List ℕ → List Room
rooms [] = []
rooms (n ∷ ns) = moved (suc n) ∷ rooms ns

take-append-drop : (n : ℕ) (xs : List ℕ) → take n xs ++ drop n xs ≡ xs
take-append-drop zero xs = refl
take-append-drop (suc n) [] = refl
take-append-drop (suc n) (x ∷ xs) = ap (λ ys. x ∷ ys) (take-append-drop n xs)

abbrev written : List ℕ → Option (Option ℕ × List ℕ)
written bs = some (some (length bs), bs)

-- However the room for a buffer comes in pieces, gbNetWrite writes all of it in order, once there is
-- enough.
pub net_write-all :
    (ns : List ℕ) (sent buf : List ℕ)
    → length buf ≤ room ns
    → net_write (rooms ns) sent buf ≡ some (some (length (sent ++ buf)), sent ++ buf)
unfolding net_write
net_write-all ns sent [] h = sym (ap written (append-nil sent))
net_write-all [] sent (b ∷ bs) h = absurd (omega (arith, h))
net_write-all (n ∷ ns) sent (b ∷ bs) h =
    net_write-all ns (sent ++ b ∷ take n bs) (drop n bs) (omega (arith, h, length-drop n bs))
    ∙ ap written (
        append_assoc sent (b ∷ take n bs) (drop n bs)
        ∙ ap (λ zs. sent ++ b ∷ zs) (take-append-drop n bs))
