-- ===== src/Request/Bounds.antt =====
-- src/query.c: where the words of a request lie. A request is well-formed where the key is followed
-- by a separator inside the request.
use gibson_mastter.Base.{
  ℕ, zero, suc, ◌+◌, ◌^◌, ◌<◌, ◌≤◌, ◌≡◌, refl, ◌∙◌, ap, some, List, [], ◌∷◌, ◌++◌, take, drop,
  length, arith, All, ◌≢◌,
}
use gibson_mastter.Server.{Limits}
use gibson_mastter.Request.{least, word, slice, key_len, parse_key_value, value_len}

-- The word in front of a space is the whole of what stands there.
word-append :
    (n : ℕ) (k rest : List ℕ)
    → All (λ b. b ≢ b' ') k
    → length k ≤ n
    → word n (k ++ (b' ' ∷ rest)) ≡ length k
unfolding word
word-append zero [] rest plain le = refl
word-append (suc n) [] rest plain le = refl
word-append zero (b ∷ k) rest plain le = absurd (omega (arith, le))
word-append (suc n) (b ∷ k) rest plain le =
    ground (arith, plain.0, word-append n k rest plain.1 (omega (arith, le)))

take-append : {A : Type 0} (xs ys : List A) → take (length xs) (xs ++ ys) ≡ xs
take-append [] ys = refl
take-append (x ∷ xs) ys = ap (λ zs. x ∷ zs) (take-append xs ys)

drop-append : {A : Type 0} (xs ys : List A) → drop (length xs) (xs ++ ys) ≡ ys
drop-append [] ys = refl
drop-append (x ∷ xs) ys = drop-append xs ys

drop-suc :
    {A : Type 0} (xs : List A) (y : A) (ys : List A) → drop (suc (length xs)) (xs ++ y ∷ ys) ≡ ys
drop-suc [] y ys = refl
drop-suc (x ∷ xs) y ys = drop-suc xs y ys

-- gbParseKeyValue reads back the key and the value that a client wrote with a space between them,
-- whatever stands behind the request in memory: the key has no space and is not empty, the value is
-- not empty, and both are within the limits of the server.
pub parse_key_value-written :
    (l : Limits) (k v behind : List ℕ)
    → All (λ b. b ≢ b' ') k
    → 0 < length k
    → length k ≤ l.maxkeysize
    → 0 < length v
    → length v ≤ l.maxvaluesize
    → length k + 1 + length v < 2 ^ 64
    → parse_key_value l (k ++ (b' ' ∷ (v ++ behind))) (length k + 1 + length v) ≡ some (k, v)
unfolding parse_key_value
parse_key_value-written l k v behind plain some_key key_fits some_value value_fits small =
    let mem = k ++ (b' ' ∷ (v ++ behind)) in
    let size = length k + 1 + length v in
    let klen : key_len l mem size ≡ length k =
      word-append (least size l.maxkeysize) k (v ++ behind) plain (ground (arith, key_fits)) in
    let vlen : value_len l size (length k) ≡ length v = ground (arith, value_fits, small) in
    let key : take (length k) mem ≡ k = take-append k (b' ' ∷ v ++ behind) in
    let val : slice (length k + 1) (length v) mem ≡ v =
      ap (λ n. take (length v) (drop n mem)) {y = suc (length k)} (omega arith)
      ∙ ap (take (length v)) (drop-suc k b' ' (v ++ behind))
      ∙ take-append v behind in
    rw (klen, vlen) (ground (arith, some_key, some_value, key, val))
