-- ===== src/Client/Frame.antt =====
-- src/net.c: the frame of a reply, as a client reads it.
use gibson_mastter.Base.{
  ℕ, ◌+◌, ◌*◌, ◌%◌, ◌^◌, ◌<◌, ◌≡◌, refl, ap, ◌∙◌, List, [], ◌∷◌, ◌++◌, length, take, drop, arith,
}
use gibson_mastter.Reply.{le_bytes, le_word}
use gibson_mastter.Client.{frame}

pub le_word-le_bytes : (x : ℕ) → x < 2 ^ 32 → le_word (le_bytes 4 x) ≡ x
unfolding le_bytes
le_word-le_bytes x h = omega (arith, h)

le_word-le_bytes_2 : (x : ℕ) → x < 2 ^ 16 → le_word (le_bytes 2 x) ≡ x
unfolding le_bytes
le_word-le_bytes_2 x h = omega (arith, h)

module _ {A : Type 0} where
  pub take_all : (xs ys : List A) → take (length xs) (xs ++ ys) ≡ xs
  take_all [] ys = refl
  take_all (x ∷ xs) ys = ap (λ zs. x ∷ zs) (take_all xs ys)

  pub take_full : (xs : List A) → take (length xs) xs ≡ xs
  take_full [] = refl
  take_full (x ∷ xs) = ap (λ zs. x ∷ zs) (take_full xs)

-- What a client makes of the bytes that come in: the code, the encoding and the data.
abbrev pub unframe : List ℕ → ℕ × ℕ × List ℕ
unframe bs = (
  le_word (take 2 bs),
  le_word (take 1 (drop 2 bs)),
  take (le_word (take 4 (drop 3 bs))) (drop 7 bs),
)

-- Whatever follows a frame in the stream, its reader gets the code, the encoding and the data of the
-- reply back, if the code has 16 bits and the data less than 2^32 bytes.
pub unframe-frame :
    (code encoding : ℕ) (content rest : List ℕ)
    → code < 2 ^ 16
    → length content < 2 ^ 32
    → unframe (frame code encoding content ++ rest) ≡ (code, encoding, content)
unfolding frame le_bytes
unframe-frame code encoding content rest c h =
    let n = length content in
    let small : n % 2 ^ 32 ≡ n = omega (arith, h) in
    rw small (
      ap (λ k. (k, encoding + 256 * 0, take (le_word (le_bytes 4 n)) (take n content ++ rest)))
        (le_word-le_bytes_2 code c)
      ∙ ap (λ k. (code, k, take (le_word (le_bytes 4 n)) (take n content ++ rest)))
          {x = encoding + 256 * 0} {y = encoding} (omega arith)
      ∙ ap (λ k. (code, encoding, take k (take n content ++ rest))) (le_word-le_bytes n h)
      ∙ ap (λ xs. (code, encoding, take n (xs ++ rest))) (take_full content)
      ∙ ap (λ xs. (code, encoding, xs)) (take_all content rest))
