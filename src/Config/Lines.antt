-- ===== src/Config/Lines.antt =====
-- src/config.c, gbConfigLoad: what the lines of a file come to.
use gibson_mastter.Base.{
  ℕ, ◌≡◌, refl, ap, ◌∙◌, Option, none, some, List, [], ◌∷◌, ◌++◌, true, false, ◌==◌, if◌then◌else◌,
  arith, All, key_eq, if_rule,
}
use gibson_mastter.Base.Distinct.{Below}
use gibson_mastter.Trie.{tr_find}
use gibson_mastter.Config.{
  is_space, eat_spaces, copy_word, Line, skipped, setting, unexpected_end, line_value, line_key,
  read_line, Config,
}

-- The settings of a file in their order, none where a line breaks off.
abbrev pub and_setting : Line → Option (List (List ℕ × List ℕ)) → Option (List (List ℕ × List ℕ))
and_setting skipped o = o
and_setting (setting key text) none = none
and_setting (setting key text) (some es) = some ((key, text) ∷ es)
and_setting unexpected_end o = none

abbrev pub settings : List (List ℕ) → Option (List (List ℕ × List ℕ))
settings [] = some []
settings (l ∷ ls) = and_setting (read_line l) (settings ls)

-- The value of a key: the last one that is set, or the one from before.
abbrev pub latest : List (List ℕ × List ℕ) → List ℕ → Option (List ℕ) → Option (List ℕ)
latest [] k before = before
latest ((key, text) ∷ es) k before = latest es k (if key_eq key k then some text else before)

-- A configuration that has the settings of a file.
abbrev pub Implements : Option (List (List ℕ × List ℕ)) → Option Config → Config → Type 0
Implements none none old = Unit
Implements none (some c) old = ⊥
Implements (some es) none old = ⊥
Implements (some es) (some c) old = (k : List ℕ) → tr_find c k ≡ latest es k (tr_find old k)

eat_spaces-Below : (cs : List ℕ) → Below 256 cs → Below 256 (eat_spaces cs)
unfolding eat_spaces
eat_spaces-Below [] h = tt
eat_spaces-Below (c ∷ cs) (b, h) =
    if_rule (Below 256) (is_space c) _ _ (λ _. eat_spaces-Below cs h) (λ _. (b, h))

copy_word-Below : (cs : List ℕ) → Below 256 cs → Below 256 (copy_word cs).0
unfolding copy_word
copy_word-Below [] h = tt
copy_word-Below (c ∷ cs) (b, h) =
    if_rule (λ (r : List ℕ × List ℕ). Below 256 r.0) (is_space c) _ _ (λ _. tt)
      (λ _. (b, copy_word-Below cs h))

-- The key of a setting has no byte that the line does not have.
abbrev pub KeyBelow : Line → Type 0
KeyBelow (setting key text) = Below 256 key
KeyBelow _ = Unit

pub read_line-Below : (l : List ℕ) → Below 256 l → KeyBelow (read_line l)
unfolding read_line
read_line-Below [] h = tt
read_line-Below (c ∷ cs) h =
    if_rule KeyBelow (c == b'#') _ _ (λ _. tt)
      (λ _. of_key (eat_spaces (c ∷ cs)) (eat_spaces-Below (c ∷ cs) h))
  where
    of_value : (key cs : List ℕ) → Below 256 key → KeyBelow (line_value key cs)
    of_value key [] h = tt
    of_value key (d ∷ ds) h = h

    of_key : (cs : List ℕ) → Below 256 cs → KeyBelow (line_key cs)
    of_key [] h = tt
    of_key (d ∷ ds) h =
        of_value (copy_word (d ∷ ds)).0 (eat_spaces (copy_word (d ∷ ds)).1)
          (copy_word-Below (d ∷ ds) h)

-- A word: bytes that are not spaces.
abbrev pub IsWord : List ℕ → Type 0
IsWord = All (λ c. is_space c ≡ false)

abbrev pub AreSpaces : List ℕ → Type 0
AreSpaces = All (λ c. is_space c ≡ true)

eat-spaces : (ss cs : List ℕ) → AreSpaces ss → eat_spaces (ss ++ cs) ≡ eat_spaces cs
unfolding eat_spaces
eat-spaces [] cs h = refl
eat-spaces (s ∷ ss) cs (h, hs) = rw h (eat-spaces ss cs hs)

copy-word :
    (w : List ℕ) (s : ℕ) (cs : List ℕ)
    → IsWord w
    → is_space s ≡ true
    → copy_word (w ++ s ∷ cs) ≡ (w, s ∷ cs)
unfolding copy_word
copy-word [] s cs h e = rw e refl
copy-word (c ∷ w) s cs (h, hs) e = rw h (ap (λ r. (c ∷ r.0, r.1)) (copy-word w s cs hs e))

eat-word : (c : ℕ) (cs : List ℕ) → is_space c ≡ false → eat_spaces (c ∷ cs) ≡ c ∷ cs
unfolding eat_spaces
eat-word c cs h = rw h refl

module _ (between rest key text : List ℕ) (k v s : ℕ) (c : AreSpaces between)
    (e : is_space s ≡ true) (wk : IsWord (k ∷ key)) (wv : IsWord (v ∷ text)) where
  -- The text from the value on, and from the key on.
  abbrev value_on : List ℕ
  value_on = v ∷ (text ++ s ∷ rest)

  abbrev key_on : List ℕ
  key_on = k ∷ (key ++ s ∷ (between ++ value_on))

  line_key-setting : line_key key_on ≡ setting (k ∷ key) (v ∷ text)
  line_key-setting =
      ap (λ (r : List ℕ × List ℕ). line_value r.0 (eat_spaces r.1))
        (copy-word (k ∷ key) s (between ++ value_on) wk e)
      ∙ ap (line_value (k ∷ key))
          (eat-spaces (s ∷ between) value_on (e, c) ∙ eat-word v (text ++ s ∷ rest) wv.0)
      ∙ ap (λ (r : List ℕ × List ℕ). setting (k ∷ key) r.0) (copy-word (v ∷ text) s rest wv e)

  -- The line of a key and a value, words that are not empty, with spaces before, between and behind
  -- them, reads as the setting of the key, if it does not begin like a comment.
  pub read_line-setting :
      (before : List ℕ)
      → AreSpaces before
      → (k == b'#') ≡ false
      → read_line (before ++ (k ∷ (key ++ s ∷ (between ++ (v ∷ (text ++ s ∷ rest))))))
        ≡ setting (k ∷ key) (v ∷ text)
  unfolding read_line
  read_line-setting [] b plain = rw plain (ap line_key (eat-word k _ wk.0) ∙ line_key-setting)
  read_line-setting (x ∷ xs) (space, b) plain =
      rw (not_comment x space)
        (ap line_key (eat-spaces (x ∷ xs) key_on (space, b) ∙ eat-word k _ wk.0) ∙ line_key-setting)
    where
      not_comment : (x : ℕ) → is_space x ≡ true → (x == b'#') ≡ false
      not_comment x space = ground (arith, space)
