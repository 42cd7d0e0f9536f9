-- ===== src/Query/Effects.antt =====
-- src/query.c: what DEL, INC and DEC do to an item.
use gibson_mastter.Base.{
  ℕ, suc, ◌^◌, ◌<◌, ◌∷◌, ◌≡◌, refl, ◌∙◌, sym, ap, inl, inr, Option, none, some, List, false,
  if◌then◌else◌, arith, Bool-cases, key_eq, key_eq_refl,
}
use gibson_mastter.Base.Int.{ℤ, pos, negsuc}
use gibson_mastter.Trie.{tr_find, store}
use gibson_mastter.Trie.Find.{find-store, find-node}
use gibson_mastter.Number.{parse_long}
use gibson_mastter.Item.{
  Item, Payload, Encoding, plain, lzf, number, item_is_locked, is_expired, number_of, bytes_of,
}
use gibson_mastter.Server.{External, Server, destroy_item, is_node_still_valid}
use gibson_mastter.Request.{parse_key}
use gibson_mastter.Reply.{
  Reply, reply, val, ok, err_nan, err_not_found, enqueue_code, enqueue_item, shown, long_bytes,
}
use gibson_mastter.Query.Listing.{decimal}
use gibson_mastter.Query.Decimal.{NoNumeral, parse_long-none, parse_long-decimal, parse_long-minus}
use gibson_mastter.Query.{add_long, accessed, with_item}
use gibson_mastter.Query.Single.{query_del, query_inc_dec, step_number, measured}

-- What the data of an item stand for: a number as such; a text of decimal digits, with a minus sign
-- in front if the number is negative, and less than 2^63; or no number, which is a text with some other
-- byte that does not begin with the digit 0, or what is compressed.
abbrev pub Stands : Encoding → Payload → Option ℤ → Type 0
Stands number c o = o ≡ some (number_of c)
Stands plain c none = NoNumeral (bytes_of c)
Stands plain c (some (pos n)) = (bytes_of c ≡ decimal n) × (n < 2 ^ 63)
Stands plain c (some (negsuc m)) = (bytes_of c ≡ b'-' ∷ decimal (suc m)) × (m < 2 ^ 63)
Stands lzf c o = o ≡ none

Stands-parse : (c : Payload) (o : Option ℤ) → Stands plain c o → parse_long (bytes_of c) ≡ o
Stands-parse c none h = parse_long-none (bytes_of c) h
Stands-parse c (some (pos n)) h = ap parse_long h.0 ∙ parse_long-decimal n h.1
Stands-parse c (some (negsuc m)) h = ap parse_long h.0 ∙ parse_long-minus m h.1

some_value : (a b : ℤ) → some a ≡ some b → a ≡ b
some_value a b h = cc h

-- The number that an item holds as such.
abbrev pub number_at : Option Item → Option ℤ
number_at none = none
number_at (some item) = elim item.encoding [
  | number ↦ some (number_of item.content)
  | plain ↦ none
  | lzf ↦ none
]

-- The key's item holds the number plus `delta`, and that is the reply; without a number, the item has
-- been accessed only, and the reply is "not a number".
abbrev pub Stepped : Server → List ℕ → Item → ℤ → Option ℤ → Server × Reply → Type 0
Stepped s k item delta none (s', r) =
    (tr_find s'.tree k ≡ some (accessed s item)) × (r ≡ enqueue_code err_nan)
Stepped s k item delta (some n) (s', r) =
    (number_at (tr_find s'.tree k) ≡ some (add_long n delta))
    × (r ≡ reply val number (long_bytes (add_long n delta)) false)

module _ (ext : External) where
  found_written :
      (s : Server) (k : List ℕ) (old item : Item)
      → tr_find s.tree k ≡ some old
      → tr_find (with_item s k item).tree k ≡ some item
  found_written s k old item found =
      ground (arith, find-store s.tree k k (some item), key_eq_refl k, find-node s.tree k old found)

  step_number-Stepped :
      (e : Encoding) (s : Server) (k : List ℕ) (item : Item) (delta : ℤ) (o : Option ℤ)
      → e ≡ item.encoding
      → tr_find s.tree k ≡ some item
      → Stands e item.content o
      → Stepped s k item delta o (step_number ext e item.content s k (accessed s item) delta)
  unfolding enqueue_item shown
  step_number-Stepped plain s k item delta none same found h =
      rw (Stands-parse item.content none h) (found_written s k item _ found, refl)
  step_number-Stepped plain s k item delta (some n) same found h =
      rw (Stands-parse item.content (some n) h)
        (ap number_at (found_written (measured ext s) k item _ found), refl)
  step_number-Stepped lzf s k item delta none same found h = (found_written s k item _ found, refl)
  step_number-Stepped lzf s k item delta (some n) same found h = absurd (cc h)
  step_number-Stepped number s k item delta none same found h = absurd (cc h)
  step_number-Stepped number s k item delta (some n) same found h =
      rw (some_value n (number_of item.content) h)
        (ap number_at (found_written s k item _ found) ∙ rw (sym same) refl, rw (sym same) refl)

  inc_dec-step :
      (s : Server) (mem : List ℕ) (size : ℕ) (k : List ℕ) (item : Item) (delta : ℤ)
      → parse_key s.limits mem size ≡ some k
      → tr_find s.tree k ≡ some item
      → is_expired item s.stats.now ≡ false
      → item_is_locked item s.stats.now ≡ false
      → query_inc_dec ext delta s mem size
        ≡ step_number ext item.encoding item.content s k (accessed s item) delta
  unfolding query_inc_dec is_node_still_valid
  inc_dec-step s mem size k item delta parsed found alive free =
      rw (parsed, query_inc_dec) (rw found (rw alive (rw free refl)))

  del-step :
      (s : Server) (mem : List ℕ) (size : ℕ) (k : List ℕ) (item : Item)
      → parse_key s.limits mem size ≡ some k
      → tr_find s.tree k ≡ some item
      → item_is_locked item s.stats.now ≡ false
      → query_del ext s mem size ≡ (
        destroy_item ext (record s { tree = store s.tree k none }) item,
        if is_expired item s.stats.now then enqueue_code err_not_found else enqueue_code ok,
      )
  unfolding query_del is_node_still_valid destroy_item
  del-step s mem size k item parsed found free =
      rw (parsed, query_del)
        (rw found (
          rw free (elim (Bool-cases (is_expired item s.stats.now)) [
            | inl e ↦ rw e refl
            | inr e ↦ rw e refl
          ])))

  -- INC (`delta` is 1) and DEC (-1) of a key whose item is neither expired nor locked. If the item
  -- stands for a number n, as such or as its decimal text with |n| within 63 bits, it holds n + delta (as
  -- a 64-bit long) as a number afterwards, and that is the reply. If its text has a byte that belongs to
  -- no number and does not begin with the digit 0, or it is compressed, then it has only been accessed,
  -- and the reply is "not a number".
  pub inc_dec-Stepped :
      (s : Server) (mem : List ℕ) (size : ℕ) (k : List ℕ) (item : Item) (delta : ℤ) (o : Option ℤ)
      → parse_key s.limits mem size ≡ some k
      → tr_find s.tree k ≡ some item
      → is_expired item s.stats.now ≡ false
      → item_is_locked item s.stats.now ≡ false
      → Stands item.encoding item.content o
      → Stepped s k item delta o (query_inc_dec ext delta s mem size)
  inc_dec-Stepped s mem size k item delta o parsed found alive free stands =
      rw (inc_dec-step s mem size k item delta parsed found alive free)
        (step_number-Stepped item.encoding s k item delta o refl found stands)

  -- DEL of a key whose item is not locked: afterwards the key finds nothing and the other keys find
  -- what they found before; the reply is "not found" if the item had expired, and "ok" if not.
  pub find-del :
      (s : Server) (mem : List ℕ) (size : ℕ) (k j : List ℕ) (item : Item)
      → parse_key s.limits mem size ≡ some k
      → tr_find s.tree k ≡ some item
      → item_is_locked item s.stats.now ≡ false
      → let (s', r) = query_del ext s mem size in
        (tr_find s'.tree j ≡ (if key_eq k j then none else tr_find s.tree j))
        × (r
            ≡ (if is_expired item s.stats.now then enqueue_code err_not_found else enqueue_code ok))
  unfolding destroy_item
  find-del s mem size k j item parsed found free =
      rw (del-step s mem size k item parsed found free)
        (ground (arith, find-store s.tree k j none, find-node s.tree k item found), refl)
