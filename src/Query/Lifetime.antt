-- ===== src/Query/Lifetime.antt =====
-- src/query.c: what GET answers after SET, as time goes by.
use gibson_mastter.Base.{
  not, ℕ, ◌+◌, ◌^◌, ◌<◌, ◌≤◌, ◌≡◌, ◌≢◌, refl, ◌∙◌, ap, inl, inr, Option, none, some, List, [], ◌∷◌,
  Bool, true, false, ltb, leb, if◌then◌else◌, arith, length, Bool-cases, key_eq_refl,
}
use gibson_mastter.Base.Int.{ℤ, pos, lt_ℤ, to_word, of_word}
use gibson_mastter.Trie.{tr_find}
use gibson_mastter.Trie.Find.{find-store, find-node}
use gibson_mastter.Number.{parse_long}
use gibson_mastter.Item.{Item, plain, is_expired, stored_ttl}
use gibson_mastter.Server.{External, Server, create_item, destroy_item, is_node_still_valid}
use gibson_mastter.Request.{parse_key, parse_ttl_key_value}
use gibson_mastter.Reply.{Reply, reply, val, err_not_found, enqueue_code, shown, enqueue_item}
use gibson_mastter.Query.{with_item, choose, noted, destroy_old, single_set}
use gibson_mastter.Query.Single.{query_set, query_get, set_ttl, held, show}
use gibson_mastter.Query.Invariant.{Inv, IsKey, find-single_set}

-- A ttl that fits the field is stored as it is.
pub stored_ttl-fits : (max n : ℕ) → n < 2 ^ 15 → n ≤ max → stored_ttl max (pos n) ≡ pos n
unfolding stored_ttl to_word of_word
stored_ttl-fits max n lt le = ground arith

-- The clock `e` seconds later.
abbrev pub later : ℕ → Server → Server
later e s = record s { stats = record s.stats { now = s.stats.now + e } }

module _ (ext : External) where
  -- What lzf promises: the bytes that it compressed come back, if they fit the output buffer.
  abbrev pub RoundTrips : List ℕ → ℕ → Type 0
  RoundTrips v max =
      (n : ℕ) → ext.lzf_compress v n ≢ [] → ext.lzf_decompress (ext.lzf_compress v n) max ≡ v

  pub get-found :
      (s : Server) (mem : List ℕ) (size : ℕ) (k : List ℕ) (item : Item)
      → parse_key s.limits mem size ≡ some k
      → tr_find s.tree k ≡ some item
      → (query_get ext s mem size).1
        ≡ (if is_expired item s.stats.now then enqueue_code err_not_found else show ext s item)
  unfolding is_node_still_valid enqueue_item shown query_get is_expired
  get-found s mem size k item parsed found =
      rw (parsed, query_get)
        (rw found (elim (Bool-cases (is_expired item s.stats.now)) [
          | inl e ↦ rw e refl
          | inr e ↦ rw e refl
        ]))

  -- gbSingleSet changes neither the limits nor the clock.
  limits-destroy_old : (s : Server) (o : Option Item) → (destroy_old ext s o).limits ≡ s.limits
  unfolding destroy_item
  limits-destroy_old s none = refl
  limits-destroy_old s (some item) = refl

  limits-noted : (s : Server) (c v : ℕ) (b : Bool) → (noted s c v b).limits ≡ s.limits
  limits-noted s c v false = refl
  limits-noted s c v true = refl

  limits-single_set : (s : Server) (v k : List ℕ) → (single_set ext s v k).0.limits ≡ s.limits
  unfolding single_set create_item
  limits-single_set s v k = limits-destroy_old _ _ ∙ limits-noted s _ _ _

  -- What the item of gbSingleSet shows is the value.
  show-choose :
      (b : Bool) (c v : List ℕ) (max : ℕ) (item : Item)
      → (c ≢ [] → ext.lzf_decompress c max ≡ v)
      → item.content ≡ (choose b c v).0
      → item.encoding ≡ (choose b c v).1
      → enqueue_item ext max val item ≡ reply val plain v false
  unfolding enqueue_item shown
  show-choose false c v max item trips content encoding = rw (encoding, content) refl
  show-choose true [] v max item trips content encoding = rw (encoding, content) refl
  show-choose true (x ∷ xs) v max item trips content encoding =
      rw (encoding, content) (ap (λ w. reply val plain w false) (trips (λ e. cc e)))

  show-single_set :
      (s : Server) (v k : List ℕ) (max : ℕ) (item : Item)
      → RoundTrips v max
      → item.content ≡ (single_set ext s v k).1.content
      → item.encoding ≡ (single_set ext s v k).1.encoding
      → enqueue_item ext max val item ≡ reply val plain v false
  unfolding single_set create_item
  show-single_set s v k max item trips content encoding =
      show-choose (ltb s.compression (length v)) _ v max item (trips _) content encoding

  set-step :
      (s : Server) (mem : List ℕ) (size : ℕ) (t k v : List ℕ) (ttl : ℤ)
      → parse_ttl_key_value s.limits mem size ≡ some (t, k, v)
      → parse_long t ≡ some ttl
      → leb s.stats.memused s.limits.maxmem ≡ true
      → held (tr_find s.tree k) s.stats.now ≡ false
      → query_set ext s mem size ≡ set_ttl ext (single_set ext s v k) k ttl
  unfolding query_set
  set-step s mem size t k v ttl parsed number room free = rw (room, parsed, number, free) refl

  lifetime :
      (item : Item) (now n e : ℕ)
      → item.time ≡ now
      → item.ttl ≡ pos n
      → 0 < n
      → is_expired item (now + e) ≡ not (ltb e n)
  unfolding is_expired
  lifetime item now n e time ttl positive = rw (time, ttl) (ground arith)

  answer :
      (b c : Bool) (x y z : Reply) → c ≡ not b → y ≡ z → (if c then x else y) ≡ (if b then z else x)
  answer true c x y z e f = rw (e, f) refl
  answer false c x y z e f = rw e refl

  -- A SET with a ttl of `n` seconds that is let through (memory is left, the key is not locked, its
  -- bytes are not NUL, and `n` is at least 1, at most `maxitemttl` and fits the field's 15 bits) and
  -- then a GET of the key, `e` seconds later, with no request between them: GET answers the value
  -- while `e` is less than `n`, and "not found" from then on. lzf gives back what it compressed.
  pub set-get :
      (s : Server) (mem mem' : List ℕ) (size size' : ℕ) (t k v : List ℕ) (n e : ℕ)
      → Inv s
      → IsKey k
      → RoundTrips v s.limits.maxrequestsize
      → parse_ttl_key_value s.limits mem size ≡ some (t, k, v)
      → parse_long t ≡ some (pos n)
      → 0 < n
      → n < 2 ^ 15
      → n ≤ s.limits.maxitemttl
      → leb s.stats.memused s.limits.maxmem ≡ true
      → held (tr_find s.tree k) s.stats.now ≡ false
      → parse_key s.limits mem' size' ≡ some k
      → (query_get ext (later e (query_set ext s mem size).0) mem' size').1
        ≡ (if ltb e n then reply val plain v false else enqueue_code err_not_found)
  set-get s mem mem' size size' t k v n e h key trips parsed number positive fits le room free
        parsed' =
      let (s1, item) = single_set ext s v k in
      let item' = record item {
        time = s1.stats.now;
        ttl = stored_ttl s1.limits.maxitemttl (pos n);
      } in
      let limits = limits-single_set s v k in
      let found1 : tr_find s1.tree k ≡ some item =
        find-single_set ext s v k k key h.sound ∙ rw (key_eq_refl k) refl in
      let found : tr_find (with_item s1 k item').tree k ≡ some item' = ground (
        arith,
        find-store s1.tree k k (some item'),
        key_eq_refl k,
        find-node s1.tree k item found1,
      ) in
      let ttl : item'.ttl ≡ pos n = rw limits (stored_ttl-fits s.limits.maxitemttl n fits le) in
      let positive_ttl : lt_ℤ (pos 0) (pos n) ≡ true = ground arith in
      let shows : show ext s1 item' ≡ reply val plain v false =
        ap (λ l. enqueue_item ext l.maxrequestsize val item') limits
        ∙ show-single_set s v k s.limits.maxrequestsize item' trips refl refl in
      let after : (query_set ext s mem size).0 ≡ with_item s1 k item' =
        ap (λ a. a.0) (set-step s mem size t k v (pos n) parsed number room free)
        ∙ rw positive_ttl refl in
      rw after (
        get-found (later e (with_item s1 k item')) mem' size' k item' (rw limits parsed') found
        ∙ answer (ltb e n) _ _ _ _ (lifetime item' s1.stats.now n e refl ttl positive) shows)
