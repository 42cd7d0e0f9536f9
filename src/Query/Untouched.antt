-- ===== src/Query/Untouched.antt =====
-- src/query.c: what no handler touches, the limits, the clock and the counters of clients, connections,
-- requests and cron runs.
use gibson_mastter.Base.{
  ℕ, ◌≡◌, refl, ◌∙◌, Option, none, some, List, Bool, true, false, not, leb, option_rule, if_rule,
}
use gibson_mastter.Base.Int.{ℤ, pos, lt_ℤ}
use gibson_mastter.Trie.{tr_find}
use gibson_mastter.Number.{parse_long}
use gibson_mastter.Item.{
  Item, Payload, Encoding, plain, lzf, number, is_expired, item_is_locked, bytes_of,
}
use gibson_mastter.Server.{
  External, Limits, Server, create_item, destroy_item, is_node_still_valid, is_item_still_valid,
}
use gibson_mastter.Request.{parse_key, parse_key_value, parse_ttl_key_value}
use gibson_mastter.Query.{Answer, accessed, single_set, destroy_old, noted}
use gibson_mastter.Query.Single.{
  query_get, query_set, query_ttl, query_del, query_inc_dec, query_lock, query_unlock, query_meta,
  set_ttl, step_number, step_parsed, held, renew, take_lock, create_number,
}
use gibson_mastter.Query.Multi.{multi_step_number, multi_step_parsed}

-- What is left alone.
pub record Surroundings : Type 0 where
  pub limits : Limits
  pub compression : ℕ
  pub started : ℕ
  pub now : ℕ
  pub nclients : ℕ
  pub connections : ℕ
  pub crondone : ℕ
  pub requests : ℕ

unfoldable pub surroundings : Server → Surroundings
surroundings s = record {
  limits = s.limits;
  compression = s.compression;
  started = s.stats.started;
  now = s.stats.now;
  nclients = s.stats.nclients;
  connections = s.stats.connections;
  crondone = s.stats.crondone;
  requests = s.stats.requests;
}

abbrev pub Same : Server → Server → Type 0
Same s r = surroundings r ≡ surroundings s

abbrev pub Leaves : Server → Answer → Type 0
Leaves s a = Same s a.0

module _ (ext : External) where
  pub node_valid-Same :
      (s : Server) (k : List ℕ) (item : Item) → Same s (is_node_still_valid ext s k item).1
  unfolding is_node_still_valid destroy_item surroundings
  node_valid-Same s k item =
      if_rule (λ (r : Bool × Server). Same s r.1) (is_expired item s.stats.now) _ _ (λ _. refl)
        (λ _. refl)

  pub item_valid-Same :
      (s : Server) (item : Item) (k : List ℕ) → Same s (is_item_still_valid ext s item k).1
  unfolding is_item_still_valid destroy_item surroundings
  item_valid-Same s item k =
      if_rule (λ (r : Bool × Server). Same s r.1) (is_expired item s.stats.now) _ _ (λ _. refl)
        (λ _. refl)

  pub destroy_old-Same : (s : Server) (o : Option Item) → Same s (destroy_old ext s o)
  unfolding destroy_item surroundings
  destroy_old-Same s none = refl
  destroy_old-Same s (some item) = refl

  pub noted-Same : (s : Server) (c v : ℕ) (b : Bool) → Same s (noted s c v b)
  unfolding surroundings
  noted-Same s c v false = refl
  noted-Same s c v true = refl

  pub single_set-Same : (s : Server) (v k : List ℕ) → Same s (single_set ext s v k).0
  unfolding single_set create_item surroundings
  single_set-Same s v k = destroy_old-Same _ _ ∙ noted-Same s _ _ _

  -- The steps that change one item.
  pub step_number-Same :
      (e : Encoding) (content : Payload) (s : Server) (k : List ℕ) (item : Item) (delta : ℤ)
      → Same s (step_number ext e content s k item delta).0
  unfolding surroundings
  step_number-Same number content s k item delta = refl
  step_number-Same lzf content s k item delta = refl
  step_number-Same plain content s k item delta = parsed (parse_long (bytes_of content))
    where
      parsed : (o : Option ℤ) → Same s (step_parsed ext o s k item delta).0
      parsed none = refl
      parsed (some n) = refl

  pub multi_step_number-Same :
      (e : Encoding) (content : Payload) (s : Server) (k : List ℕ) (item : Item) (delta : ℤ)
      → Same s (multi_step_number ext e content s k item delta).1
  unfolding surroundings
  multi_step_number-Same number content s k item delta = refl
  multi_step_number-Same lzf content s k item delta = refl
  multi_step_number-Same plain content s k item delta = parsed (parse_long (bytes_of content))
    where
      parsed : (o : Option ℤ) → Same s (multi_step_parsed ext o s k item delta).1
      parsed none = refl
      parsed (some n) = refl

  pub renew-Same :
      (o : Option ℤ) (s : Server) (k : List ℕ) (item : Item) → Same s (renew ext o s k item).0
  unfolding surroundings
  renew-Same none s k item = refl
  renew-Same (some n) s k item = refl

  pub take_lock-Same :
      (o : Option ℤ) (s : Server) (k : List ℕ) (item : Item) → Same s (take_lock ext o s k item).0
  unfolding surroundings
  take_lock-Same none s k item = refl
  take_lock-Same (some n) s k item =
      if_rule (Leaves s) (item_is_locked item s.stats.now) _ _ (λ _. refl) (λ _. refl)

module _ (ext : External) (s : Server) (mem : List ℕ) (size : ℕ) where
  pub query_get-Same : Leaves s (query_get ext s mem size)
  unfolding query_get surroundings
  query_get-Same = option_rule (Leaves s) (parse_key s.limits mem size) _ _ refl λ k _.
      option_rule (Leaves s) (tr_find s.tree k) _ _ refl
        λ item _. let e = node_valid-Same ext s k item in if_rule (Leaves s) _ _ _ (λ _. e) (λ _. e)

  pub query_unlock-Same : Leaves s (query_unlock ext s mem size)
  unfolding query_unlock surroundings
  query_unlock-Same = option_rule (Leaves s) (parse_key s.limits mem size) _ _ refl λ k _.
      option_rule (Leaves s) (tr_find s.tree k) _ _ refl
        λ item _. let e = node_valid-Same ext s k item in if_rule (Leaves s) _ _ _ (λ _. e) (λ _. e)

  pub query_meta-Same : Leaves s (query_meta ext s mem size)
  unfolding query_meta surroundings
  query_meta-Same = option_rule (Leaves s) (parse_key_value s.limits mem size) _ _ refl λ kv _.
      option_rule (Leaves s) (tr_find s.tree kv.0) _ _ refl λ item _.
        let e = node_valid-Same ext s kv.0 item in if_rule (Leaves s) _ _ _ (λ _. e) (λ _. e)

  pub query_ttl-Same : Leaves s (query_ttl ext s mem size)
  unfolding query_ttl
  query_ttl-Same = option_rule (Leaves s) (parse_key_value s.limits mem size) _ _ refl λ kv _.
      option_rule (Leaves s) (tr_find s.tree kv.0) _ _ refl λ item _.
        let e = item_valid-Same ext s item kv.0 in
        if_rule (Leaves s) _ _ _ (λ _. renew-Same ext (parse_long kv.1) _ kv.0 item ∙ e) (λ _. e)

  pub query_lock-Same : Leaves s (query_lock ext s mem size)
  unfolding query_lock
  query_lock-Same = option_rule (Leaves s) (parse_key_value s.limits mem size) _ _ refl λ kv _.
      option_rule (Leaves s) (tr_find s.tree kv.0) _ _ refl λ item _.
        let e = node_valid-Same ext s kv.0 item in
        if_rule (Leaves s) _ _ _ (λ _. take_lock-Same ext (parse_long kv.1) _ kv.0 item ∙ e)
          (λ _. e)

  pub query_del-Same : Leaves s (query_del ext s mem size)
  unfolding query_del destroy_item surroundings
  query_del-Same = option_rule (Leaves s) (parse_key s.limits mem size) _ _ refl λ k _.
      option_rule (Leaves s) (tr_find s.tree k) _ _ refl λ item _.
        let e = node_valid-Same ext s k item in
        if_rule (Leaves s) (item_is_locked item s.stats.now) _ _ (λ _. refl)
          λ _. if_rule (Leaves s) _ _ _ (λ _. e) (λ _. e)

  pub create_number-Same : (k : List ℕ) → Leaves s (create_number ext s k)
  unfolding create_item surroundings
  create_number-Same k = refl

  pub query_inc_dec-Same : (delta : ℤ) → Leaves s (query_inc_dec ext delta s mem size)
  unfolding query_inc_dec
  query_inc_dec-Same delta = option_rule (Leaves s) (parse_key s.limits mem size) _ _ refl λ k _.
      option_rule (Leaves s) (tr_find s.tree k) _ _ (create_number-Same k) λ item _.
        let e = node_valid-Same ext s k item in
        let (valid, s') = is_node_still_valid ext s k item in
        if_rule (Leaves s) (not valid) _ _ (λ _. e)
          λ _.
            if_rule (Leaves s) (item_is_locked item s'.stats.now) _ _ (λ _. e)
              (λ _.
                step_number-Same ext item.encoding item.content s' k (accessed s' item) delta ∙ e)

  pub set_ttl-Same :
      (r : Server × Item) (k : List ℕ) (ttl : ℤ) → Same s r.0 → Leaves s (set_ttl ext r k ttl)
  unfolding surroundings
  set_ttl-Same (s', item) k ttl e = if_rule (Leaves s) (lt_ℤ (pos 0) ttl) _ _ (λ _. e) (λ _. e)

  pub query_set-Same : Leaves s (query_set ext s mem size)
  unfolding query_set
  query_set-Same =
      if_rule (Leaves s) (leb s.stats.memused s.limits.maxmem) _ _
        (λ _. option_rule (Leaves s) (parse_ttl_key_value s.limits mem size) _ _ refl λ tkv _.
          option_rule (Leaves s) (parse_long tkv.0) _ _ refl λ ttl _.
            if_rule (Leaves s) (held (tr_find s.tree tkv.1) s.stats.now) _ _ (λ _. refl)
              λ _. set_ttl-Same _ tkv.1 ttl (single_set-Same ext s tkv.2 tkv.1))
        (λ _. refl)
