-- ===== src/Query/Gathered.antt =====
-- src/query.c: what MGET answers where no item has expired.
use gibson_mastter.Base.{ℕ, ◌≡◌, List, All, false}
use gibson_mastter.Item.{Item, is_expired}
use gibson_mastter.Server.{Server}

abbrev pub AllFresh : ℕ → List (List ℕ × Item) → Type 0
AllFresh now = All (λ e. is_expired e.1 now ≡ false)
