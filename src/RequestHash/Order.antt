-- ===== src/RequestHash/Order.antt =====
-- The order of keys, and sorting by it.
mod Keys
use animus_queue_default.Common.{
  ◌≡◌, ◌≢◌, ap, refl, ◌∙◌, true, inl, inr, arith, precedes, Bool-cases, List, [], ◌∷◌, All,
}
use animus_queue_default.RequestHash.{Written, insert, sort}
use animus_queue_default.RequestHash.Order.Keys.{precedes_total, precedes_trans, precedes_antisym}

-- Fields with different keys may be put in in either order.
pub insert_comm :
    (f g : Written) (fs : List Written)
    → f.0 ≢ g.0
    → insert f (insert g fs) ≡ insert g (insert f fs)
unfolding insert
insert_comm f g [] d = ground (arith, precedes_total f.0 g.0, precedes_antisym f.0 g.0)
insert_comm f g (h ∷ fs) d = ground (
  arith,
  insert_comm f g fs d,
  precedes_total f.0 g.0,
  precedes_antisym f.0 g.0,
  precedes_trans f.0 g.0 h.0,
  precedes_trans g.0 f.0 h.0,
  precedes_total f.0 h.0,
  precedes_total g.0 h.0,
  precedes_trans f.0 h.0 g.0,
  precedes_trans g.0 h.0 f.0,
)
