-- ===== src/RequestHash/Canonical.antt =====
-- The canonical text does not depend on the order of fields, at any level.
pub mod Printed
pub mod Decoded
pub mod Arrays
pub mod Objects
pub mod Injective
use animus_queue_default.Common.{◌≡◌, ◌≢◌, refl, String, ◌∙◌, ap, map, ◌<>◌}
use animus_queue_default.Json.{Value, Items, Fields, array, object, nil, cons, end, field}
use animus_queue_default.External.{External}
use animus_queue_default.RequestHash.{
  canonical_json, canonical_items, canonical_fields, sort, join, write_field,
}
use animus_queue_default.RequestHash.Order.{insert_comm}

-- Values that differ in the order of the fields of objects, however deep.
mutual
  pub data SameValue : Value → Value → Type 0 where
    same : {v : Value} → SameValue v v
    arrays : {xs ys : Items} → SameItems xs ys → SameValue (array xs) (array ys)
    objects : {fs gs : Fields} → SameFields fs gs → SameValue (object fs) (object gs)

  pub data SameItems : Items → Items → Type 0 where
    no_items : SameItems nil nil
    item :
        {v w : Value} {xs ys : Items}
        → SameValue v w
        → SameItems xs ys
        → SameItems (cons v xs) (cons w ys)

  pub data SameFields : Fields → Fields → Type 0 where
    no_fields : SameFields end end
    keep :
        {key : String} {v w : Value} {fs gs : Fields}
        → SameValue v w
        → SameFields fs gs
        → SameFields (field key v fs) (field key w gs)
    swap :
        {key other : String} {v w : Value} {fs : Fields}
        → key ≢ other
        → SameFields (field key v (field other w fs)) (field other w (field key v fs))
    then : {fs gs hs : Fields} → SameFields fs gs → SameFields gs hs → SameFields fs hs

module _ (x : External) where
  mutual
    unfolding canonical_json canonical_items canonical_fields sort

    canonical-same : {v w : Value} → SameValue v w → canonical_json x v ≡ canonical_json x w
    canonical-same same = refl
    canonical-same (arrays s) = ap (λ texts. "[" <> join texts <> "]") (items-same s)
    canonical-same (objects s) =
        ap (λ written. "{" <> join (map (write_field x) written) <> "}") (fields-same s)

    items-same : {xs ys : Items} → SameItems xs ys → canonical_items x xs ≡ canonical_items x ys
    items-same no_items = refl
    items-same (item s t) = cc (canonical-same s, items-same t)

    fields-same :
        {fs gs : Fields}
        → SameFields fs gs
        → sort (canonical_fields x fs) ≡ sort (canonical_fields x gs)
    fields-same no_fields = refl
    fields-same (keep s t) = cc (canonical-same s, fields-same t)
    fields-same (swap d) = insert_comm _ _ _ d
    fields-same (then s t) = fields-same s ∙ fields-same t

  -- Values that differ only in the order of the fields of objects, at any depth, where a field may
  -- change places with one of another key, have the same canonical text.
  pub canonical_json-SameValue :
      (v w : Value) → SameValue v w → canonical_json x v ≡ canonical_json x w
  canonical_json-SameValue v w s = canonical-same s
