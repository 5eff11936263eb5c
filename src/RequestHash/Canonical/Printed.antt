-- ===== src/RequestHash/Canonical/Printed.antt =====
-- The canonical text as a plain print of the value with sorted fields.
use animus_queue_default.Common.{
  ◌≡◌, refl, ap, String, List, [], ◌∷◌, map, ◌<>◌, precedes, if◌then◌else◌, arith,
}
use animus_queue_default.Json.{
  Value, Items, Fields, null, boolean, number, string, array, object, nil, cons, end, field,
}
use animus_queue_default.External.{External}
use animus_queue_default.RequestHash.{
  Written, insert, sort, join, write_field, canonical_json, canonical_items, canonical_fields,
}

-- A field put where its key belongs.
abbrev pub insert_field : String → Value → Fields → Fields
insert_field key v end = field key v end
insert_field key v (field k u fs) =
    let rest = insert_field key v fs in
    if precedes key k then field key v (field k u fs) else field k u rest

-- The value with the fields of objects sorted, at each level.
unfoldable mutual
  pub normal : Value → Value
  normal (array xs) = array (normal_items xs)
  normal (object fs) = object (normal_fields fs)
  normal null = null
  normal (boolean b) = boolean b
  normal (number n) = number n
  normal (string s) = string s

  pub normal_items : Items → Items
  normal_items nil = nil
  normal_items (cons v xs) = cons (normal v) (normal_items xs)

  pub normal_fields : Fields → Fields
  normal_fields end = end
  normal_fields (field key v fs) = insert_field key (normal v) (normal_fields fs)

module _ (x : External) where
  -- The text of a value with its fields as they stand.
  unfoldable mutual
    unfolding join write_field

    pub printed : Value → String
    printed (array xs) = "[" <> join (printed_items xs) <> "]"
    printed (object fs) = "{" <> join (map (write_field x) (printed_fields fs)) <> "}"
    printed null = x.json_text null
    printed (boolean b) = x.json_text (boolean b)
    printed (number n) = x.json_text (number n)
    printed (string s) = x.json_text (string s)

    pub printed_items : Items → List String
    printed_items nil = []
    printed_items (cons v xs) = printed v ∷ printed_items xs

    pub printed_fields : Fields → List Written
    printed_fields end = []
    printed_fields (field key v fs) = (key, printed v) ∷ printed_fields fs

  insert-printed :
      (key : String) (v : Value) (fs : Fields)
      → insert (key, printed v) (printed_fields fs) ≡ printed_fields (insert_field key v fs)
  unfolding insert printed_fields
  insert-printed key v end = refl
  insert-printed key v (field k u fs) = ground (arith, insert-printed key v fs)

  mutual
    unfolding canonical_json canonical_items canonical_fields sort normal normal_items normal_fields
        printed printed_items printed_fields

    json-printed : (v : Value) → canonical_json x v ≡ printed (normal v)
    json-printed (array xs) = ap (λ texts. "[" <> join texts <> "]") (items-printed xs)
    json-printed (object fs) =
        ap (λ written. "{" <> join (map (write_field x) written) <> "}") (fields-printed fs)
    json-printed null = refl
    json-printed (boolean b) = refl
    json-printed (number n) = refl
    json-printed (string s) = refl

    items-printed : (xs : Items) → canonical_items x xs ≡ printed_items (normal_items xs)
    items-printed nil = refl
    items-printed (cons v xs) = cc (json-printed v, items-printed xs)

    fields-printed :
        (fs : Fields) → sort (canonical_fields x fs) ≡ printed_fields (normal_fields fs)
    fields-printed end = refl
    fields-printed (field key v fs) =
        cc (json-printed v, fields-printed fs, insert-printed key (normal v) (normal_fields fs))

  -- The canonical text is the plain text of the value with its fields sorted.
  pub canonical_json-printed : (v : Value) → canonical_json x v ≡ printed (normal v)
  canonical_json-printed v = json-printed v
